-- ===== src/Stuck/Reading.antt =====
-- src/agent/stuck.rs: which entries the detection reads off the events.
use eventage_rs.Prelude.{
  ◌≡◌, ◌↔◌, inl, inr, sym, ◌∙◌, String, true, false, ◌&&◌, Option, none, some, List, [], ◌∷◌,
  filter_map, and_then, Bool-cases, Option-cases, str_eq, eq_iff, arith, if◌then◌else◌,
}
use eventage_rs.Json.{
  Value, null, boolean, number, text, array, object, Items, cons, get_field, as_str,
}
use eventage_rs.Event.{Event}
use eventage_rs.Event.Kinds
use eventage_rs.Stuck.{proposal, result_error, silent}

-- A tool result with this error.
abbrev pub IsError : Event → String → Type 0
IsError e message = (e.kind ≡ "tool.result") × (get_field e.payload "error" ≡ some (text message))

-- A proposed call with this name and these arguments.
abbrev pub IsProposal : Event → String × String → Type 0
IsProposal e (name, arguments) =
    (e.kind ≡ "tool.call.proposed")
    × (get_field e.payload "name" ≡ some (text name))
    × (get_field e.payload "arguments" ≡ some (text arguments))

-- An assistant message whose `tool_calls`, if they are an array, are empty.
abbrev pub IsSilent : Event → Type 0
IsSilent e =
    (e.kind ≡ "assistant.message")
    × ((v : Value) (vs : Items) → ¬ (get_field e.payload "tool_calls" ≡ some (array (cons v vs))))

-- The entries of the events that have one, in order; the other events are left out.
pub data Picks {A : Type 0} (R : Event → A → Type 0) : List Event → List A → Type 0 where
  done : Picks R [] []
  picked :
      {e : Event} {a : A} {es : List Event} {entries : List A}
      → R e a
      → Picks R es entries
      → Picks R (e ∷ es) (a ∷ entries)
  left_out :
      {e : Event} {es : List Event} {entries : List A}
      → ((a : A) → ¬ R e a)
      → Picks R es entries
      → Picks R (e ∷ es) entries

none-some {ℓ} : {A : Type ℓ} {a : A} → none ≡ some a → ⊥
none-some e = cc

false-true : false ≡ true → ⊥
false-true e = cc

pub filter_map-Picks :
    {A : Type 0} (R : Event → A → Type 0) (f : Event → Option A)
    → ((e : Event) (a : A) → (f e ≡ some a) ↔ R e a)
    → (es : List Event) → Picks R es (filter_map f es)
filter_map-Picks R f same [] = done
filter_map-Picks R f same (e ∷ es) = elim (Option-cases (f e)) [
  | inl absent ↦
      rw absent
        (left_out (λ a r. none-some (sym absent ∙ (same e a).1 r)) (filter_map-Picks R f same es))
  | inr (a, found) ↦ rw found (picked ((same e a).0 found) (filter_map-Picks R f same es))
]

as_str-some : (o : Option Value) (s : String) → (and_then o as_str ≡ some s) ↔ (o ≡ some (text s))
as_str-some none s = (λ h. cc, λ h. cc)
as_str-some (some (text t)) s = (λ h. cc, λ h. cc)
as_str-some (some null) s = (λ h. cc, λ h. cc)
as_str-some (some (boolean b)) s = (λ h. cc, λ h. cc)
as_str-some (some (number n)) s = (λ h. cc, λ h. cc)
as_str-some (some (array vs)) s = (λ h. cc, λ h. cc)
as_str-some (some (object fs)) s = (λ h. cc, λ h. cc)

-- What is read only off events of one kind.
of_kind {ℓ} :
    {A : Type ℓ} (kind expected : String) (o : Option A) (a : A)
    → ((if str_eq kind expected then o else none) ≡ some a) ↔ ((kind ≡ expected) × (o ≡ some a))
of_kind kind expected o a = elim (Bool-cases (str_eq kind expected)) [
  | inl same ↦ rw same (λ h. ((eq_iff kind expected).0 same, h), λ (k, h). h)
  | inr other ↦ rw other (
    λ h. absurd (none-some h),
    λ (k, h). absurd (false-true (sym other ∙ (eq_iff kind expected).1 k)),
  )
]

pub result_error_iff : (e : Event) (s : String) → (result_error e ≡ some s) ↔ IsError e s
result_error_iff e s =
    let (to, from) =
      of_kind e.kind "tool.result" (and_then (get_field e.payload "error") as_str) s in
    let (read, back) = as_str-some (get_field e.payload "error") s in
    (λ h. let (k, q) = to h in (k, read q), λ (k, q). from (k, back q))

both_read :
    (o p : Option String) (name arguments : String)
    → (and_then {B = String × String} o (λ n. and_then {B = String × String} p (λ a. some (n, a)))
        ≡ some (name, arguments))
      ↔ ((o ≡ some name) × (p ≡ some arguments))
both_read none p name arguments = (λ h. cc, λ h. cc)
both_read (some n) none name arguments = (λ h. cc, λ h. cc)
both_read (some n) (some a) name arguments = (λ h. (cc, cc), λ (h, k). cc)

pub proposal_iff :
    (e : Event) (entry : String × String) → (proposal e ≡ some entry) ↔ IsProposal e entry
proposal_iff e (name, arguments) =
    let (to, from) = of_kind e.kind "tool.call.proposed" _ (name, arguments) in
    let (apart, together) =
      both_read (and_then (get_field e.payload "name") as_str)
        (and_then (get_field e.payload "arguments") as_str) name arguments in
    let (read, back) = as_str-some (get_field e.payload "name") name in
    let (read', back') = as_str-some (get_field e.payload "arguments") arguments in
    (
      λ h. let (k, q) = to h in let (n, a) = apart q in (k, read n, read' a),
      λ (k, n, a). from (k, together (back n, back' a)),
    )

pub silent-IsSilent : (e : Event) → silent e ≡ true → IsSilent e
silent-IsSilent e h =
    let is_message : str_eq e.kind Kinds.assistant_message ≡ true = ground arith in
    (
      (eq_iff e.kind Kinds.assistant_message).0 is_message,
      λ v vs calls.
          let mixed : (str_eq e.kind Kinds.assistant_message && false) ≡ true = rw calls at h in
          false-true (ground (arith, mixed, is_message)),
    )
