-- ===== src/Context/Repair.antt =====
-- The repair of a history (src/agent/context.rs, `repair_tool_results`).
use mathlib.Core.List.{append_assoc}
use eventage_rs.Prelude.{
  ◌≡◌, refl, ap, ap₂, sym, ◌∙◌, String, true, false, not, ◌&&◌, ◌||◌, Option, none, some, cons_some,
  inl, inr, List, [], ◌∷◌, ◌++◌, filter_map-append, any, is_empty, All, arith, Bool-cases,
  if◌then◌else◌, str_eq, str_eq_refl, eq_iff,
}
use eventage_rs.Message.{ToolCall, ChatMessage}
use eventage_rs.Context.{
  has_text, answered_ids, answered_by, calls_of, synthetic, inject, repair_tool_results,
}

-- The ids that the assistant messages of a list call, in order.
abbrev pub call_ids : List ToolCall → List String
call_ids [] = []
call_ids (tc ∷ calls) = tc.id ∷ call_ids calls

abbrev pub called_ids : List ChatMessage → List String
called_ids [] = []
called_ids (m ∷ messages) = call_ids (calls_of m) ++ called_ids messages

-- The ids of a list that another list lacks, in order.
abbrev pub missing : List String → List String → List String
missing answered [] = []
missing answered (i ∷ is) =
    let rest = missing answered is in if has_text answered i then rest else i ∷ rest

pub has_text-append :
    (xs ys : List String) (s : String) → has_text (xs ++ ys) s ≡ (has_text xs s || has_text ys s)
has_text-append [] ys s = refl
has_text-append (x ∷ xs) ys s = ground (arith, has_text-append xs ys s)

pub called_ids-append :
    (xs ys : List ChatMessage) → called_ids (xs ++ ys) ≡ called_ids xs ++ called_ids ys
called_ids-append [] ys = refl
called_ids-append (m ∷ xs) ys =
    ap (◌++◌ (call_ids (calls_of m))) (called_ids-append xs ys)
    ∙ sym (append_assoc (call_ids (calls_of m)) (called_ids xs) (called_ids ys))

-- Synthetic results call nothing, and answer what was missing.
called_ids-synthetic :
    (ids : List String) (calls : List ToolCall) → called_ids (synthetic ids calls) ≡ []
unfolding synthetic
called_ids-synthetic ids [] = refl
called_ids-synthetic ids (tc ∷ calls) = elim (Bool-cases (has_text ids tc.id)) [
  | inl old ↦ rw old (called_ids-synthetic ids calls)
  | inr new ↦ rw new (called_ids-synthetic ids calls)
]

answered_ids-synthetic :
    (ids : List String) (calls : List ToolCall)
    → answered_ids (synthetic ids calls) ≡ missing ids (call_ids calls)
unfolding synthetic
answered_ids-synthetic ids [] = refl
answered_ids-synthetic ids (tc ∷ calls) = elim (Bool-cases (has_text ids tc.id)) [
  | inl old ↦ rw old (answered_ids-synthetic ids calls)
  | inr new ↦ rw new (ap (◌∷◌ tc.id) (answered_ids-synthetic ids calls))
]

called_ids-inject :
    (ids : List String) (ms : List ChatMessage) → called_ids (inject ids ms) ≡ called_ids ms
unfolding inject
called_ids-inject ids [] = refl
called_ids-inject ids (m ∷ ms) = ap (◌++◌ (call_ids (calls_of m))) (
    called_ids-append (synthetic ids (calls_of m)) (inject ids ms)
    ∙ rw (called_ids-synthetic ids (calls_of m)) (called_ids-inject ids ms))

-- A history whose calls are all among the ids gets nothing injected.
pub synthetic-nil :
    (ids : List String) (calls : List ToolCall)
    → All (λ i. has_text ids i ≡ true) (call_ids calls)
    → synthetic ids calls ≡ []
unfolding synthetic
synthetic-nil ids [] h = refl
synthetic-nil ids (tc ∷ calls) h = rw (h.0) (synthetic-nil ids calls h.1)

pub All-append_right {ℓ κ} :
    {A : Type ℓ} (P : A → Type κ) (xs ys : List A) → All P (xs ++ ys) → All P ys
All-append_right P [] ys h = h
All-append_right P (x ∷ xs) ys h = All-append_right P xs ys h.1

pub All-append_front {ℓ κ} :
    {A : Type ℓ} (P : A → Type κ) (xs ys : List A) → All P (xs ++ ys) → All P xs
All-append_front P [] ys h = tt
All-append_front P (x ∷ xs) ys h = (h.0, All-append_front P xs ys h.1)

pub inject_same :
    (ids : List String) (ms : List ChatMessage)
    → All (λ i. has_text ids i ≡ true) (called_ids ms)
    → inject ids ms ≡ ms
unfolding inject
inject_same ids [] h = refl
inject_same ids (m ∷ ms) h =
    rw
      (synthetic-nil ids (calls_of m)
        (All-append_front _ (call_ids (calls_of m)) (called_ids ms) h))
      (ap (◌∷◌ m)
        (inject_same ids ms (All-append_right _ (call_ids (calls_of m)) (called_ids ms) h)))

empty-nil {ℓ} : {A : Type ℓ} → (xs : List A) → is_empty xs ≡ true → xs ≡ []
empty-nil [] h = refl
empty-nil (x ∷ xs) h = cc

-- Where no assistant message calls anything, injecting changes nothing; so the fast path of the
-- repair agrees with the slow one.
quiet-inject :
    (ids : List String) (ms : List ChatMessage)
    → any (λ m. not (is_empty (calls_of m))) ms ≡ false
    → inject ids ms ≡ ms
unfolding inject synthetic
quiet-inject ids [] h = refl
quiet-inject ids (m ∷ ms) h =
    let nothing : calls_of m ≡ [] = empty-nil (calls_of m) (ground arith) in
    ap (◌∷◌ m) (ap₂ ◌++◌ (ap (synthetic ids) nothing) (quiet-inject ids ms (ground arith)))

pub repair-inject : (ms : List ChatMessage) → repair_tool_results ms ≡ inject (answered_ids ms) ms
unfolding repair_tool_results
repair-inject ms = elim (Bool-cases (any (λ m. not (is_empty (calls_of m))) ms)) [
  | inl some_calls ↦ rw some_calls refl
  | inr no_calls ↦ rw no_calls (sym (quiet-inject (answered_ids ms) ms no_calls))
]

has_text-cons_some :
    (o : Option String) (xs : List String) (s : String)
    → has_text (cons_some o xs) s ≡ (has_text (cons_some o []) s || has_text xs s)
has_text-cons_some none xs s = refl
has_text-cons_some (some t) xs s = ground arith

missing-append :
    (ids xs ys : List String) → missing ids (xs ++ ys) ≡ missing ids xs ++ missing ids ys
missing-append ids [] ys = refl
missing-append ids (x ∷ xs) ys = ground (arith, missing-append ids xs ys)

has_text-missing :
    (ids xs : List String) (s : String)
    → has_text (missing ids xs) s ≡ (has_text xs s && not (has_text ids s))
has_text-missing ids [] s = refl
has_text-missing ids (x ∷ xs) s = elim (Bool-cases (str_eq x s)) [
  | inr other ↦ ground (arith, has_text-missing ids xs s, other)
  | inl same ↦
      let e : x ≡ s = (eq_iff x s).0 same in
      ground (arith, has_text-missing ids xs s, same, ap (has_text ids) e)
]

answered-inject :
    (ids : List String) (ms : List ChatMessage) (s : String)
    → has_text (answered_ids (inject ids ms)) s
      ≡ (has_text (answered_ids ms) s || has_text (missing ids (called_ids ms)) s)
unfolding inject
answered-inject ids [] s = refl
answered-inject ids (m ∷ ms) s =
    rw (filter_map-append answered_by (synthetic ids (calls_of m)) (inject ids ms)) (
      rw (answered_ids-synthetic ids (calls_of m)) (
        rw (missing-append ids (call_ids (calls_of m)) (called_ids ms)) (
          ground (
            arith,
            has_text-cons_some (answered_by m)
                (missing ids (call_ids (calls_of m)) ++ answered_ids (inject ids ms)) s,
            has_text-cons_some (answered_by m) (answered_ids ms) s,
            has_text-append (missing ids (call_ids (calls_of m))) (answered_ids (inject ids ms)) s,
            has_text-append (missing ids (call_ids (calls_of m))) (missing ids (called_ids ms)) s,
            answered-inject ids ms s,
          ))))

All-has_text :
    (P : String → Type 0) (xs : List String)
    → ((s : String) → has_text xs s ≡ true → P s)
    → All P xs
All-has_text P [] f = tt
All-has_text P (x ∷ xs) f =
    (f x (rw (str_eq_refl x) refl), All-has_text P xs (λ s h. f s (ground arith)))

-- Every history, however damaged: after the repair the calls are the same, in order; a call id is
-- answered exactly if it was answered before or is called, so every call is answered; and a second
-- repair changes nothing.
pub repair_tool_results_complete :
    (ms : List ChatMessage)
    → (called_ids (repair_tool_results ms) ≡ called_ids ms)
      × ((s : String)
          → has_text (answered_ids (repair_tool_results ms)) s
            ≡ (has_text (answered_ids ms) s || has_text (called_ids ms) s))
      × (repair_tool_results (repair_tool_results ms) ≡ repair_tool_results ms)
repair_tool_results_complete ms = (same_calls, answers, again)
  where
    same_calls : called_ids (repair_tool_results ms) ≡ called_ids ms
    same_calls = rw (repair-inject ms) (called_ids-inject (answered_ids ms) ms)

    answers :
        (s : String)
        → has_text (answered_ids (repair_tool_results ms)) s
          ≡ (has_text (answered_ids ms) s || has_text (called_ids ms) s)
    answers s = rw (repair-inject ms) (
        ground (
          arith,
          answered-inject (answered_ids ms) ms s,
          has_text-missing (answered_ids ms) (called_ids ms) s,
        ))

    again : repair_tool_results (repair_tool_results ms) ≡ repair_tool_results ms
    again =
        repair-inject (repair_tool_results ms)
        ∙ inject_same (answered_ids (repair_tool_results ms)) (repair_tool_results ms)
            (rw same_calls (All-has_text _ (called_ids ms) (λ s h. ground (arith, answers s))))
