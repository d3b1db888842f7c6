-- ===== src/Budget/Enforcement.antt =====
-- The ceiling of the token budget, and how often its events are published.
use eventage_rs.Prelude.{
  ℕ, ◌+◌, ◌≤◌, ◌<◌, ◌≡◌, ◌↔◌, refl, ap, ◌∙◌, String, Bool, not, ◌&&◌, inl, inr, List, [], ◌∷◌, ◌++◌,
  cons_some, filter, any, leb, leb→le, arith, Bool-cases, if◌then◌else◌, str_eq, str_eq_refl,
  eq_iff, true, false, ◌%◌, ◌^◌, ◌⊎◌, Option, none, some, and_then, Option-cases, sym, subst,
}
use native.Mathlib.Nat.{mod-eq_of_lt, mod-add-mod, add-mod-mod, le_trans}
use eventage_rs.Event.{Event, EventId, meta}
use eventage_rs.Event.Kinds
use eventage_rs.Runtime.{Runtime}
use eventage_rs.Bus.{Bus, log}
use eventage_rs.Hook.{abort_cycle}
use eventage_rs.Json.{Value, null, boolean, number, text, array, object, as_u64, as_str}
use eventage_rs.Event.MetaKeys
use eventage_rs.Budget
use eventage_rs.Budget.{
  TokenBudgetHook, BudgetScope, in_scope, tokens_of, u64_mod, sum_tokens, used_tokens, decide,
  Decision, before_llm, session, agent, read, is_text,
}

-- The kinds that the hook publishes over a session in which it is called at the given usages.
unfoldable pub publications : ℕ → TokenBudgetHook → List ℕ → List String
publications warn_at h [] = []
publications warn_at h (used ∷ later) =
    let d : Decision = decide warn_at h used in
    cons_some d.publishes (publications warn_at d.hook later)

abbrev pub count : String → List String → ℕ
count s [] = 0
count s (t ∷ ts) = (if str_eq t s then 1 else 0) + count s ts

-- Usages from the warning threshold up to the ceiling.
abbrev pub warns : ℕ → ℕ → ℕ → Bool
warns max warn_at used = leb warn_at used && not (leb max used)

count-exhausted :
    (warn_at : ℕ) (h : TokenBudgetHook) (usages : List ℕ)
    → count Kinds.budget_exhausted (publications warn_at h usages)
      ≡ (if h.exhausted_reported then 0 else if any (leb h.max_tokens) usages then 1 else 0)
unfolding publications decide
count-exhausted warn_at h [] = ground arith
count-exhausted warn_at h (used ∷ later) =
    ground (arith, count-exhausted warn_at (decide warn_at h used).hook later)

count-warning :
    (warn_at : ℕ) (h : TokenBudgetHook) (usages : List ℕ)
    → count Kinds.budget_warning (publications warn_at h usages)
      ≡ (if h.warned then 0 else if any (warns h.max_tokens warn_at) usages then 1 else 0)
unfolding publications decide
count-warning warn_at h [] = ground arith
count-warning warn_at h (used ∷ later) =
    ground (arith, count-warning warn_at (decide warn_at h used).hook later)

-- Over any session of a new hook, whatever the usage does between the calls: the exhausted event
-- is published once if some call finds the budget used up, and never otherwise; the warning once
-- if some call finds the usage from the threshold up to the ceiling, and never otherwise.
pub publications_once :
    (warn_at max : ℕ) (usages : List ℕ)
    → (count Kinds.budget_exhausted (publications warn_at (Budget.new max) usages)
        ≡ (if any (leb max) usages then 1 else 0))
      × (count Kinds.budget_warning (publications warn_at (Budget.new max) usages)
          ≡ (if any (warns max warn_at) usages then 1 else 0))
publications_once warn_at max usages =
    (count-exhausted warn_at (Budget.new max) usages, count-warning warn_at (Budget.new max) usages)

abbrev pub raw_tokens : List Event → ℕ
raw_tokens [] = 0
raw_tokens (e ∷ es) = tokens_of e + raw_tokens es

sum_tokens-eq-raw : (es : List Event) → raw_tokens es < u64_mod → sum_tokens es ≡ raw_tokens es
unfolding sum_tokens
sum_tokens-eq-raw [] h = refl
sum_tokens-eq-raw (e ∷ es) h = rw (sum_tokens-eq-raw es (omega arith)) (mod-eq_of_lt h)

raw_tokens-append : (es ds : List Event) → raw_tokens (es ++ ds) ≡ raw_tokens es + raw_tokens ds
raw_tokens-append [] ds = omega arith
raw_tokens-append (e ∷ es) ds = omega (arith, raw_tokens-append es ds)

filter-append :
    (p : Event → Bool) (es ds : List Event) → filter p (es ++ ds) ≡ filter p es ++ filter p ds
filter-append p [] ds = refl
filter-append p (e ∷ es) ds = ground (arith, filter-append p es ds)

decide-abort :
    (warn_at : ℕ) (h : TokenBudgetHook) (used : ℕ)
    → ((decide warn_at h used).action ≡ abort_cycle) ↔ (h.max_tokens ≤ used)
unfolding decide
decide-abort warn_at h used = elim (Bool-cases (leb h.max_tokens used)) [
  | inl over ↦ rw over (λ _. leb→le _ _ over, λ _. refl)
  | inr under ↦ elim (Bool-cases (leb warn_at used)) [
    | inl near ↦ rw under (rw near (λ q. cc, λ q. absurd (ground arith)))
    | inr far ↦ rw under (rw far (λ q. cc, λ q. absurd (ground arith)))
  ]
]

-- What an event says under a key of its metadata; anything but a `u64` counts as 0.
abbrev pub Says : Event → String → ℕ → Type 0
Says e key n =
    (and_then (meta e key) as_u64 ≡ some n) ⊎ ((and_then (meta e key) as_u64 ≡ none) × (n ≡ 0))

-- A session-wide budget counts every event, an agent's budget those that carry the agent's id.
abbrev pub Counts : BudgetScope → String → Event → Type 0
Counts session agent_id e = Unit
Counts agent agent_id e = meta e "agent_id" ≡ some (text agent_id)

-- The tokens, input and output, of the events that count, as a number without a bound.
pub data Spends (scope : BudgetScope) (agent_id : String) : List Event → ℕ → Type 0 where
  nothing : Spends scope agent_id [] 0
  counted :
      {e : Event} {es : List Event} {input output n : ℕ}
      → Counts scope agent_id e
      → Says e "llm_input_tokens" input
      → Says e "llm_output_tokens" output
      → Spends scope agent_id es n
      → Spends scope agent_id (e ∷ es) (input + output + n)
  passed_over :
      {e : Event} {es : List Event} {n : ℕ}
      → ¬ Counts scope agent_id e
      → Spends scope agent_id es n
      → Spends scope agent_id (e ∷ es) n

read-Says : (e : Event) (key : String) → Says e key (read e key)
read-Says e key = elim (Option-cases (and_then (meta e key) as_u64)) [
  | inl absent ↦ inr (absent, rw absent refl)
  | inr (n, found) ↦ inl (found ∙ rw found refl)
]

is_text_iff :
    (o : Option Value) (s : String) → (is_text (and_then o as_str) s ≡ true) ↔ (o ≡ some (text s))
is_text_iff none s = (λ h. cc, λ h. cc)
is_text_iff (some (text t)) s = (
  λ h. ap (λ u. some (text u)) ((eq_iff t s).0 h),
  λ h. let same : t ≡ s = cc in rw same (str_eq_refl s),
)
is_text_iff (some null) s = (λ h. cc, λ h. cc)
is_text_iff (some (boolean b)) s = (λ h. cc, λ h. cc)
is_text_iff (some (number n)) s = (λ h. cc, λ h. cc)
is_text_iff (some (array vs)) s = (λ h. cc, λ h. cc)
is_text_iff (some (object fs)) s = (λ h. cc, λ h. cc)

in_scope_iff :
    (scope : BudgetScope) (agent_id : String) (e : Event)
    → (in_scope scope agent_id e ≡ true) ↔ Counts scope agent_id e
in_scope_iff session agent_id e = (λ h. tt, λ h. refl)
in_scope_iff agent agent_id e = is_text_iff (meta e MetaKeys.agent_id) agent_id

true-false : true ≡ false → ⊥
true-false h = cc

-- Whatever the log, the events that count have one sum, and the hook's is that sum as a `u64`.
sum-Spends :
    (scope : BudgetScope) (agent_id : String) (es : List Event)
    → (n : ℕ) × Spends scope agent_id es n
      × (sum_tokens (filter (in_scope scope agent_id) es) ≡ n % u64_mod)
unfolding sum_tokens
sum-Spends scope agent_id [] = (0, nothing, refl)
sum-Spends scope agent_id (e ∷ es) =
    let (n, spends, same) = sum-Spends scope agent_id es in
    elim (Bool-cases (in_scope scope agent_id e)) [
      | inl within ↦ (
        read e MetaKeys.llm_input_tokens + read e MetaKeys.llm_output_tokens + n,
        counted ((in_scope_iff scope agent_id e).0 within) (read-Says e MetaKeys.llm_input_tokens)
            (read-Says e MetaKeys.llm_output_tokens) spends,
        rw within rw same (
            mod-add-mod (read e MetaKeys.llm_input_tokens + read e MetaKeys.llm_output_tokens)
              u64_mod (n % u64_mod)
            ∙ add-mod-mod (read e MetaKeys.llm_input_tokens + read e MetaKeys.llm_output_tokens) n
                u64_mod),
      )
      | inr without ↦ (
        n,
        passed_over (λ c. true-false (sym ((in_scope_iff scope agent_id e).1 c) ∙ without)) spends,
        rw without same,
      )
    ]

module _ (rt : Runtime) {M : Type 0} (note : ℕ → ℕ → M) (warn_at : ℕ) (h : TokenBudgetHook)
    (agent_id : String) (b : Bus rt) (messages : List M) (id : EventId) (now : ℕ) where
  pub abort-used :
      ((before_llm rt note warn_at h agent_id b messages id now).0 ≡ abort_cycle)
      ↔ (h.max_tokens ≤ used_tokens h agent_id (log b))
  unfolding before_llm
  abort-used = decide-abort warn_at h (used_tokens h agent_id (log b))

  -- The events of the active log that count for the scope of the hook spend some number of tokens,
  -- input and output together; the hook aborts the cycle exactly when that number modulo 2 ^ 64
  -- reaches the ceiling.
  pub before_llm-abort :
      (n : ℕ) × Spends h.scope agent_id (log b) n
      × (((before_llm rt note warn_at h agent_id b messages id now).0 ≡ abort_cycle)
          ↔ (h.max_tokens ≤ n % 2 ^ 64))
  unfolding used_tokens
  before_llm-abort =
      let (n, spends, same) = sum-Spends h.scope agent_id (log b) in
      (
        n,
        spends,
        subst
            (λ m.
              ((before_llm rt note warn_at h agent_id b messages id now).0 ≡ abort_cycle)
              ↔ (h.max_tokens ≤ m))
            same abort-used,
      )

used_tokens-append :
    (h : TokenBudgetHook) (agent_id : String) (es more : List Event)
    → raw_tokens (filter (in_scope h.scope agent_id) (es ++ more)) < u64_mod
    → used_tokens h agent_id es ≤ used_tokens h agent_id (es ++ more)
unfolding used_tokens
used_tokens-append h agent_id es more fits =
    let p : Event → Bool = in_scope h.scope agent_id in
    let whole : raw_tokens (filter p (es ++ more))
        ≡ raw_tokens (filter p es) + raw_tokens (filter p more) =
      ap raw_tokens (filter-append p es more) ∙ raw_tokens-append (filter p es) (filter p more) in
    rw (sum_tokens-eq-raw (filter p (es ++ more)) fits)
      (rw (sum_tokens-eq-raw (filter p es) (omega (arith, whole))) (omega (arith, whole)))

-- An aborting hook goes on aborting while the log only grows: on every bus whose log extends this
-- one, whatever the hook's flags are by then, if the larger sum still fits a `u64`.
pub before_llm-abort_stays :
    (rt : Runtime) {M : Type 0} (note : ℕ → ℕ → M) (warn_at : ℕ) (h : TokenBudgetHook)
    (warned reported : Bool) (agent_id : String) (b b' : Bus rt) (more : List Event)
    (messages later : List M) (id id' : EventId) (now now' : ℕ)
    → log b' ≡ log b ++ more
    → raw_tokens (filter (in_scope h.scope agent_id) (log b ++ more)) < u64_mod
    → (before_llm rt note warn_at h agent_id b messages id now).0 ≡ abort_cycle
    → (before_llm rt note warn_at
        (record h { warned = warned; exhausted_reported = reported })
        agent_id
        b'
        later
        id'
        now').0
      ≡ abort_cycle
before_llm-abort_stays rt note warn_at h warned reported agent_id b b' more messages later id id'
      now now' grown fits aborted =
    (abort-used rt note warn_at (record h { warned = warned; exhausted_reported = reported })
        agent_id b' later id' now').1
      (rw grown (
        le_trans ((abort-used rt note warn_at h agent_id b messages id now).0 aborted)
          (unfold used_tokens in used_tokens-append h agent_id (log b) more fits)))
