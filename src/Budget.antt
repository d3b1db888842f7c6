-- ===== src/Budget.antt =====
-- src/agent/budget.rs: the token budget read off the event log. A `u64` sum wraps around, as in a
-- release build. `warn_at` is `(max_tokens as f64 * warn_fraction) as u64`, and `note` builds the
-- message for the model; both are arguments.
pub mod Enforcement
use eventage_rs.Prelude.{
  ℕ, ◌+◌, ◌%◌, ◌^◌, String, Bool, true, false, Option, none, some, List, [], ◌∷◌, ◌++◌, filter,
  and_then, unwrap_or, leb, if◌then◌else◌, str_eq,
}
use eventage_rs.Json.{Value, object, field, end, as_str, as_u64, nat_value}
use eventage_rs.Event.{Event, EventId, meta}
use eventage_rs.Event
use eventage_rs.Event.Kinds
use eventage_rs.Event.MetaKeys
use eventage_rs.Runtime.{Runtime}
use eventage_rs.Bus.{Bus, log, publish}
use eventage_rs.Hook.{HookAction, proceed, abort_cycle}

pub data BudgetScope : Type 0 where
  session agent : BudgetScope

pub record TokenBudgetHook : Type 0 where
  pub max_tokens : ℕ
  pub scope : BudgetScope
  pub warned : Bool
  pub exhausted_reported : Bool

abbrev pub new : ℕ → TokenBudgetHook
new max = record { max_tokens = max; scope = session; warned = false; exhausted_reported = false }

unfoldable pub agent_scoped : TokenBudgetHook → TokenBudgetHook
agent_scoped h = record h { scope = agent }

abbrev pub is_text : Option String → String → Bool
is_text none s = false
is_text (some t) s = str_eq t s

-- Whether an event counts for the scope of the hook.
abbrev pub in_scope : BudgetScope → String → Event → Bool
in_scope session agent_id e = true
in_scope agent agent_id e = is_text (and_then (meta e MetaKeys.agent_id) as_str) agent_id

abbrev pub u64_mod : ℕ
u64_mod = 0x1_0000_0000_0000_0000

abbrev pub read : Event → String → ℕ
read e key = unwrap_or (and_then (meta e key) as_u64) 0

abbrev pub tokens_of : Event → ℕ
tokens_of e = (read e MetaKeys.llm_input_tokens + read e MetaKeys.llm_output_tokens) % u64_mod

unfoldable pub sum_tokens : List Event → ℕ
sum_tokens [] = 0
sum_tokens (e ∷ es) = (tokens_of e + sum_tokens es) % u64_mod

unfoldable pub used_tokens : TokenBudgetHook → String → List Event → ℕ
used_tokens h agent_id events = sum_tokens (filter (in_scope h.scope agent_id) events)

-- What one call of the hook decides: its verdict, whether it adds the note, and the kind of the
-- event that it publishes, with the hook's flags afterwards.
pub record Decision : Type 0 where
  pub action : HookAction
  pub adds_note : Bool
  pub publishes : Option String
  pub hook : TokenBudgetHook

unfoldable pub decide : ℕ → TokenBudgetHook → ℕ → Decision
decide warn_at h used =
    if leb h.max_tokens used
    then record {
      action = abort_cycle;
      adds_note = false;
      publishes = if h.exhausted_reported then none else some Kinds.budget_exhausted;
      hook = record h { exhausted_reported = true };
    }
    else if leb warn_at used
    then record {
      action = proceed;
      adds_note = true;
      publishes = if h.warned then none else some Kinds.budget_warning;
      hook = record h { warned = true };
    }
    else record { action = proceed; adds_note = false; publishes = none; hook = h }

abbrev pub budget_payload : ℕ → ℕ → Value
budget_payload used max =
    object (field "used_tokens" (nat_value used) (field "max_tokens" (nat_value max) end))

module _ (rt : Runtime) where
  publish_kind : Option String → Bus rt → EventId → ℕ → Value → Bus rt
  publish_kind none b id now payload = b
  publish_kind (some kind) b id now payload = publish rt b (Event.new id now kind payload)

  -- The verdict, the messages, the hook and the bus after one call.
  unfoldable pub before_llm :
      {M : Type 0}
      → (ℕ → ℕ → M)
      → ℕ
      → TokenBudgetHook
      → String
      → Bus rt
      → List M
      → EventId
      → ℕ
      → HookAction × List M × TokenBudgetHook × Bus rt
  unfolding publish_kind
  before_llm note warn_at h agent_id b messages id now =
      let used : ℕ = used_tokens h agent_id (log b) in
      let d : Decision = decide warn_at h used in
      (
        d.action,
        if d.adds_note then messages ++ note used h.max_tokens ∷ [] else messages,
        d.hook,
        publish_kind d.publishes b id now (budget_payload used h.max_tokens),
      )
