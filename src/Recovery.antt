-- ===== src/Recovery.antt =====
-- src/agent/recovery.rs: tool calls that a restart cut off, and their reconciliation.
-- The registry, a tool's execution and `serde_json::from_str` are arguments; the ids of the events
-- that a pass publishes are drawn in order from `draw`, which the pass starts at 0.
pub mod Reconciled
pub mod Settled
use Prim.Native.String.{◌++◌ as append}
use eventage_rs.Prelude.{
  ℕ, zero, suc, ◌+◌, ◌==◌, String, Bool, true, false, not, ◌&&◌, ◌||◌, Option, none, some, List, [],
  ◌∷◌, ◌++◌, filter, filter_map, find, any, and_then, unwrap_or, is_some, is_empty, if◌then◌else◌,
  str_eq,
}
use eventage_rs.Json.{Value, text, object, field, end, get_field, as_str, nat_value}
use eventage_rs.Event.{Event, EventId}
use eventage_rs.Event
use eventage_rs.Event.Kinds
use eventage_rs.Runtime.{Runtime}
use eventage_rs.Bus.{Bus, log, publish}
use eventage_rs.Glob.{glob_match}

pub data ResumePolicy : Type 0 where
  report_interrupted replay fail : ResumePolicy

pub record ToolRecovery : Type 0 where
  pub rules : List (String × ResumePolicy)
  pub default_policy : ResumePolicy

abbrev pub new : ToolRecovery
new = record { rules = []; default_policy = report_interrupted }

-- The builders `replay`, `report` and `fail` push one rule.
unfoldable pub add_rule : ToolRecovery → String → ResumePolicy → ToolRecovery
add_rule r pattern policy = record r { rules = r.rules ++ (pattern, policy) ∷ [] }

unfoldable pub with_default : ToolRecovery → ResumePolicy → ToolRecovery
with_default r policy = record r { default_policy = policy }

abbrev policy_or : ResumePolicy → Option (String × ResumePolicy) → ResumePolicy
policy_or d none = d
policy_or d (some (pattern, policy)) = policy

unfoldable pub policy_for : ToolRecovery → String → ResumePolicy
policy_for r tool = policy_or r.default_policy (find (λ q. glob_match (q.0) tool) r.rules)

pub record OrphanedCall : Type 0 where
  pub tool_call_id : String
  pub name : String
  pub arguments : String

abbrev pub str_field : Event → String → Option String
str_field e key = and_then (get_field e.payload key) as_str

-- The ids that some `tool.result` answers.
abbrev pub answered_id : Event → Option String
answered_id e = if str_eq e.kind Kinds.tool_result then str_field e "tool_call_id" else none

abbrev pub has_text : List String → String → Bool
has_text [] s = false
has_text (t ∷ ts) s = str_eq t s || has_text ts s

abbrev pub answered : List Event → List String
answered events = filter_map answered_id events

abbrev pub call_of : Event → String → OrphanedCall
call_of e id = record {
  tool_call_id = id;
  name = unwrap_or (str_field e "name") "";
  arguments = unwrap_or (str_field e "arguments") "{}";
}

abbrev pub unanswered : List String → Event → String → Option OrphanedCall
unanswered ids e id = if has_text ids id then none else some (call_of e id)

abbrev pub orphan_of : List String → Event → Option OrphanedCall
orphan_of ids e =
    if str_eq e.kind Kinds.tool_call_proposed
    then and_then (str_field e "tool_call_id") (unanswered ids e)
    else none

unfoldable pub find_orphaned_tool_calls : List Event → List OrphanedCall
find_orphaned_tool_calls events = filter_map (orphan_of (answered events)) events

pub record RecoveryReport : Type 0 where
  pub replayed : ℕ
  pub reported : ℕ

abbrev pub no_report : RecoveryReport
no_report = record { replayed = 0; reported = 0 }

unfoldable pub total : RecoveryReport → ℕ
total r = r.replayed + r.reported

unfoldable pub report_is_empty : RecoveryReport → Bool
unfolding total
report_is_empty r = total r == 0

pub data Outcome : Type 0 where
  success : Value → Outcome
  failure : String → Outcome

abbrev pub Tool : Type 0
Tool = Value → Outcome

pub data Recovered : Type 0 where
  recovered : RecoveryReport → Recovered
  refused : OrphanedCall → Recovered

-- `executed` records the tool executions of the pass, in order.
pub record Pass (S : Type 0) : Type 0 where
  pub bus : S
  pub report : RecoveryReport
  pub executed : List OrphanedCall

abbrev pub result_payload : OrphanedCall → String → Value → String → Value
result_payload c key v how = object (
    field "tool_call_id" (text c.tool_call_id)
      (field "name" (text c.name) (field key v (field "recovered" (text how) end))))

abbrev pub replay_payload : OrphanedCall → Outcome → Value
replay_payload c (success v) = result_payload c "result" v "replayed"
replay_payload c (failure message) = result_payload c "error" (text message) "replayed"

abbrev pub interrupted_text : String → String
interrupted_text name = append "tool '" (
    append name
      "' was interrupted by a restart; it is UNKNOWN whether it took effect. Verify the current state before retrying.")

abbrev pub interrupted_payload : OrphanedCall → Value
interrupted_payload c = result_payload c "error" (text (interrupted_text c.name)) "interrupted"

module _ (rt : Runtime) (parse_json : String → Option Value) (draw : ℕ → EventId) (now : ℕ) where
  abbrev pub result_event : ℕ → Value → Event
  result_event k payload = Event.new (draw k) now Kinds.tool_result payload

  -- The tool that a replay runs: only under that policy, and only if it is registered.
  unfoldable pub replay_tool :
      ToolRecovery → Option (String → Option Tool) → OrphanedCall → Option Tool
  replay_tool policy registry c = elim (policy_for policy c.name) [
    | replay ↦ and_then registry (λ get. get c.name)
    | _ ↦ none
  ]

  abbrev arguments_of : OrphanedCall → Value
  arguments_of c = unwrap_or (parse_json c.arguments) (object end)

  abbrev answer : ℕ → OrphanedCall → Option Tool → Pass (Bus rt) → Pass (Bus rt)
  answer k c none p = record p {
    bus = publish rt p.bus (result_event k (interrupted_payload c));
    report = record p.report { reported = p.report.reported + 1 };
  }
  answer k c (some tool) p = record {
    bus = publish rt p.bus (result_event k (replay_payload c (tool (arguments_of c))));
    report = record p.report { replayed = p.report.replayed + 1 };
    executed = p.executed ++ c ∷ [];
  }

  module _ (policy : ToolRecovery) (registry : Option (String → Option Tool)) where
    -- The loop over the orphans; it stops at the first one whose policy is `fail`.
    unfoldable pub reconcile_all : ℕ → List OrphanedCall → Pass (Bus rt) → Recovered × Pass (Bus rt)
    reconcile_all k [] p = (
      recovered p.report,
      record p {
        bus = publish rt p.bus (
            Event.new (draw k) now Kinds.system_recovered (
              object (
                field "interrupted_tool_calls" (nat_value (total p.report)) (
                  field "replayed" (nat_value p.report.replayed)
                    (field "reported" (nat_value p.report.reported) end)))));
      },
    )
    reconcile_all k (c ∷ cs) p = elim (policy_for policy c.name) [
      | fail ↦ (refused c, p)
      | _ ↦ reconcile_all (suc k) cs (answer k c (replay_tool policy registry c) p)
    ]

    unfoldable pub reconcile_interrupted_tools : Bus rt → Recovered × Pass (Bus rt)
    reconcile_interrupted_tools b = elim (find_orphaned_tool_calls (log b)) [
      | [] ↦ (recovered no_report, record { bus = b; report = no_report; executed = [] })
      | c ∷ cs ↦ reconcile_all 0 (c ∷ cs) (record { bus = b; report = no_report; executed = [] })
    ]
