-- ===== src/Strategy/ToolCalls.antt =====
-- src/agent/strategy.rs, `execute_tools`: the three phases of a batch of tool calls. The tasks of
-- the second phase end in the order `order`; the limit on concurrent tasks only bounds which orders
-- occur, and the model allows every order.
pub mod Tickets
pub mod Naming
pub mod Answered
pub mod Cleared
use Prim.Native.String.{◌++◌ as append_text}
use eventage_rs.Prelude.{
  ℕ, zero, suc, ◌/◌, String, Bool, true, false, not, ◌&&◌, ◌||◌, ◌==◌, Option, none, some, List, [],
  ◌∷◌, ◌++◌, map, filter, and_then, unwrap_or, ltb, is_some, get_elem?, if◌then◌else◌,
}
use eventage_rs.Json.{Value, null, boolean, text, object, field, end, get_field}
use eventage_rs.Event.{Event, EventId, with_parent}
use eventage_rs.Event.Kinds
use eventage_rs.Runtime.{Runtime}
use eventage_rs.Hook.{HookAction, Reason, proceed, skip, deny, abort_cycle}
use eventage_rs.HookChain.{CycleHook}
use eventage_rs.Message.{ToolCall, ChatMessage}
use eventage_rs.Recovery.{Outcome, success, failure}
use eventage_rs.Schema
use eventage_rs.Truncate.{Parsed, parsed, malformed, Texts, cap_result_value}
use eventage_rs.Strategy.{
  TaskEnd, took, panicked, Tool, ToolRegistry, get_tool, ToolExecOptions, World, event, emit,
}

pub data Veto : Type 0 where
  skipped aborted : Veto
  denied : Reason → Veto
  bad_args : String → Veto

pub record ToolPlan : Type 0 where
  pub id : String
  pub name : String
  pub args : Value
  pub veto : Option Veto
  pub is_terminal : Bool
  pub proposed_event_id : EventId

pub record ToolExecOutcome : Type 0 where
  pub had_terminal : Bool
  pub was_aborted : Bool

abbrev pub is_aborted : Option Veto → Bool
is_aborted none = false
is_aborted (some aborted) = true
is_aborted (some skipped) = false
is_aborted (some (denied reason)) = false
is_aborted (some (bad_args error)) = false

abbrev pub veto_of_action : HookAction → Option Veto
veto_of_action proceed = none
veto_of_action skip = some skipped
veto_of_action abort_cycle = some aborted
veto_of_action (deny reason) = some (denied reason)

-- Once a hook has aborted, a call without a veto is vetoed too.
abbrev pub after_abort : Bool → Option Veto → Option Veto
after_abort true none = some aborted
after_abort false none = none
after_abort _ (some veto) = some veto

abbrev pub named_payload : String → String → String → Value → Value
named_payload id name key value =
    object (field "tool_call_id" (text id) (field "name" (text name) (field key value end)))

abbrev pub proposal_payload : ToolCall → Value
proposal_payload tc = named_payload tc.id tc.function.name "arguments" (text tc.function.arguments)

-- `HashMap<usize, Value>` as a function.
abbrev pub ResultMap : Type 0
ResultMap = ℕ → Option Value

abbrev pub insert_result : ℕ → Value → ResultMap → ResultMap
insert_result i v m j = if j == i then some v else m j

-- A task that panicked is skipped.
abbrev pub keep_result : ℕ → Option Value → ResultMap → ResultMap
keep_result i none m = m
keep_result i (some v) m = insert_result i v m

abbrev pub remove_result : ℕ → ResultMap → ResultMap
remove_result i m j = if j == i then none else m j

-- Only a plan without a veto takes its result out of the map.
abbrev pub take_result : Option Veto → ℕ → ResultMap → ResultMap
take_result none i m = remove_result i m
take_result (some veto) i m = m

module _ (texts : Texts) (reason_text : Reason → String) where
  -- The payload of a vetoed plan.
  unfoldable pub veto_payload : ToolPlan → Veto → Value
  veto_payload p skipped =
      named_payload p.id p.name "result"
        (object (field "skipped" (boolean true) (field "reason" (text "vetoed by hook") end)))
  veto_payload p aborted = named_payload p.id p.name "result" (
      object (
        field "skipped" (boolean true)
          (field "aborted" (boolean true) (field "reason" (text "cycle aborted by hook") end))))
  veto_payload p (denied reason) =
      named_payload p.id p.name "result"
        (object (field "denied" (boolean true) (field "reason" (text (reason_text reason)) end)))
  veto_payload p (bad_args error) = named_payload p.id p.name "error" (text error)

  -- `timeout(limit, exec)`: the outcome, unless the tool runs past the limit.
  unfoldable pub within : Option ℕ → String → ℕ → Outcome → Outcome
  within none name elapsed outcome = outcome
  within (some limit) name elapsed outcome =
      if ltb limit elapsed
      then failure (
          append_text "tool '" (
            append_text name
              (append_text "' timed out after " (append_text (texts.print (limit / 1000)) "s"))))
      else outcome

  unfoldable pub outcome_payload : ToolExecOptions → ToolPlan → Outcome → Value
  outcome_payload opts p (failure message) = named_payload p.id p.name "error" (text message)
  outcome_payload opts p (success r) =
      let capped : Value = cap_result_value texts r opts.max_result_chars in
      if texts.same capped r
      then named_payload p.id p.name "result" r
      else object (
          field "tool_call_id" (text p.id)
            (field "name" (text p.name) (field "result" r (field "result_for_context" capped end))))

  -- What the end of the task of a plan leaves; a panic leaves nothing.
  abbrev pub ended_payload : ToolExecOptions → ToolPlan → TaskEnd → Option Value
  ended_payload opts p panicked = none
  ended_payload opts p (took elapsed outcome) =
      some (outcome_payload opts p (within opts.timeout p.name elapsed outcome))

  abbrev pub unregistered_payload : ToolPlan → Value
  unregistered_payload p =
      named_payload p.id p.name "error"
        (text (append_text "tool '" (append_text p.name "' not registered")))

  unfoldable pub result_payload : ToolPlan → Option Value → Value
  unfolding veto_payload
  result_payload p joined = elim p.veto [
    | some veto ↦ veto_payload p veto
    | none ↦
        unwrap_or joined (
          named_payload p.id p.name "error" (text "tool execution panicked and produced no result"))
  ]

module _ {H : Type 0} (texts : Texts) (reason_text : Reason → String) (opts : ToolExecOptions)
    (tools : ToolRegistry H) where
  -- The payload with which the task of a plan ends, and the shared state then.
  unfoldable pub task_payload : ToolPlan → H → Option Value × H
  task_payload p shared = elim (get_tool tools p.name) [
    | none ↦ (some (unregistered_payload texts reason_text p), shared)
    | some tool ↦
        let (end_of_task, shared') = tool.execute p.args shared in
        (ended_payload texts reason_text opts p end_of_task, shared')
  ]

  abbrev pub spawned : ToolPlan → Bool
  spawned p = not (is_some p.veto)

  -- One finished task: only the plans without a veto have one.
  abbrev pub finish_task : ℕ → Option ToolPlan → ResultMap × H → ResultMap × H
  finish_task i none (m, shared) = (m, shared)
  finish_task i (some p) (m, shared) =
      let (payload, shared') = task_payload p shared in
      if spawned p then (keep_result i payload m, shared') else (m, shared)

  -- The tasks in the order in which they end; a task acts on the state that the earlier ones left.
  unfoldable pub join_all : List ToolPlan → List ℕ → ResultMap × H → ResultMap × H
  join_all plan [] s = s
  join_all plan (i ∷ order) s = join_all plan order (finish_task i (get_elem? plan i) s)

module _ (rt : Runtime) (H : Type 0) (draw : ℕ → EventId) (now : ℕ) (agent_id trace_id : String)
    (texts : Texts) (reason_text : Reason → String) (hooks : CycleHook (World rt H) ChatMessage)
    (opts : ToolExecOptions) (tools : ToolRegistry H) where
  -- The schema violation of arguments that parsed, if the tool is known and validation is on.
  unfoldable pub schema_veto : String → Value → Option Veto
  schema_veto name args =
      if opts.validate_args
      then (elim (get_tool tools name) [
        | none ↦ none
        | some tool ↦
            elim (Schema.validate_args texts.render texts.print texts.same tool.parameters args) [
              | none ↦ none
              | some e ↦
                  some (bad_args (append_text e ". Re-issue the call with corrected arguments."))
            ]
      ])
      else none

  -- The arguments of a call, and the veto that they give by themselves.
  unfoldable pub parse_args : ToolCall → Value × Option Veto
  unfolding schema_veto
  parse_args tc = elim (texts.parse_json tc.function.arguments) [
    | parsed v ↦ (v, schema_veto tc.function.name v)
    | malformed e ↦ (
      null,
      some (
          bad_args (
            append_text "invalid JSON in tool arguments: "
              (append_text e ". Re-issue the call with arguments as a single valid JSON object."))),
    )
  ]

  -- The hooks are asked only about a call that has no veto yet.
  unfoldable pub ask_hooks : String → Value → Option Veto → World rt H → Option Veto × World rt H
  ask_hooks name args (some veto) w = (some veto, w)
  ask_hooks name args none w =
      let (action, w') = hooks.before_tool name args w in (veto_of_action action, w')

  unfoldable pub propose : ToolCall → World rt H → World rt H
  propose tc w = emit rt H draw now agent_id trace_id w (λ id.
      event rt H draw now agent_id trace_id id Kinds.tool_call_proposed (proposal_payload tc))

  abbrev plan_of : ToolCall → EventId → Value → Option Veto → ToolPlan
  plan_of tc proposed_event_id args veto = record {
    id = tc.id;
    name = tc.function.name;
    args = args;
    veto = veto;
    is_terminal = elim veto [
      | some v ↦ false
      | none ↦ elim (get_tool tools tc.function.name) [ none ↦ false | some t ↦ t.is_terminal ]
    ];
    proposed_event_id = proposed_event_id;
  }

  -- One call of the first phase, with what has been aborted before.
  unfoldable pub plan_call : ToolCall → Bool → World rt H → ToolPlan × World rt H
  plan_call tc stopped w =
      let (args, early) = parse_args tc in
      let (veto, w') = ask_hooks tc.function.name args early (propose tc w) in
      (plan_of tc (draw w.drawn) args (after_abort stopped veto), w')

  unfoldable pub plan_calls : List ToolCall → Bool → World rt H → List ToolPlan × Bool × World rt H
  plan_calls [] stopped w = ([], stopped, w)
  plan_calls (tc ∷ calls) stopped w =
      let (p, w1) = plan_call tc stopped w in
      let (plan, stopped', w2) = plan_calls calls (stopped || is_aborted p.veto) w1 in
      (p ∷ plan, stopped', w2)

  abbrev pub result_value : Value → Value
  result_value payload = unwrap_or (get_field payload "result") payload

  unfoldable pub publish_result : ToolPlan → Value → World rt H → World rt H
  publish_result p payload w =
      emit rt H draw now agent_id trace_id (hooks.after_tool p.name (result_value payload) w) (λ id.
        with_parent (event rt H draw now agent_id trace_id id Kinds.tool_result payload)
          p.proposed_event_id)

  -- The third phase, from the plan with index `i`.
  unfoldable pub publish_results : List ToolPlan → ℕ → ResultMap → World rt H → Bool × World rt H
  publish_results [] i m w = (false, w)
  publish_results (p ∷ plan) i m w =
      let payload : Value = result_payload texts reason_text p (m i) in
      let m' : ResultMap = take_result p.veto i m in
      let (had_terminal, w') = publish_results plan (suc i) m' (publish_result p payload w) in
      (p.is_terminal || had_terminal, w')

  unfoldable pub execute_tools : List ToolCall → List ℕ → World rt H → ToolExecOutcome × World rt H
  execute_tools calls order w =
      let (plan, stopped, w1) = plan_calls calls false w in
      let (joined, shared) =
        join_all texts reason_text opts tools plan order (λ i. none, w1.shared) in
      let (had_terminal, w2) = publish_results plan 0 joined (record w1 { shared = shared }) in
      (record { had_terminal = had_terminal; was_aborted = stopped }, w2)
