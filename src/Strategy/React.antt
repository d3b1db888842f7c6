-- ===== src/Strategy/React.antt =====
-- src/agent/strategy.rs: the call of the provider, its answer in the log, one ReAct step, the loop of
-- `ReactStrategy` with its wrap-up, and `SingleShotStrategy`. The provider, the assembler, the tool
-- selector and the order in which a step's tasks end are arguments.
pub mod Growth
pub mod Balance
pub mod Running
pub mod Logged
pub mod Settled
use eventage_rs.Prelude.{
  ℕ, zero, suc, String, Bool, true, false, not, ◌||◌, Option, none, some, List, [], ◌∷◌, ◌++◌, map,
  unwrap_or, is_empty, if◌then◌else◌, str_eq,
}
use eventage_rs.Json.{Value, null, text, object, Fields, field, end, nat_value, list_value}
use eventage_rs.Event.{Event, EventId, with_meta}
use eventage_rs.Event
use eventage_rs.Event.Kinds
use eventage_rs.Event.MetaKeys
use eventage_rs.Runtime.{Runtime}
use eventage_rs.Hook.{HookAction, Reason, proceed, skip, deny, abort_cycle}
use eventage_rs.HookChain.{CycleHook}
use eventage_rs.Message.{ToolCall, ChatMessage, user_message, with_name, LlmResponse}
use eventage_rs.Bus.{BusError, log, broadcast}
use eventage_rs.Truncate.{Texts}
use eventage_rs.Tokens.{messages_token_count}
use eventage_rs.Strategy.{
  Tool, ToolRegistry, definitions, ToolExecOptions, default_options, World, event, emit,
  recent_rejected_branches,
}
use eventage_rs.Strategy.ToolCalls.{ToolExecOutcome, execute_tools}

-- An error of the bus, of the provider and of `serde_json`, the latter two by their texts; the text
-- of a tool; and a time limit in seconds.
pub data AgentError : Type 0 where
  bus : BusError → AgentError
  llm : String → AgentError
  tool : String → AgentError
  serde : String → AgentError
  max_steps_reached : ℕ → AgentError
  tool_timeout : String → ℕ → AgentError

pub data Result (A : Type 0) : Type 0 where
  ok : A → Result A
  err : AgentError → Result A

-- One delta of a streamed completion.
pub record Delta : Type 0 where
  pub content : Option String
  pub reasoning_content : Option String

-- `LlmProvider`, on the state that it shares with the rest; its errors are as `?` converts them.
pub record LlmProvider (H : Type 0) : Type 0 where
  pub complete : List ChatMessage → List (Tool H) → H → Result LlmResponse × H
  pub complete_stream : List ChatMessage → List (Tool H) → H → Result LlmResponse × List Delta × H

pub data StepOutcome : Type 0 where
  done go_on : StepOutcome

pub record ReactStrategy : Type 0 where
  pub max_steps : ℕ
  pub max_concurrent_tools : ℕ
  pub tool_timeout : Option ℕ
  pub max_tool_result_chars : Option ℕ
  pub finalize_on_max_steps : Bool
  pub stream : Bool

abbrev pub default_strategy : ReactStrategy
default_strategy = record {
  max_steps = 20;
  max_concurrent_tools = 4;
  tool_timeout = some 300_000;
  max_tool_result_chars = some 30_000;
  finalize_on_max_steps = true;
  stream = false;
}

-- `payload[key] = value`.
abbrev pub set_field : String → Value → Fields → Fields
set_field key value end = field key value end
set_field key value (field k v fs) =
    let rest = set_field key value fs in if str_eq k key then field k value fs else field k v rest

abbrev pub set_some : String → Option Value → Fields → Fields
set_some key none fs = fs
set_some key (some value) fs = set_field key value fs

unfoldable pub tool_call_to_json : ToolCall → Value
tool_call_to_json tc = object (
    set_some "extra_content" tc.extra_content (
      field "id" (text tc.id) (
        field "type" (text tc.kind) (
          field "function"
            (object (
              field "name" (text tc.function.name)
                (field "arguments" (text tc.function.arguments) end)))
            end))))

abbrev pub text_or_null : Option String → Value
text_or_null none = null
text_or_null (some t) = text t

abbrev pub text_value : Option String → Option Value
text_value none = none
text_value (some t) = some (text t)

abbrev pub set_extra : Option (String × Value) → Fields → Fields
set_extra none fs = fs
set_extra (some (key, value)) fs = set_field key value fs

unfoldable pub assistant_payload : LlmResponse → Option (String × Value) → Value
unfolding tool_call_to_json
assistant_payload response extra = object (
    set_extra extra (
      set_some "provider_extra" response.provider_extra (
        set_some "reasoning_content" (text_value response.reasoning_content) (
          field "content" (text_or_null response.content)
            (field "tool_calls" (list_value (map tool_call_to_json response.tool_calls)) end)))))

abbrev pub with_cached : Option ℕ → Event → Event
with_cached none e = e
with_cached (some cached) e = with_meta e MetaKeys.llm_cached_input_tokens (nat_value cached)

unfoldable pub usage_meta : LlmResponse → ℕ → Event → Event
usage_meta response estimated e = with_cached response.cached_input_tokens (
    with_meta
      (with_meta
        (with_meta e MetaKeys.llm_input_tokens (nat_value (unwrap_or response.input_tokens 0)))
        MetaKeys.llm_output_tokens (nat_value (unwrap_or response.output_tokens 0)))
      MetaKeys.llm_estimated_input_tokens (nat_value estimated))

unfoldable pub delta_payload : Delta → Value
delta_payload delta = object (
    set_some "reasoning_content" (text_value delta.reasoning_content)
      (set_some "content" (text_value delta.content) end))

-- Only `Continue` goes on; every other action of a hook ends the step.
abbrev pub if_proceed {ℓ} : {A : Type ℓ} → HookAction → A → A → A
if_proceed proceed a b = a
if_proceed skip a b = b
if_proceed abort_cycle a b = b
if_proceed (deny reason) a b = b

abbrev pub step_outcome : ToolExecOutcome → StepOutcome
step_outcome outcome = if outcome.had_terminal || outcome.was_aborted then done else go_on

-- The result of a loop after a step: `rest` is the loop from the next step on.
abbrev pub after_step {ℓ} :
    {W : Type ℓ} → Result StepOutcome → W → Result Unit × W → Result Unit × W
after_step (err e) w rest = (err e, w)
after_step (ok done) w rest = (ok tt, w)
after_step (ok go_on) w rest = rest

abbrev pub nudge : ChatMessage
nudge =
    with_name
      (user_message
        "[harness] The step budget for this task is exhausted; no more tool calls will be executed. Write your final answer now: state what was accomplished, what remains unfinished, and any blockers.")
      "harness"

module _ (rt : Runtime) (H : Type 0) (draw : ℕ → EventId) (now : ℕ) (agent_id trace_id : String)
    (texts : Texts) (reason_text : Reason → String) (hooks : CycleHook (World rt H) ChatMessage)
    (tools : ToolRegistry H) (before : String → String → Bool)
    (selector : Option (List (Tool H) → List ChatMessage → List (Tool H))) (llm : LlmProvider H)
    (assembler : List Event → List (List Event) → H → List ChatMessage × H)
    (schedule : World rt H → List ℕ) where
  -- The ephemeral broadcasts of the deltas, each with an id of its own.
  unfoldable pub broadcast_deltas : List Delta → World rt H → World rt H
  unfolding delta_payload
  broadcast_deltas [] w = w
  broadcast_deltas (delta ∷ deltas) w = broadcast_deltas deltas (record w {
    bus = broadcast rt w.bus (
        event rt H draw now agent_id trace_id (draw w.drawn) Kinds.assistant_delta
          (delta_payload delta));
    drawn = suc w.drawn;
  })

  abbrev pub with_estimate : ℕ → Result LlmResponse → Result (LlmResponse × ℕ)
  with_estimate estimated (ok response) = ok (response, estimated)
  with_estimate estimated (err e) = err e

  unfoldable pub call_llm :
      List ChatMessage → List (Tool H) → Bool → World rt H → Result (LlmResponse × ℕ) × World rt H
  call_llm messages tool_defs false w =
      let (response, shared) = llm.complete messages tool_defs w.shared in
      (with_estimate (messages_token_count texts messages) response, record w { shared = shared })
  call_llm messages tool_defs true w =
      let (response, deltas, shared) = llm.complete_stream messages tool_defs w.shared in
      (
        with_estimate (messages_token_count texts messages) response,
        broadcast_deltas deltas (record w { shared = shared }),
      )

  unfoldable pub publish_assistant_message :
      LlmResponse → ℕ → Option (String × Value) → World rt H → World rt H
  publish_assistant_message response estimated extra w =
      emit rt H draw now agent_id trace_id w (λ id. usage_meta response estimated (
        event rt H draw now agent_id trace_id id Kinds.assistant_message
          (assistant_payload response extra)))

  unfoldable pub select_tools : List ChatMessage → List (Tool H)
  select_tools messages =
      if is_empty tools
      then []
      else elim selector [ none ↦ definitions before tools | some select ↦ select tools messages ]

  -- The tool calls of a response, if there are any.
  unfoldable pub run_calls :
      ToolExecOptions → List ToolCall → World rt H → Result StepOutcome × World rt H
  run_calls opts [] w = (ok done, w)
  run_calls opts (tc ∷ calls) w =
      let (outcome, w') =
        execute_tools rt H draw now agent_id trace_id texts reason_text hooks opts tools
          (tc ∷ calls) (schedule w) w in
      (ok (step_outcome outcome), w')

  -- What follows the answer of the provider in a step.
  unfoldable pub act :
      ToolExecOptions → Result (LlmResponse × ℕ) × World rt H → Result StepOutcome × World rt H
  unfolding run_calls
  act opts (err e, w) = (err e, w)
  act opts (ok (response, estimated), w) =
      run_calls opts response.tool_calls (publish_assistant_message response estimated none w)

  -- The step from the `before_llm` hooks on; without messages there is nothing to ask.
  unfoldable pub prompt :
      ToolExecOptions → Bool → List ChatMessage → World rt H → Result StepOutcome × World rt H
  unfolding act
  prompt opts stream [] w = (ok done, w)
  prompt opts stream (m ∷ ms) w =
      let (action, (w', messages)) = hooks.before_llm (w, m ∷ ms) in
      if_proceed action (act opts (call_llm messages (select_tools messages) stream w'))
        (ok done, w')

  -- The step from the assembly of the context on.
  unfoldable pub assemble_and_prompt :
      ToolExecOptions → Bool → World rt H → Result StepOutcome × World rt H
  unfolding prompt
  assemble_and_prompt opts stream w =
      let (messages, shared) = assembler (log w.bus) (recent_rejected_branches w.bus) w.shared in
      prompt opts stream messages (record w { shared = shared })

  unfoldable pub run_react_step :
      ℕ → ToolExecOptions → Bool → World rt H → Result StepOutcome × World rt H
  unfolding assemble_and_prompt
  run_react_step step opts stream w =
      let (action, w') = hooks.before_step (record w { step = step }) in
      if_proceed action (assemble_and_prompt opts stream w') (ok done, w')

  abbrev pub published_wrap_up : Result (LlmResponse × ℕ) × World rt H → Result Unit × World rt H
  published_wrap_up (err e, w) = (err e, w)
  published_wrap_up (ok (response, estimated), w) = (
    ok tt,
    publish_assistant_message response estimated (some ("finalized_due_to", text "max_steps")) w,
  )

  -- The wrap-up on the assembled messages.
  unfoldable pub wrap_up : ReactStrategy → List ChatMessage → World rt H → Result Unit × World rt H
  wrap_up s [] w = (err (max_steps_reached s.max_steps), w)
  wrap_up s (m ∷ ms) w = published_wrap_up (call_llm (m ∷ ms ++ nudge ∷ []) [] s.stream w)

  unfoldable pub finalize : ReactStrategy → World rt H → Result Unit × World rt H
  unfolding wrap_up
  finalize s w =
      let (messages, shared) = assembler (log w.bus) [] w.shared in
      wrap_up s messages (record w { shared = shared })

  abbrev pub options : ReactStrategy → ToolExecOptions
  options s = record default_options {
    max_concurrent = s.max_concurrent_tools;
    timeout = s.tool_timeout;
    max_result_chars = s.max_tool_result_chars;
  }

  -- The loop from step `step` on, with `left` steps left.
  unfoldable pub execute_from : ReactStrategy → ℕ → ℕ → World rt H → Result Unit × World rt H
  execute_from s zero step w =
      if s.finalize_on_max_steps then finalize s w else (err (max_steps_reached s.max_steps), w)
  execute_from s (suc left) step w =
      let (outcome, w') = run_react_step step (options s) s.stream w in
      after_step outcome w' (execute_from s left (suc step) w')

  unfoldable pub execute : ReactStrategy → World rt H → Result Unit × World rt H
  unfolding execute_from
  execute s w = execute_from s s.max_steps 1 w

  abbrev pub published_single : Result (LlmResponse × ℕ) × World rt H → Result Unit × World rt H
  published_single (err e, w) = (err e, w)
  published_single (ok (response, estimated), w) =
      (ok tt, publish_assistant_message response estimated none w)

  unfoldable pub answer_once : List ChatMessage → World rt H → Result Unit × World rt H
  answer_once [] w = (ok tt, w)
  answer_once (m ∷ ms) w =
      published_single
        (call_llm (m ∷ ms) (if is_empty tools then [] else definitions before tools) false w)

  -- `SingleShotStrategy`.
  unfoldable pub execute_single_shot : World rt H → Result Unit × World rt H
  unfolding answer_once
  execute_single_shot w =
      let (messages, shared) = assembler (log w.bus) [] w.shared in
      answer_once messages (record w { shared = shared })
