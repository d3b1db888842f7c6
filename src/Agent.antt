-- ===== src/Agent.antt =====
-- src/agent/core.rs: one cycle of an agent, and the loop that wakes it. A cycle's strategy is an
-- argument that is given the trace id; the loop reads the clock in milliseconds when it takes an
-- event and when the cycle for it has ended.
pub mod Waking
use Prim.Native.String.{◌++◌ as append_text}
use eventage_rs.Prelude.{
  ℕ, suc, ◌+◌, ◌-◌, ◌*◌, ◌^◌, ◌%◌, ◌==◌, String, Bool, true, false, ◌||◌, Option, none, some, List,
  [], ◌∷◌, any, and_then, leb, min, if◌then◌else◌, str_eq,
}
use eventage_rs.Json.{Value, text, object, field, end, nat_value, as_str}
use eventage_rs.Event.{Event, EventId, with_meta, meta}
use eventage_rs.Event
use eventage_rs.Event.Kinds
use eventage_rs.Event.MetaKeys
use eventage_rs.Runtime.{Runtime}
use eventage_rs.Bus.{BusError, channel_closed, checkpoint_not_found, log}
use eventage_rs.Glob.{Text}
use eventage_rs.Stuck.{StuckKind, StuckAnalysis, detect_stuck}
use eventage_rs.Strategy.{World, emit}
use eventage_rs.Strategy.React.{Result, ok, err, AgentError, max_steps_reached, tool_timeout}

abbrev pub u32_mod : ℕ
u32_mod = 0x1_0000_0000

-- The backoff of the loop.
pub record Backoff : Type 0 where
  pub consecutive_errors : ℕ
  pub last_error_at : Option ℕ

abbrev pub no_errors : Backoff
no_errors = record { consecutive_errors = 0; last_error_at = none }

-- `2^(min(n, 6) - 1)` seconds.
unfoldable pub wait_ms : ℕ → ℕ
wait_ms errors = 1000 * 2 ^ (min errors 6 - 1)

abbrev pub has_waited : Option ℕ → ℕ → ℕ → Bool
has_waited none wait clock = true
has_waited (some t) wait clock = leb wait (clock - t)

unfoldable pub run_cycle : Backoff → ℕ → Bool
run_cycle b clock =
    if b.consecutive_errors == 0
    then true
    else has_waited b.last_error_at (wait_ms b.consecutive_errors) clock

abbrev pub after_failure : Backoff → ℕ → Backoff
after_failure b clock = record {
  consecutive_errors = (b.consecutive_errors + 1) % u32_mod;
  last_error_at = some clock;
}

abbrev pub is_pending : Event → Bool
is_pending e =
    str_eq e.kind Kinds.user_message
    || (str_eq e.kind Kinds.system_heartbeat || str_eq e.kind Kinds.system_message)

abbrev pub addressed_to : String → Option String → Bool
addressed_to agent_id none = true
addressed_to agent_id (some to_agent_id) = str_eq to_agent_id agent_id

-- A message of another agent wakes only its addressee, or everyone if it names none.
unfoldable pub wake : String → Event → Bool
wake agent_id e =
    if is_pending e
    then true
    else if str_eq e.kind Kinds.agent_message
    then addressed_to agent_id (and_then (meta e MetaKeys.to_agent_id) as_str)
    else false

-- An event that the loop takes, with the clock then and the clock when it is done with it.
pub record Received : Type 0 where
  pub event : Event
  pub taken_at : ℕ
  pub done_at : ℕ

abbrev error_text : (ℕ → String) → (EventId → String) → AgentError → String
error_text print to_string (AgentError.bus channel_closed) = "Bus error: Event bus channel closed"
error_text print to_string (AgentError.bus (checkpoint_not_found i)) =
    append_text "Bus error: Checkpoint event "
      (append_text (to_string i) " not found in the active branch")
error_text print to_string (AgentError.llm e) = append_text "LLM error: " e
error_text print to_string (AgentError.tool e) = append_text "Tool error: " e
error_text print to_string (AgentError.serde e) = append_text "Serialization error: " e
error_text print to_string (max_steps_reached n) =
    append_text "React loop exceeded maximum steps (" (append_text (print n) ")")
error_text print to_string (tool_timeout name secs) =
    append_text "tool '"
      (append_text name (append_text "' timed out after " (append_text (print secs) "s")))

-- `matches!(e, AgentError::Bus(_))`.
abbrev pub as_bus : AgentError → Option BusError
as_bus (AgentError.bus e) = some e
as_bus (AgentError.llm e) = none
as_bus (AgentError.tool e) = none
as_bus (AgentError.serde e) = none
as_bus (max_steps_reached n) = none
as_bus (tool_timeout name secs) = none

module _ (rt : Runtime) (H : Type 0) (draw : ℕ → EventId) (now : ℕ) (agent_id : String)
    (print : ℕ → String) (lower : String → Text) (stuck_text : StuckKind → String)
    (elapsed_ms : World rt H → ℕ) (strategy : String → World rt H → Result Unit × World rt H) where
  open rt use {to_string}

  abbrev tagged : String → EventId → String → Event
  tagged trace_id id kind =
      with_meta (with_meta (Event.new id now kind (object end)) MetaKeys.agent_id (text agent_id))
        MetaKeys.trace_id (text trace_id)

  abbrev hint : String
  hint =
      "You appear to be repeating the same action or error. Try a different approach, use different arguments, or ask the user for clarification."

  -- The event of a detected loop.
  unfoldable pub warn_stuck : Option StuckAnalysis → World rt H → World rt H
  warn_stuck none w = w
  warn_stuck (some analysis) w = emit rt H draw now agent_id "" w (λ id.
      with_meta
        (Event.new id now Kinds.agent_stuck (
          object (
            field "kind" (text (stuck_text analysis.kind)) (
              field "repeat_count" (nat_value analysis.repeat_count)
                (field "hint" (text hint) end)))))
        MetaKeys.agent_id (text agent_id))

  -- A cycle draws its trace id, and its end follows the strategy whatever the result.
  unfoldable pub cycle : World rt H → Result Unit × World rt H
  unfolding warn_stuck
  cycle w =
      let w1 : World rt H = warn_stuck (detect_stuck lower (log w.bus) 10) w in
      let trace_id : String = to_string (draw w1.drawn) in
      let w2 : World rt H =
        emit rt H draw now agent_id trace_id (record w1 { drawn = suc w1.drawn })
          (λ id. tagged trace_id id Kinds.agent_cycle_start) in
      let (result, w3) = strategy trace_id w2 in
      (
        result,
        emit rt H draw now agent_id trace_id w3 (λ id.
            with_meta (tagged trace_id id Kinds.agent_cycle_end) MetaKeys.elapsed_ms
              (nat_value (elapsed_ms w3))),
      )

  unfoldable pub report_error : AgentError → World rt H → World rt H
  report_error e w = emit rt H draw now agent_id "" w (λ id.
      Event.new id now Kinds.assistant_message (
        object (
          field "content"
            (text (
              append_text "⚠\u{fe0f} Error: "
                (append_text (error_text print to_string e) ". Ready for your next message.")))
            end)))

  -- The loop goes on, or `run` has returned the error of the bus with which a cycle ended.
  pub data Loop : Type 0 where
    listening : Backoff → World rt H → Loop
    failed : BusError → World rt H → Loop

  -- After a cycle: an error of the bus ends the loop; any other is counted and apologised for.
  unfoldable pub settle : Backoff → ℕ → Result Unit × World rt H → Loop
  unfolding report_error
  settle b clock (ok done, w) = listening no_errors w
  settle b clock (err e, w) = elim (as_bus e) [
    | some bus_error ↦ failed bus_error w
    | none ↦ listening (after_failure b clock) (report_error e w)
  ]

  -- One round of the loop.
  unfoldable pub receive : Received → Loop → Loop
  unfolding cycle settle
  receive r (failed e w) = failed e w
  receive r (listening b w) =
      if wake agent_id r.event
      then (if run_cycle b r.taken_at then settle b r.done_at (cycle w) else listening b w)
      else listening b w

  unfoldable pub receive_all : List Received → Loop → Loop
  unfolding receive
  receive_all [] s = s
  receive_all (r ∷ rs) s = receive_all rs (receive r s)

  -- `run`: a cycle for what was published before the subscription, then the loop over what the
  -- subscription yields until it closes.
  unfoldable pub run : ℕ → List Received → World rt H → Loop
  run clock received w = receive_all received (
      if any is_pending (log w.bus)
      then settle no_errors clock (cycle w)
      else listening no_errors w)
