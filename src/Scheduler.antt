-- ===== src/Scheduler.antt =====
-- src/scheduler.rs: one round of `HeartbeatScheduler::run`, after the ticker has fired. The state is
-- the bus and the bookmark `last_len`, a local of the loop that starts at 0.
pub mod Idle
use eventage_rs.Prelude.{ℕ, String, Bool, not, ◌&&◌, ◌||◌, List, any, if◌then◌else◌, str_eq}
use eventage_rs.Json.{text, object, field, end}
use eventage_rs.Event.{Event, EventId}
use eventage_rs.Event
use eventage_rs.Event.Kinds
use eventage_rs.Runtime.{Runtime}
use eventage_rs.Bus.{Bus, publish, log_since, log_len}

-- The kinds that count as activity.
unfoldable pub is_activity : Event → Bool
is_activity e =
    str_eq e.kind Kinds.user_message
    || (str_eq e.kind Kinds.system_message
        || (str_eq e.kind Kinds.agent_message || str_eq e.kind Kinds.tool_result))

-- `timestamp` is the text that the clock gives.
unfoldable pub heartbeat : EventId → ℕ → String → Event
heartbeat id now timestamp =
    Event.new id now Kinds.system_heartbeat (object (field "timestamp" (text timestamp) end))

module _ (rt : Runtime) where
  pub record HeartbeatScheduler : Type 0 where
    pub bus : Bus rt
    pub skip_when_idle : Bool
    pub last_len : ℕ

  unfoldable pub is_idle : HeartbeatScheduler → Bool
  is_idle s = s.skip_when_idle && not (any is_activity (log_since s.bus s.last_len))

  -- The bookmark is read before the heartbeat is published.
  unfoldable pub tick : HeartbeatScheduler → EventId → ℕ → String → HeartbeatScheduler
  tick s id now timestamp = if is_idle s then s else record s {
    bus = publish rt s.bus (heartbeat id now timestamp);
    last_len = log_len s.bus;
  }
