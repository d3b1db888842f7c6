-- ===== src/Hook.antt =====
-- src/agent/hook.rs, `HookAction`. A reason is a text of the source, or the one message that puts
-- the tool's name and a number of seconds into a text.
use eventage_rs.Prelude.{ℕ, String}

pub data Reason : Type 0 where
  message : String → Reason
  approval_timed_out : String → ℕ → Reason

pub data HookAction : Type 0 where
  proceed skip abort_cycle : HookAction
  deny : Reason → HookAction
