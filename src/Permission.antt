-- ===== src/Permission.antt =====
-- src/agent/permission.rs: the rules of `PermissionPolicyHook`, and the wait for an approval.
pub mod Approval
use eventage_rs.Prelude.{
  ℕ, String, Bool, true, false, not, ◌||◌, Option, none, some, List, [], ◌∷◌, ◌++◌, find, and_then,
  unwrap_or, if◌then◌else◌, str_eq,
}
use eventage_rs.Json.{Value, text, object, field, end, get_field, as_str, as_bool}
use eventage_rs.Event.{Event, EventId}
use eventage_rs.Event
use eventage_rs.Event.Kinds
use eventage_rs.Runtime.{Runtime}
use eventage_rs.Bus.{Bus, subscribe, publish}
use eventage_rs.Glob.{glob_match}
use eventage_rs.Hook.{Reason, message, approval_timed_out, HookAction, proceed, deny}

pub data PermissionVerdict : Type 0 where
  allow : PermissionVerdict
  deny_with : String → PermissionVerdict
  ask : PermissionVerdict

pub record PermissionRule : Type 0 where
  pub pattern : String
  pub verdict : PermissionVerdict

-- `ask_timeout` in seconds.
pub record PermissionPolicyHook : Type 0 where
  pub rules : List PermissionRule
  pub default_verdict : PermissionVerdict
  pub ask_timeout : ℕ

abbrev pub new : PermissionPolicyHook
new = record { rules = []; default_verdict = allow; ask_timeout = 120 }

-- The builders `allow`, `deny` and `ask` push one rule.
unfoldable pub add_rule : PermissionPolicyHook → String → PermissionVerdict → PermissionPolicyHook
add_rule h pattern verdict = record h {
  rules = h.rules ++ (record { pattern = pattern; verdict = verdict }) ∷ [];
}

-- The builders `deny_by_default` and `ask_by_default`.
unfoldable pub with_default : PermissionPolicyHook → PermissionVerdict → PermissionPolicyHook
with_default h verdict = record h { default_verdict = verdict }

unfoldable pub with_ask_timeout : PermissionPolicyHook → ℕ → PermissionPolicyHook
with_ask_timeout h timeout = record h { ask_timeout = timeout }

abbrev pub verdict_or : PermissionVerdict → Option PermissionRule → PermissionVerdict
verdict_or d none = d
verdict_or d (some r) = r.verdict

unfoldable pub verdict_for : PermissionPolicyHook → String → PermissionVerdict
verdict_for h tool = verdict_or h.default_verdict (find (λ r. glob_match r.pattern tool) h.rules)

-- What `timeout_at(deadline, rx.recv())` yields, call after call.
pub data Wait : Type 0 where
  timed_out closed : Wait
  received : Event → Wait → Wait

abbrev pub text_is : Option String → String → Bool
text_is none s = false
text_is (some t) s = str_eq t s

-- The two tests that make the loop go on.
unfoldable pub answers : String → Event → Bool
answers request_id e =
    if str_eq e.kind Kinds.permission_decision
    then text_is (and_then (get_field e.payload "request_id") as_str) request_id
    else false

unfoldable pub approves : Event → Bool
approves e = unwrap_or (and_then (get_field e.payload "approve") as_bool) false

unfoldable pub verdict_of : Event → HookAction
unfolding approves
verdict_of e =
    if approves e
    then proceed
    else deny (
        message (
          unwrap_or (and_then (get_field e.payload "reason") as_str)
            "request was declined by the approver"))

unfoldable pub await_decision : String → String → ℕ → Wait → HookAction
await_decision request_id tool secs timed_out = deny (approval_timed_out tool secs)
await_decision request_id tool secs closed = deny (message "event bus closed")
await_decision request_id tool secs (received e wait) =
    let rest = await_decision request_id tool secs wait in
    if answers request_id e then verdict_of e else rest

module _ (rt : Runtime) where
  -- The ids drawn for the request and its event, and the time.
  unfoldable pub request_event : EventId → EventId → ℕ → String → String → Value → Event
  request_event request id now agent_id tool args = Event.new id now Kinds.permission_request (
      object (
        field "request_id" (text (rt.to_string request)) (
          field "tool" (text tool)
            (field "arguments" args (field "agent_id" (text agent_id) end)))))

  -- Subscribing comes before publishing. `publish` never fails, so neither does this.
  unfoldable pub ask_for_approval :
      PermissionPolicyHook
      → Bus rt
      → EventId
      → EventId
      → ℕ
      → String
      → String
      → Value
      → Wait
      → HookAction × Bus rt
  ask_for_approval h b request id now agent_id tool args wait = (
    await_decision (rt.to_string request) tool h.ask_timeout wait,
    publish rt (subscribe rt b) (request_event request id now agent_id tool args),
  )

  decide :
      PermissionVerdict
      → PermissionPolicyHook
      → Bus rt
      → EventId
      → EventId
      → ℕ
      → String
      → String
      → Value
      → Wait
      → HookAction × Bus rt
  decide allow h b request id now agent_id tool args wait = (proceed, b)
  decide (deny_with reason) h b request id now agent_id tool args wait = (deny (message reason), b)
  decide ask h b request id now agent_id tool args wait =
      ask_for_approval h b request id now agent_id tool args wait

  unfoldable pub before_tool :
      PermissionPolicyHook
      → Bus rt
      → EventId
      → EventId
      → ℕ
      → String
      → String
      → Value
      → Wait
      → HookAction × Bus rt
  unfolding decide
  before_tool h b request id now agent_id tool args wait =
      decide (verdict_for h tool) h b request id now agent_id tool args wait
