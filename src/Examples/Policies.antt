-- ===== src/Examples/Policies.antt =====
-- Small runs of the hooks and the providers.
use eventage_rs.Prelude.{
  ◌^◌, ◌%◌, ℕ, ◌+◌, ◌≤◌, ◌≡◌, ◌↔◌, ◌⊎◌, refl, true, none, some, [], ◌∷◌, length, arith, All,
  if◌then◌else◌, leb,
}
use eventage_rs.Event.{Event, EventId}
use eventage_rs.Event
use eventage_rs.Event.Kinds
use eventage_rs.Event.MetaKeys
use eventage_rs.Json.{object, end, field, text, nat_value, boolean}
use eventage_rs.Bus.{Bus, default_config, log}
use eventage_rs.Hook.{proceed, abort_cycle}
use eventage_rs.Glob.{glob_match, codes, split}
use eventage_rs.Glob.Matching.{glob_match_iff, join, HasNoStar, Fits}
use eventage_rs.Permission.{PermissionPolicyHook, allow, ask, before_tool, received, timed_out}
use eventage_rs.Permission.Approval.{DecidedBy, FirstAnswer, IsApproval, before_tool-proceed}
use eventage_rs.Recovery.{ToolRecovery, reconcile_interrupted_tools, replay, Tool, success}
use eventage_rs.Recovery
use eventage_rs.Recovery.Settled.{Settled, reconcile-Settled}
use eventage_rs.Budget.{
  TokenBudgetHook, session, sum_tokens, used_tokens, before_llm, u64_mod, in_scope,
}
use eventage_rs.Budget
use eventage_rs.Budget.Enforcement.{
  publications, count, publications_once, Spends, abort-used, before_llm-abort,
  before_llm-abort_stays,
}
use eventage_rs.Retry.{default_provider, err, ok, api, Outcome, complete, backoff_base}
use eventage_rs.Retry.Attempts.{EndsAt, complete-EndsAt, backoff_base_bounds}
use eventage_rs.RateLimit.{RateLimitedProvider, dispatches}
use eventage_rs.RateLimit.Spacing.{Spaced, NotBefore, dispatches-Spaced}
use eventage_rs.Examples.{queues}

abbrev pub request : Event
request = Event.new 4 100 Kinds.tool_call_proposed (
    object (
      field "tool_call_id" (text "c1")
        (field "name" (text "send_mail") (field "arguments" (text "{}") end))))

abbrev pub bus : Bus queues
bus = record {
  store = record { nodes = (4, request) ∷ []; active_path = 4 ∷ []; rejected_branches = [] };
  subs = [];
  config = default_config;
  transforms = [];
  evicted = [];
}

glob_match_iff_example :
    (join (split (codes "send_*")) ≡ codes "send_*")
    × All HasNoStar (split (codes "send_*"))
    × ((glob_match "send_*" "send_mail" ≡ true) ↔ Fits (split (codes "send_*")) (codes "send_mail"))
glob_match_iff_example = glob_match_iff "send_*" "send_mail"

abbrev cautious : PermissionPolicyHook
cautious = record {
  rules = (record { pattern = "send_*"; verdict = ask }) ∷ [];
  default_verdict = allow;
  ask_timeout = 120;
}

abbrev approval : Event
approval =
    Event.new 9 100 Kinds.permission_decision
      (object (field "request_id" (text "ii") (field "approve" (boolean true) end)))

before_tool-proceed_example :
    ((before_tool queues cautious bus 2 3 100 "agent" "send_mail"
        (object end)
        (received approval timed_out)).0
      ≡ proceed)
    ↔ (DecidedBy cautious.rules cautious.default_verdict "send_mail" allow
        ⊎ (DecidedBy cautious.rules cautious.default_verdict "send_mail" ask
            × ((d : Event) × FirstAnswer "ii" (received approval timed_out) d × IsApproval d)))
before_tool-proceed_example =
    before_tool-proceed queues cautious bus 2 3 100 "agent" "send_mail" (object end)
      (received approval timed_out)

abbrev replaying : ToolRecovery
replaying = record { rules = ("send_*", replay) ∷ []; default_policy = Recovery.report_interrupted }

abbrev mailer : Tool
mailer v = success (text "sent")

reconcile-Settled_example :
    Settled queues
      (λ s. none)
      (λ k. k + 10)
      200
      replaying
      (some (λ name. some mailer))
      bus
      (reconcile_interrupted_tools queues
        (λ s. none)
        (λ k. k + 10)
        200
        replaying
        (some (λ name. some mailer))
        bus)
reconcile-Settled_example =
    reconcile-Settled queues (λ s. none) (λ k. k + 10) 200 replaying (some (λ name. some mailer))
      bus (λ j k e. omega arith) refl (λ j. ground arith)

publications_once_example :
    (count Kinds.budget_exhausted (publications 80 (Budget.new 100) (10 ∷ 85 ∷ 90 ∷ 120 ∷ 130 ∷ []))
      ≡ 1)
    × (count Kinds.budget_warning (publications 80 (Budget.new 100) (10 ∷ 85 ∷ 90 ∷ 120 ∷ 130 ∷ []))
        ≡ 1)
publications_once_example = publications_once 80 100 (10 ∷ 85 ∷ 90 ∷ 120 ∷ 130 ∷ [])

abbrev spent : Event
spent = record (Event.new 5 100 Kinds.llm_response (object end)) {
  metadata =
      (MetaKeys.llm_input_tokens, nat_value 70) ∷ (MetaKeys.llm_output_tokens, nat_value 50) ∷ [];
}

abbrev billed : Bus queues
billed = record bus {
  store = record { nodes = (5, spent) ∷ []; active_path = 5 ∷ []; rejected_branches = [] };
}

before_llm-abort_example :
    (n : ℕ) × Spends session "agent" (log billed) n
    × (((before_llm queues (λ used max. used) 80 (Budget.new 100) "agent" billed [] 6 101).0
          ≡ abort_cycle)
        ↔ (100 ≤ n % 2 ^ 64))
before_llm-abort_example =
    before_llm-abort queues (λ used max. used) 80 (Budget.new 100) "agent" billed [] 6 101

abbrev failing : ℕ → Outcome ℕ
failing i = if leb 1 i then ok i else err (api 503 "busy")

complete-EndsAt_example :
    (k : ℕ) × EndsAt
      (λ d. 0)
      default_provider
      failing
      0
      (complete (λ d. 0) default_provider failing)
      k
complete-EndsAt_example = complete-EndsAt (λ d. 0) default_provider failing

backoff_base_bounds_example :
    (backoff_base default_provider 3 ≤ 30_000_000_000)
    × (backoff_base default_provider 3 ≤ backoff_base default_provider 4)
backoff_base_bounds_example = backoff_base_bounds default_provider 3

abbrev paced : RateLimitedProvider
paced = record { interval = 1000; next_slot = 0 }

dispatches-Spaced_example :
    Spaced 1000 0 (dispatches paced (5 ∷ 6 ∷ 7 ∷ []))
    × NotBefore (5 ∷ 6 ∷ 7 ∷ []) (dispatches paced (5 ∷ 6 ∷ 7 ∷ []))
    × (length (dispatches paced (5 ∷ 6 ∷ 7 ∷ [])) ≡ 3)
dispatches-Spaced_example = dispatches-Spaced paced (5 ∷ 6 ∷ 7 ∷ []) (omega arith)

before_llm-abort_stays_example :
    (before_llm queues
      (λ used max. used)
      80
      (record { max_tokens = 100; scope = session; warned = true; exhausted_reported = true })
      "agent"
      billed
      []
      7
      102).0
    ≡ abort_cycle
unfolding log used_tokens sum_tokens
before_llm-abort_stays_example =
    before_llm-abort_stays queues (λ used max. used) 80 (Budget.new 100) true true "agent" billed
      billed [] [] [] 6 7 101 102 refl (omega arith)
      ((abort-used queues (λ used max. used) 80 (Budget.new 100) "agent" billed [] 6 101).1
        (omega arith))
