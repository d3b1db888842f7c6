-- ===== src/Agent/Waking.antt =====
-- src/agent/core.rs, `run`: an agent is not held back for good by failing cycles.
use eventage_rs.Prelude.{
  ℕ, zero, suc, ◌+◌, ◌-◌, ◌^◌, ◌≤◌, ◌≡◌, refl, String, true, inl, inr, Option, none, some, List, [],
  ◌∷◌, any, All, min, le→leb, ◌==◌, arith, Bool-cases, Option-cases, ap, ◌∙◌, ◌⊎◌,
}
use eventage_rs.Event.{EventId}
use eventage_rs.Runtime.{Runtime}
use eventage_rs.Bus.{BusError, log}
use eventage_rs.Glob.{Text}
use eventage_rs.Stuck.{StuckKind}
use eventage_rs.Strategy.{World}
use eventage_rs.Strategy.React.{Result, ok, err, AgentError, max_steps_reached, tool_timeout}
use eventage_rs.Agent.{
  Backoff, no_errors, wait_ms, has_waited, run_cycle, is_pending, wake, Received, cycle, settle,
  receive, receive_all, run, Loop, listening, failed, as_bus,
}

pow_small : (n : ℕ) → n ≤ 5 → 2 ^ n ≤ 32
pow_small zero h = omega arith
pow_small (suc zero) h = omega arith
pow_small (suc (suc zero)) h = omega arith
pow_small (suc (suc (suc zero))) h = omega arith
pow_small (suc (suc (suc (suc zero)))) h = omega arith
pow_small (suc (suc (suc (suc (suc zero))))) h = omega arith
pow_small (suc (suc (suc (suc (suc (suc n)))))) h = absurd (omega arith)

wait_ms-le : (errors : ℕ) → wait_ms errors ≤ 32_000
unfolding wait_ms
wait_ms-le errors =
    let small : 2 ^ (min errors 6 - 1) ≤ 32 = pow_small (min errors 6 - 1) (ground arith) in
    omega (arith, small)

-- The last error of a backoff was at this time at the latest.
abbrev FailedBy : ℕ → Option ℕ → Type 0
FailedBy t none = Unit
FailedBy t (some at) = at ≤ t

has_waited-long :
    (last : Option ℕ) (wait t clock : ℕ)
    → FailedBy t last
    → wait ≤ 32_000
    → t + 32_000 ≤ clock
    → has_waited last wait clock ≡ true
has_waited-long none wait t clock h k late = refl
has_waited-long (some at) wait t clock h k late = le→leb wait (clock - at) (omega arith)

run_cycle-late :
    (b : Backoff) (t clock : ℕ)
    → FailedBy t b.last_error_at
    → t + 32_000 ≤ clock
    → run_cycle b clock ≡ true
unfolding run_cycle
run_cycle-late b t clock h late = elim (Bool-cases (b.consecutive_errors == 0)) [
  | inl fine ↦ rw (fine, run_cycle) refl
  | inr errors ↦
      rw (errors, run_cycle)
        (has_waited-long b.last_error_at (wait_ms b.consecutive_errors) t clock h
          (wait_ms-le b.consecutive_errors) late)
]

module _ (rt : Runtime) (H : Type 0) (draw : ℕ → EventId) (now : ℕ) (agent_id : String)
    (print : ℕ → String) (lower : String → Text) (stuck_text : StuckKind → String)
    (elapsed_ms : World rt H → ℕ) (strategy : String → World rt H → Result Unit × World rt H) where
  abbrev State : Type 0
  State = Loop rt H draw now agent_id print lower stuck_text elapsed_ms strategy

  -- The last error was at this time at the latest; and a loop that has failed has done so with the
  -- error of the bus that a cycle returned, in the world which that cycle left.
  abbrev Timely : ℕ → State → Type 0
  Timely t (listening b w) = FailedBy t b.last_error_at
  Timely t (failed e w) =
      (before : World rt H) × (cycle rt H draw now agent_id print lower stuck_text elapsed_ms
          strategy before
        ≡ (err (AgentError.bus e), w))

  as_bus-some : (e : AgentError) (b : BusError) → as_bus e ≡ some b → e ≡ AgentError.bus b
  as_bus-some (AgentError.bus e) b h = cc
  as_bus-some (AgentError.llm e) b h = cc
  as_bus-some (AgentError.tool e) b h = cc
  as_bus-some (AgentError.serde e) b h = cc
  as_bus-some (max_steps_reached n) b h = cc
  as_bus-some (tool_timeout name secs) b h = cc

  settle-Timely :
      (b : Backoff) (clock t : ℕ) (before : World rt H) (r : Result Unit × World rt H)
      → cycle rt H draw now agent_id print lower stuck_text elapsed_ms strategy before ≡ r
      → clock ≤ t
      → Timely t
          (settle rt H draw now agent_id print lower stuck_text elapsed_ms strategy b clock r)
  unfolding settle
  settle-Timely b clock t before (ok done, w) e h = tt
  settle-Timely b clock t before (err x, w) e h = elim (Option-cases (as_bus x)) [
    | inl other ↦ rw (other, settle) h
    | inr (bus_error, is_bus) ↦
        rw (is_bus, settle) (before, e ∙ ap (λ y. (err y, w)) (as_bus-some x bus_error is_bus))
  ]

  receive-Timely :
      (r : Received) (t : ℕ) (s : State)
      → r.done_at ≤ t
      → Timely t s
      → Timely t (receive rt H draw now agent_id print lower stuck_text elapsed_ms strategy r s)
  unfolding receive
  receive-Timely r t (failed e w) h k = k
  receive-Timely r t (listening b w) h k = elim (Bool-cases (wake agent_id r.event)) [
    | inr sleeps ↦ rw sleeps k
    | inl wakes ↦ rw wakes (elim (Bool-cases (run_cycle b r.taken_at)) [
      | inr waits ↦ rw waits k
      | inl runs ↦ rw runs (settle-Timely b r.done_at t w _ refl h)
    ])
  ]

  receive_all-Timely :
      (rs : List Received) (t : ℕ) (s : State)
      → All (λ r. r.done_at ≤ t) rs
      → Timely t s
      → Timely t
          (receive_all rt H draw now agent_id print lower stuck_text elapsed_ms strategy rs s)
  unfolding receive_all
  receive_all-Timely [] t s h k = k
  receive_all-Timely (r ∷ rs) t s h k =
      receive_all-Timely rs t
        (receive rt H draw now agent_id print lower stuck_text elapsed_ms strategy r s) h.1
        (receive-Timely r t s h.0 k)

  run-Timely :
      (clock : ℕ) (rs : List Received) (w : World rt H) (t : ℕ)
      → clock ≤ t
      → All (λ r. r.done_at ≤ t) rs
      → Timely t (run rt H draw now agent_id print lower stuck_text elapsed_ms strategy clock rs w)
  unfolding run
  run-Timely clock rs w t h k = elim (Bool-cases (any is_pending (log w.bus))) [
    | inl pending ↦
        rw (pending, run) (receive_all-Timely rs t _ k (settle-Timely no_errors clock t w _ refl h))
    | inr nothing ↦ rw (nothing, run) (receive_all-Timely rs t _ k tt)
  ]

  -- The loop listens and the event gets a cycle; or a cycle ended with an error of the bus, which
  -- `run` has returned.
  abbrev pub WakesOrFailed : Received → State → Type 0
  WakesOrFailed r s =
      ((b : Backoff) × (w : World rt H) × (s ≡ listening b w)
        × (receive rt H draw now agent_id print lower stuck_text elapsed_ms strategy r s
            ≡ settle rt H draw now agent_id print lower stuck_text elapsed_ms strategy b r.done_at
                (cycle rt H draw now agent_id print lower stuck_text elapsed_ms strategy w)))
      ⊎ ((e : BusError) × (before : World rt H) × (w : World rt H) × (s ≡ failed e w)
          × (cycle rt H draw now agent_id print lower stuck_text elapsed_ms strategy before
              ≡ (err (AgentError.bus e), w)))

  wakes_when_late :
      (s : State) (t : ℕ) (r : Received)
      → Timely t s
      → wake agent_id r.event ≡ true
      → t + 32_000 ≤ r.taken_at
      → WakesOrFailed r s
  unfolding receive
  wakes_when_late (failed e w) t r (before, same) wakes late = inr (e, before, w, refl, same)
  wakes_when_late (listening b w) t r k wakes late =
      inl (b, w, refl, rw wakes (rw (run_cycle-late b t r.taken_at k late) refl))

  -- However many cycles have failed: if the agent was done with its first cycle and with every event
  -- by a time, then an event that wakes it and that it takes at least 32 seconds later gets a cycle;
  -- unless a cycle ended with an error of the bus, the one error that ends the loop.
  pub run-receive_wakes :
      (clock : ℕ) (rs : List Received) (w : World rt H) (t : ℕ) (r : Received)
      → clock ≤ t
      → All (λ q. q.done_at ≤ t) rs
      → wake agent_id r.event ≡ true
      → t + 32_000 ≤ r.taken_at
      → WakesOrFailed r
          (run rt H draw now agent_id print lower stuck_text elapsed_ms strategy clock rs w)
  run-receive_wakes clock rs w t r h k wakes late =
      wakes_when_late
        (run rt H draw now agent_id print lower stuck_text elapsed_ms strategy clock rs w) t r
        (run-Timely clock rs w t h k) wakes late
