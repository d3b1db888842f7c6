-- ===== src/Strategy/React/Running.antt =====
-- src/agent/strategy.rs, `ReactStrategy`: the loop against its steps as a relation.
use eventage_rs.Prelude.{
  ℕ, zero, suc, ◌+◌, ◌<◌, ◌≡◌, refl, ap, String, Bool, true, false, inl, inr, Option, List, arith,
  Bool-cases, if◌then◌else◌,
}
use eventage_rs.Event.{Event, EventId}
use eventage_rs.Runtime.{Runtime}
use eventage_rs.Hook.{Reason}
use eventage_rs.HookChain.{CycleHook}
use eventage_rs.Message.{ChatMessage}
use eventage_rs.Truncate.{Texts}
use eventage_rs.Strategy.{Tool, ToolRegistry, World}
use eventage_rs.Strategy.React.{
  Result, ok, err, AgentError, max_steps_reached, LlmProvider, StepOutcome, done, go_on,
  ReactStrategy, run_react_step, finalize, options, execute_from, execute, after_step,
}

if-true {ℓ} : {A : Type ℓ} (b : Bool) (x y : A) → b ≡ true → (if b then x else y) ≡ x
if-true true x y h = refl
if-true false x y h = absurd (cc)

if-false {ℓ} : {A : Type ℓ} (b : Bool) (x y : A) → b ≡ false → (if b then x else y) ≡ y
if-false true x y h = absurd (cc)
if-false false x y h = refl

module _ (rt : Runtime) (H : Type 0) (draw : ℕ → EventId) (now : ℕ) (agent_id trace_id : String)
    (texts : Texts) (reason_text : Reason → String) (hooks : CycleHook (World rt H) ChatMessage)
    (tools : ToolRegistry H) (earlier : String → String → Bool)
    (selector : Option (List (Tool H) → List ChatMessage → List (Tool H))) (llm : LlmProvider H)
    (assembler : List Event → List (List Event) → H → List ChatMessage × H)
    (schedule : World rt H → List ℕ) (s : ReactStrategy) where
  -- One step of the strategy.
  abbrev pub step_of : ℕ → World rt H → Result StepOutcome × World rt H
  step_of step w =
      run_react_step rt H draw now agent_id trace_id texts reason_text hooks tools earlier selector
        llm assembler schedule step
        (options rt H draw now agent_id trace_id texts reason_text hooks tools earlier selector llm
          assembler schedule s)
        s.stream w

  -- `n` steps in a row, numbered from 1, that all go on.
  pub data Steps : ℕ → World rt H → World rt H → Type 0 where
    start : {w : World rt H} → Steps zero w w
    more :
        {n : ℕ} {w w' w'' : World rt H}
        → Steps n w w'
        → step_of (suc n) w' ≡ (ok go_on, w'')
        → Steps (suc n) w w''

  -- How a cycle ends after `n` such steps.
  pub data Ends (n : ℕ) (w : World rt H) (r : Result Unit × World rt H) : Type 0 where
    finished : n < s.max_steps → step_of (suc n) w ≡ (ok done, r.1) → r.0 ≡ ok tt → Ends n w r
    failed :
        (e : AgentError)
        → n < s.max_steps
        → step_of (suc n) w ≡ (err e, r.1)
        → r.0 ≡ err e
        → Ends n w r
    wrapped_up :
        n ≡ s.max_steps
        → s.finalize_on_max_steps ≡ true
        → r
          ≡ finalize rt H draw now agent_id trace_id texts reason_text hooks tools earlier selector
              llm assembler schedule s w
        → Ends n w r
    gave_up :
        n ≡ s.max_steps
        → s.finalize_on_max_steps ≡ false
        → r ≡ (err (max_steps_reached s.max_steps), w)
        → Ends n w r

  abbrev Ran : World rt H → Result Unit × World rt H → Type 0
  Ran w r = (n : ℕ) × (w' : World rt H) × Steps n w w' × Ends n w' r

  after_step-Ran :
      (n left : ℕ) (w w' : World rt H) (q : Result StepOutcome × World rt H)
      → step_of (suc n) w' ≡ q
      → n < s.max_steps
      → Steps n w w'
      → (q.0 ≡ ok go_on
          → Ran w (
              execute_from rt H draw now agent_id trace_id texts reason_text hooks tools earlier
                selector llm assembler schedule s left
                (suc (suc n))
                q.1))
      → Ran w (
          after_step q.0 q.1 (
            execute_from rt H draw now agent_id trace_id texts reason_text hooks tools earlier
              selector llm assembler schedule s left
              (suc (suc n))
              q.1))
  after_step-Ran n left w w' (err e, w'') st lt path rest = (n, w', path, failed e lt st refl)
  after_step-Ran n left w w' (ok done, w'') st lt path rest = (n, w', path, finished lt st refl)
  after_step-Ran n left w w' (ok go_on, w'') st lt path rest = rest refl

  execute_from-Ran :
      (left n : ℕ) (w w' : World rt H)
      → n + left ≡ s.max_steps
      → Steps n w w'
      → Ran w (
          execute_from rt H draw now agent_id trace_id texts reason_text hooks tools earlier
            selector llm assembler schedule s left
            (suc n)
            w')
  unfolding execute_from
  execute_from-Ran zero n w w' e path = elim (Bool-cases s.finalize_on_max_steps) [
    | inl wraps ↦ (n, w', path, wrapped_up (omega arith) wraps (if-true _ _ _ wraps))
    | inr stops ↦ (n, w', path, gave_up (omega arith) stops (if-false _ _ _ stops))
  ]
  execute_from-Ran (suc left) n w w' e path =
      after_step-Ran n left w w' (step_of (suc n) w') refl (omega arith) path (λ on.
        execute_from-Ran left (suc n) w (step_of (suc n) w').1 (omega arith)
          (more path (ap (λ (o : Result StepOutcome). (o, (step_of (suc n) w').1)) on)))

  -- A cycle makes some number of steps that go on, at most `max_steps`, and then ends in one of four
  -- ways: if fewer were made, the next step is done and the cycle succeeds, or that step fails and
  -- the cycle fails with its error; if `max_steps` were made, the cycle is the wrap-up in the world
  -- they led to, or, with the wrap-up switched off, `MaxStepsReached` with that world as it is.
  pub execute-Steps :
      (w : World rt H)
      → (n : ℕ) × (w' : World rt H) × Steps n w w'
        × Ends n w' (
            execute rt H draw now agent_id trace_id texts reason_text hooks tools earlier selector
              llm assembler schedule s w)
  unfolding execute
  execute-Steps w = execute_from-Ran s.max_steps 0 w w (omega arith) start
