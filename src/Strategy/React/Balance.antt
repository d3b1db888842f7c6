-- ===== src/Strategy/React/Balance.antt =====
-- src/agent/strategy.rs, `ReactStrategy`: calls and their results over whole cycles.
use mathlib.Core.List.{append-nil}
use eventage_rs.Prelude.{
  ℕ, zero, suc, ◌≡◌, refl, sym, ◌∙◌, String, Bool, true, false, Option, none, List, [], ◌∷◌, ◌++◌,
  arith,
}
use eventage_rs.Json.{Value}
use eventage_rs.Event.{Event, EventId}
use eventage_rs.Runtime.{Runtime}
use eventage_rs.Hook.{Reason}
use eventage_rs.HookChain.{CycleHook}
use eventage_rs.Message.{ToolCall, ChatMessage, LlmResponse}
use eventage_rs.Bus.{log, broadcast}
use eventage_rs.Truncate.{Texts}
use eventage_rs.Strategy.{Tool, ToolRegistry, ToolExecOptions, World}
use eventage_rs.Strategy.ToolCalls.Answered.{batch_balance}
use eventage_rs.Strategy.ToolCalls.Tickets.{
  proposals, results, Ready, Adds, Adds-nil, Adds-shared, Adds-trans,
}
use eventage_rs.Strategy.React.{
  Result, ok, err, LlmProvider, Delta, StepOutcome, ReactStrategy, broadcast_deltas, call_llm,
  publish_assistant_message, usage_meta, published_wrap_up, act, prompt, assemble_and_prompt,
  run_react_step, finalize, options, execute_from, execute, run_calls, wrap_up,
}
use eventage_rs.Strategy.React.Growth.{
  if_proceed-case, if-case, after_step-case, Balanced, Balanced-quiet, Balanced-trans, Adds-step,
  with_cached-id, with_cached-kind, emit_message,
}

module _ (rt : Runtime) (H : Type 0) (draw : ℕ → EventId) (now : ℕ) (agent_id trace_id : String)
    (injective : (j k : ℕ) → draw j ≡ draw k → j ≡ k) (texts : Texts)
    (reason_text : Reason → String) (hooks : CycleHook (World rt H) ChatMessage)
    (tools : ToolRegistry H) (earlier : String → String → Bool)
    (selector : Option (List (Tool H) → List ChatMessage → List (Tool H))) (llm : LlmProvider H)
    (assembler : List Event → List (List Event) → H → List ChatMessage × H)
    (schedule : World rt H → List ℕ)
    (before_tool : (name : String) (args : Value) (w : World rt H)
      → Ready rt H draw w
      → Adds rt H draw w (hooks.before_tool name args w).1 [] [])
    (after_tool : (name : String) (result : Value) (w : World rt H)
      → Ready rt H draw w
      → Adds rt H draw w (hooks.after_tool name result w) [] [])
    (before_llm : (messages : List ChatMessage) (w : World rt H)
      → Ready rt H draw w
      → Adds rt H draw w (hooks.before_llm (w, messages)).1.0 [] [])
    (before_step : (w : World rt H)
      → Ready rt H draw w
      → Adds rt H draw w (hooks.before_step w).1 [] []) where
  broadcast_deltas-Adds :
      (deltas : List Delta) (w : World rt H)
      → Ready rt H draw w
      → Adds rt H draw w
          (broadcast_deltas rt H draw now agent_id trace_id texts reason_text hooks tools earlier
            selector llm assembler schedule deltas w)
          []
          []
  unfolding broadcast_deltas broadcast log
  broadcast_deltas-Adds [] w r = Adds-nil rt H draw w r
  broadcast_deltas-Adds (delta ∷ deltas) w r =
      Adds-trans rt H draw w _ _ [] [] [] []
        (record {
          added = [];
          logged = sym (append-nil (log w.bus));
          proposed = refl;
          resulted = refl;
          ready = record { plain = r.plain; unused = λ j h. r.unused j (omega arith) };
        })
        (broadcast_deltas-Adds deltas _
          (record { plain = r.plain; unused = λ j h. r.unused j (omega arith) }))

  call_llm-Adds :
      (messages : List ChatMessage) (defs : List (Tool H)) (stream : Bool) (w : World rt H)
      → Ready rt H draw w
      → Adds rt H draw w
          (call_llm rt H draw now agent_id trace_id texts reason_text hooks tools earlier selector
            llm assembler schedule messages defs stream w).1
          []
          []
  unfolding call_llm
  call_llm-Adds messages defs false w r = Adds-shared rt H draw w _ r
  call_llm-Adds messages defs true w r =
      let a : Adds rt H draw w _ [] [] = Adds-shared rt H draw w _ r in
      Adds-trans rt H draw w _ _ [] [] [] [] a (broadcast_deltas-Adds _ _ a.ready)

  publish_assistant_message-Adds :
      (response : LlmResponse) (estimated : ℕ) (extra : Option (String × Value)) (w : World rt H)
      → Ready rt H draw w
      → Adds rt H draw w
          (publish_assistant_message rt H draw now agent_id trace_id texts reason_text hooks tools
            earlier selector llm assembler schedule response estimated extra w)
          []
          []
  unfolding publish_assistant_message usage_meta
  publish_assistant_message-Adds response estimated extra w r =
      emit_message rt H draw now agent_id trace_id injective w _
        (with_cached-id response.cached_input_tokens _)
        (with_cached-kind response.cached_input_tokens _) r

  Balanced-run_calls :
      (opts : ToolExecOptions) (calls : List ToolCall) (w : World rt H)
      → Ready rt H draw w
      → Balanced rt H draw w
          (run_calls rt H draw now agent_id trace_id texts reason_text hooks tools earlier selector
            llm assembler schedule opts calls w).1
  unfolding run_calls
  Balanced-run_calls opts [] w r = Balanced-quiet rt H draw w w (Adds-nil rt H draw w r)
  Balanced-run_calls opts (tc ∷ calls) w r =
      let (ts, a) =
        batch_balance rt H draw now agent_id trace_id injective texts reason_text hooks opts tools
          before_tool after_tool (tc ∷ calls) (schedule w) w r in
      record { tickets = ts; grew = a }

  Balanced-act :
      (opts : ToolExecOptions) (answer : Result (LlmResponse × ℕ)) (w : World rt H)
      → Ready rt H draw w
      → Balanced rt H draw w
          (act rt H draw now agent_id trace_id texts reason_text hooks tools earlier selector llm
            assembler schedule opts
            (answer, w)).1
  unfolding act
  Balanced-act opts (err e) w r = Balanced-quiet rt H draw w w (Adds-nil rt H draw w r)
  Balanced-act opts (ok (response, estimated)) w r =
      let a : Adds rt H draw w _ [] [] =
        publish_assistant_message-Adds response estimated none w r in
      Balanced-trans rt H draw w _ _ (Balanced-quiet rt H draw w _ a)
        (Balanced-run_calls opts response.tool_calls _ a.ready)

  Balanced-prompt :
      (opts : ToolExecOptions) (stream : Bool) (messages : List ChatMessage) (w : World rt H)
      → Ready rt H draw w
      → Balanced rt H draw w
          (prompt rt H draw now agent_id trace_id texts reason_text hooks tools earlier selector llm
            assembler schedule opts stream messages w).1
  unfolding prompt
  Balanced-prompt opts stream [] w r = Balanced-quiet rt H draw w w (Adds-nil rt H draw w r)
  Balanced-prompt opts stream (m ∷ ms) w r =
      let a : Adds rt H draw w _ [] [] = before_llm (m ∷ ms) w r in
      let b : Adds rt H draw _ _ [] [] = call_llm-Adds _ _ stream _ a.ready in
      if_proceed-case (λ (q : Result StepOutcome × World rt H). Balanced rt H draw w q.1) _ _ _
        (Balanced-trans rt H draw w _ _
          (Balanced-quiet rt H draw w _ (Adds-trans rt H draw w _ _ [] [] [] [] a b))
          (Balanced-act opts _ _ b.ready))
        (Balanced-quiet rt H draw w _ a)

  Balanced-assemble :
      (opts : ToolExecOptions) (stream : Bool) (w : World rt H)
      → Ready rt H draw w
      → Balanced rt H draw w
          (assemble_and_prompt rt H draw now agent_id trace_id texts reason_text hooks tools earlier
            selector llm assembler schedule opts stream w).1
  unfolding assemble_and_prompt
  Balanced-assemble opts stream w r =
      let a : Adds rt H draw w _ [] [] = Adds-shared rt H draw w _ r in
      Balanced-trans rt H draw w _ _ (Balanced-quiet rt H draw w _ a)
        (Balanced-prompt opts stream _ _ a.ready)

  Balanced-step :
      (step : ℕ) (opts : ToolExecOptions) (stream : Bool) (w : World rt H)
      → Ready rt H draw w
      → Balanced rt H draw w
          (run_react_step rt H draw now agent_id trace_id texts reason_text hooks tools earlier
            selector llm assembler schedule step opts stream w).1
  unfolding run_react_step
  Balanced-step step opts stream w r =
      let a : Adds rt H draw w _ [] [] =
        Adds-trans rt H draw w (record w { step = step }) _ [] [] [] []
          (Adds-step rt H draw w step r)
          (before_step (record w { step = step })
            (record { plain = r.plain; unused = r.unused })) in
      if_proceed-case (λ (q : Result StepOutcome × World rt H). Balanced rt H draw w q.1) _ _ _
        (Balanced-trans rt H draw w _ _ (Balanced-quiet rt H draw w _ a)
          (Balanced-assemble opts stream _ a.ready))
        (Balanced-quiet rt H draw w _ a)

  Balanced-published :
      (answer : Result (LlmResponse × ℕ)) (w : World rt H)
      → Ready rt H draw w
      → Balanced rt H draw w
          (published_wrap_up rt H draw now agent_id trace_id texts reason_text hooks tools earlier
            selector llm assembler schedule
            (answer, w)).1
  Balanced-published (err e) w r = Balanced-quiet rt H draw w w (Adds-nil rt H draw w r)
  Balanced-published (ok (response, estimated)) w r =
      Balanced-quiet rt H draw w _ (publish_assistant_message-Adds response estimated _ w r)

  Balanced-wrap_up :
      (s : ReactStrategy) (messages : List ChatMessage) (w : World rt H)
      → Ready rt H draw w
      → Balanced rt H draw w
          (wrap_up rt H draw now agent_id trace_id texts reason_text hooks tools earlier selector
            llm assembler schedule s messages w).1
  unfolding wrap_up
  Balanced-wrap_up s [] w r = Balanced-quiet rt H draw w w (Adds-nil rt H draw w r)
  Balanced-wrap_up s (m ∷ ms) w r =
      let b : Adds rt H draw w _ [] [] = call_llm-Adds _ _ s.stream w r in
      Balanced-trans rt H draw w _ _ (Balanced-quiet rt H draw w _ b)
        (Balanced-published _ _ b.ready)

  Balanced-finalize :
      (s : ReactStrategy) (w : World rt H)
      → Ready rt H draw w
      → Balanced rt H draw w
          (finalize rt H draw now agent_id trace_id texts reason_text hooks tools earlier selector
            llm assembler schedule s w).1
  unfolding finalize
  Balanced-finalize s w r =
      let a : Adds rt H draw w _ [] [] = Adds-shared rt H draw w _ r in
      Balanced-trans rt H draw w _ _ (Balanced-quiet rt H draw w _ a)
        (Balanced-wrap_up s _ _ a.ready)

  Balanced-from :
      (s : ReactStrategy) (left step : ℕ) (w : World rt H)
      → Ready rt H draw w
      → Balanced rt H draw w
          (execute_from rt H draw now agent_id trace_id texts reason_text hooks tools earlier
            selector llm assembler schedule s left step w).1
  unfolding execute_from
  Balanced-from s zero step w r =
      if-case (λ (q : Result Unit × World rt H). Balanced rt H draw w q.1) s.finalize_on_max_steps _
        _ (Balanced-finalize s w r) (Balanced-quiet rt H draw w w (Adds-nil rt H draw w r))
  Balanced-from s (suc left) step w r =
      let a : Balanced rt H draw w
          (run_react_step rt H draw now agent_id trace_id texts reason_text hooks tools earlier
            selector llm assembler schedule step
            (options rt H draw now agent_id trace_id texts reason_text hooks tools earlier selector
              llm assembler schedule s)
            s.stream w).1 =
        Balanced-step step
          (options rt H draw now agent_id trace_id texts reason_text hooks tools earlier selector
            llm assembler schedule s)
          s.stream w r in
      after_step-case (λ (q : Result Unit × World rt H). Balanced rt H draw w q.1) _ _ _ (λ q. a)
        (Balanced-trans rt H draw w _ _ a (Balanced-from s left (suc step) _ a.grew.ready))

  -- Whatever the provider answers and however the cycle ends: on a bus without transforms, with new
  -- ids drawn and hooks that publish no proposal and no result, what a cycle adds to the log has as
  -- many results as proposals; in order, each result names the call of its proposal and has the
  -- proposal's event as its parent.
  pub execute-balanced :
      (s : ReactStrategy) (w : World rt H)
      → Ready rt H draw w
      → (added : List Event) × (log
            (execute rt H draw now agent_id trace_id texts reason_text hooks tools earlier selector
              llm assembler schedule s w).1.bus
          ≡ log w.bus ++ added)
        × (results added ≡ proposals added)
  unfolding execute
  execute-balanced s w r =
      let b : Balanced rt H draw w
          (execute_from rt H draw now agent_id trace_id texts reason_text hooks tools earlier
            selector llm assembler schedule s s.max_steps 1 w).1 =
        Balanced-from s s.max_steps 1 w r in
      (b.grew.added, b.grew.logged, b.grew.resulted ∙ sym b.grew.proposed)
