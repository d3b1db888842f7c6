-- ===== src/Strategy/ToolCalls/Answered.antt =====
-- src/agent/strategy.rs, `execute_tools`: what a batch of tool calls leaves in the log.
use mathlib.Core.List.{append-nil}
use eventage_rs.Prelude.{
  ℕ, suc, ◌+◌, ◌≡◌, refl, ap, ap₂, sym, subst, ◌∙◌, String, Bool, false, Option, none, some, List,
  [], ◌∷◌, ◌++◌, map, get_elem?, arith,
}
use eventage_rs.Json.{Value}
use eventage_rs.Event.{Event, EventId}
use eventage_rs.Runtime.{Runtime}
use eventage_rs.Hook.{Reason}
use eventage_rs.HookChain.{CycleHook}
use eventage_rs.Message.{ToolCall, ChatMessage}
use eventage_rs.Bus.{log}
use eventage_rs.Truncate.{Texts}
use eventage_rs.Strategy.{ToolRegistry, ToolExecOptions, World}
use eventage_rs.Strategy.ToolCalls.{
  Veto, ToolPlan, ResultMap, join_all, result_payload, result_value, take_result, ask_hooks,
  propose, plan_call, plan_calls, publish_result, publish_results, execute_tools,
}
use eventage_rs.Strategy.ToolCalls.Tickets.{
  Ticket, proposals, results, Ready, Adds, Adds-nil, Adds-shared, Adds-trans, emit-Adds,
}
use eventage_rs.Strategy.ToolCalls.Naming.{
  Names, NamesIf, take_result-Names, AllNamed, join_all-AllNamed, result_payload-Names,
}

abbrev ticket : ToolPlan → Ticket
ticket p = (some p.id, some p.proposed_event_id)

tickets-ids :
    (plan : List ToolPlan)
    → map (λ (t : Ticket). t.0) (map ticket plan)
      ≡ map (λ (s : String). some s) (map (λ (p : ToolPlan). p.id) plan)
tickets-ids [] = refl
tickets-ids (p ∷ plan) = ap (◌∷◌ (some p.id)) (tickets-ids plan)

some_ids :
    (calls : List ToolCall)
    → map (λ (s : String). some s) (map (λ (tc : ToolCall). tc.id) calls)
      ≡ map (λ (tc : ToolCall). some tc.id) calls
some_ids [] = refl
some_ids (tc ∷ calls) = ap (◌∷◌ (some tc.id)) (some_ids calls)

tickets-named :
    (plan : List ToolPlan) (calls : List ToolCall)
    → map (λ (p : ToolPlan). p.id) plan ≡ map (λ (tc : ToolCall). tc.id) calls
    → map (λ (t : Ticket). t.0) (map ticket plan) ≡ map (λ (tc : ToolCall). some tc.id) calls
tickets-named plan calls e = tickets-ids plan ∙ ap (map (λ (s : String). some s)) e ∙ some_ids calls

module _ (rt : Runtime) (H : Type 0) (draw : ℕ → EventId) (now : ℕ) (agent_id trace_id : String)
    (injective : (j k : ℕ) → draw j ≡ draw k → j ≡ k) where
  module _ (texts : Texts) (reason_text : Reason → String)
      (hooks : CycleHook (World rt H) ChatMessage) (opts : ToolExecOptions) (tools : ToolRegistry H)
      (before : (name : String) (args : Value) (w : World rt H)
        → Ready rt H draw w
        → Adds rt H draw w (hooks.before_tool name args w).1 [] [])
      (after : (name : String) (result : Value) (w : World rt H)
        → Ready rt H draw w
        → Adds rt H draw w (hooks.after_tool name result w) [] []) where
    propose-Adds :
        (tc : ToolCall) (w : World rt H)
        → Ready rt H draw w
        → Adds rt H draw w
            (propose rt H draw now agent_id trace_id texts reason_text hooks opts tools tc w)
            ((some tc.id, some (draw w.drawn)) ∷ [])
            []
    unfolding propose
    propose-Adds tc w r = emit-Adds rt H draw now agent_id trace_id injective w _ refl r

    ask_hooks-Adds :
        (name : String) (args : Value) (veto : Option Veto) (w : World rt H)
        → Ready rt H draw w
        → Adds rt H draw w
            (ask_hooks rt H draw now agent_id trace_id texts reason_text hooks opts tools name args
              veto w).1
            []
            []
    unfolding ask_hooks
    ask_hooks-Adds name args (some veto) w r = Adds-nil rt H draw w r
    ask_hooks-Adds name args none w r = before name args w r

    publish_result-Adds :
        (p : ToolPlan) (payload : Value) (w : World rt H)
        → Names p.id payload
        → Ready rt H draw w
        → Adds rt H draw w
            (publish_result rt H draw now agent_id trace_id texts reason_text hooks opts tools p
              payload w)
            []
            (ticket p ∷ [])
    unfolding publish_result
    publish_result-Adds p payload w named r =
        let a : Adds rt H draw w
            (hooks.after_tool p.name
              (result_value rt H draw now agent_id trace_id texts reason_text hooks opts tools
                payload)
              w)
            [] [] =
          after p.name _ w r in
        subst
          (λ t.
            Adds rt H draw w
              (publish_result rt H draw now agent_id trace_id texts reason_text hooks opts tools p
                payload w)
              [] ((t, some p.proposed_event_id) ∷ []))
          (rw named refl)
          (Adds-trans rt H draw w _ _ [] [] [] _ a
            (emit-Adds rt H draw now agent_id trace_id injective _ _ refl a.ready))

    plan_call-Adds :
        (tc : ToolCall) (stopped : Bool) (w : World rt H)
        → Ready rt H draw w
        → Adds rt H draw w
            (plan_call rt H draw now agent_id trace_id texts reason_text hooks opts tools tc stopped
              w).1
            (ticket
                (plan_call rt H draw now agent_id trace_id texts reason_text hooks opts tools tc
                  stopped w).0
              ∷ [])
            []
    unfolding plan_call
    plan_call-Adds tc stopped w r =
        let a : Adds rt H draw w
            (propose rt H draw now agent_id trace_id texts reason_text hooks opts tools tc w)
            ((some tc.id, some (draw w.drawn)) ∷ []) [] =
          propose-Adds tc w r in
        Adds-trans rt H draw w _ _ ((some tc.id, some (draw w.drawn)) ∷ []) [] [] [] a
          (ask_hooks-Adds tc.function.name _ _ _ a.ready)

    plan_calls-Adds :
        (calls : List ToolCall) (stopped : Bool) (w : World rt H)
        → Ready rt H draw w
        → Adds rt H draw w
            (plan_calls rt H draw now agent_id trace_id texts reason_text hooks opts tools calls
              stopped w).2
            (map ticket
              (plan_calls rt H draw now agent_id trace_id texts reason_text hooks opts tools calls
                stopped w).0)
            []
          × (map
                (λ (p : ToolPlan). p.id)
                (plan_calls rt H draw now agent_id trace_id texts reason_text hooks opts tools calls
                  stopped w).0
              ≡ map (λ (tc : ToolCall). tc.id) calls)
    unfolding plan_calls
    plan_calls-Adds [] stopped w r = (Adds-nil rt H draw w r, refl)
    plan_calls-Adds (tc ∷ calls) stopped w r =
        let a : Adds rt H draw w _ _ [] = plan_call-Adds tc stopped w r in
        let (b, names) = plan_calls-Adds calls _ _ a.ready in
        (Adds-trans rt H draw w _ _ _ [] _ [] a b, ap₂ ◌∷◌ (unfold plan_call in refl) names)

    -- The plans and results from index `i` on.
    publish_results-Adds :
        (plan : List ToolPlan) (i : ℕ) (m : ResultMap) (w : World rt H)
        → ((j : ℕ) (p : ToolPlan) → get_elem? plan j ≡ some p → NamesIf p.id (m (i + j)))
        → Ready rt H draw w
        → Adds rt H draw w
            (publish_results rt H draw now agent_id trace_id texts reason_text hooks opts tools plan
              i m w).1
            []
            (map ticket plan)
    unfolding publish_results
    publish_results-Adds [] i m w h r = Adds-nil rt H draw w r
    publish_results-Adds (p ∷ plan) i m w h r =
        let a : Adds rt H draw w _ [] (ticket p ∷ []) =
          publish_result-Adds p (result_payload texts reason_text p (m i)) w
            (result_payload-Names texts reason_text opts p (m i)
              (subst (λ k. NamesIf p.id (m k)) {x = i + 0} {y = i} (omega arith) (h 0 p refl)))
            r in
        Adds-trans rt H draw w _ _ [] (ticket p ∷ []) [] _ a (
          publish_results-Adds plan (suc i) (take_result p.veto i m) _
            (λ j q at. take_result-Names q.id p.veto i (suc i + j) m (
              subst (λ k. NamesIf q.id (m k)) {x = i + suc j} {y = suc i + j} (omega arith)
                (h (suc j) q at)))
            a.ready)

    -- The plan of a batch in the world `w`.
    abbrev planned : List ToolCall → World rt H → List ToolPlan
    planned calls w =
        (plan_calls rt H draw now agent_id trace_id texts reason_text hooks opts tools calls false
          w).0

    batch-Adds :
        (calls : List ToolCall) (order : List ℕ) (w : World rt H)
        → Ready rt H draw w
        → Adds rt H draw w
            (execute_tools rt H draw now agent_id trace_id texts reason_text hooks opts tools calls
              order w).1
            (map ticket (planned calls w) ++ [])
            (map ticket (planned calls w))
    unfolding execute_tools
    batch-Adds calls order w r =
        let (a, _) = plan_calls-Adds calls false w r in
        let w1 : World rt H =
          (plan_calls rt H draw now agent_id trace_id texts reason_text hooks opts tools calls false
            w).2 in
        let joined : ResultMap × H =
          join_all texts reason_text opts tools (planned calls w) order (λ i. none, w1.shared) in
        let named : AllNamed (planned calls w) joined.0 =
          join_all-AllNamed texts reason_text opts tools (planned calls w) order (λ i. none)
            w1.shared (λ i p at. tt) in
        let b : Adds rt H draw w1 (record w1 { shared = joined.1 }) [] [] =
          Adds-shared rt H draw w1 joined.1 a.ready in
        Adds-trans rt H draw w _ _ _ [] [] _ a (
          Adds-trans rt H draw w1 _ _ [] [] [] _ b (
            publish_results-Adds (planned calls w) 0 _ _
              (λ i p at.
                subst (λ k. NamesIf p.id (joined.0 k)) {x = i} {y = 0 + i} (omega arith)
                  (named i p at))
              b.ready))

    pub batch_balance :
        (calls : List ToolCall) (order : List ℕ) (w : World rt H)
        → Ready rt H draw w
        → (ts : List Ticket) × Adds rt H draw w
            (execute_tools rt H draw now agent_id trace_id texts reason_text hooks opts tools calls
              order w).1
            ts
            ts
    batch_balance calls order w r = (
      map ticket (planned calls w),
      subst
          (λ ts.
            Adds rt H draw w
              (execute_tools rt H draw now agent_id trace_id texts reason_text hooks opts tools
                calls order w).1
              ts (map ticket (planned calls w)))
          (append-nil (map ticket (planned calls w))) (batch-Adds calls order w r),
    )

    -- On a bus without transforms, with new ids drawn and hooks that publish no proposal and no
    -- result: a batch adds to the log one proposal and one result for each call, both in the order of
    -- the calls, whatever the vetoes are, in whatever order the tasks end, and also for a task that
    -- panics; each result has the event of its own proposal as its parent.
    pub execute_tools-answered :
        (calls : List ToolCall) (order : List ℕ) (w : World rt H)
        → Ready rt H draw w
        → (added : List Event) × (log
              (execute_tools rt H draw now agent_id trace_id texts reason_text hooks opts tools
                calls order w).1.bus
            ≡ log w.bus ++ added)
          × (results added ≡ proposals added)
          × (map (λ (t : Ticket). t.0) (proposals added)
              ≡ map (λ (tc : ToolCall). some tc.id) calls)
    execute_tools-answered calls order w r =
        let c : Adds rt H draw w _ (map ticket (planned calls w) ++ [])
            (map ticket (planned calls w)) =
          batch-Adds calls order w r in
        let asked : proposals c.added ≡ map ticket (planned calls w) =
          c.proposed ∙ append-nil (map ticket (planned calls w)) in
        (
          c.added,
          c.logged,
          c.resulted ∙ sym asked,
          ap (map (λ (t : Ticket). t.0)) asked
              ∙ tickets-named (planned calls w) calls ((plan_calls-Adds calls false w r).1),
        )
