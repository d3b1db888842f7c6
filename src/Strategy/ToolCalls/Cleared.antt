-- ===== src/Strategy/ToolCalls/Cleared.antt =====
-- src/agent/strategy.rs, `execute_tools`: which calls of a batch run.
use eventage_rs.Prelude.{
  ℕ, ◌≡◌, refl, ap, sym, ◌∙◌, String, Bool, true, false, ◌||◌, Option, none, some, List, [], ◌∷◌,
  any, is_some, arith, ◌⊎◌, inl, inr, Bool-cases, Option-cases,
}
use eventage_rs.Json.{Value}
use eventage_rs.Event.{EventId}
use eventage_rs.Runtime.{Runtime}
use eventage_rs.Hook.{HookAction, Reason, proceed, skip, deny, abort_cycle}
use eventage_rs.HookChain.{CycleHook}
use eventage_rs.Message.{ToolCall, ChatMessage}
use eventage_rs.Truncate.{Parsed, parsed, malformed, Texts}
use eventage_rs.Schema.{validate_args}
use eventage_rs.Strategy.{Tool, ToolRegistry, get_tool, ToolExecOptions, World}
use eventage_rs.Strategy.ToolCalls.{
  Veto, ToolPlan, veto_of_action, after_abort, is_aborted, schema_veto, parse_args, ask_hooks,
  plan_call, plan_calls, propose,
}

-- From an abort on, every plan has a veto.
abbrev pub Halted : Bool → List ToolPlan → Type 0
Halted stopped [] = Unit
Halted true (p ∷ plan) = (is_some p.veto ≡ true) × Halted true plan
Halted false (p ∷ plan) = Halted (is_aborted p.veto) plan

action-proceed : (a : HookAction) → veto_of_action a ≡ none → a ≡ proceed
action-proceed proceed e = refl
action-proceed skip e = cc
action-proceed abort_cycle e = cc
action-proceed (deny reason) e = cc

after_abort-none :
    (stopped : Bool) (veto : Option Veto)
    → after_abort stopped veto ≡ none
    → (stopped ≡ false) × (veto ≡ none)
after_abort-none true none e = absurd (cc)
after_abort-none false none e = (refl, refl)
after_abort-none true (some v) e = absurd (cc)
after_abort-none false (some v) e = absurd (cc)

is_some-after_abort : (veto : Option Veto) → is_some (after_abort true veto) ≡ true
is_some-after_abort none = refl
is_some-after_abort (some v) = refl

false-true : false ≡ true → ⊥
false-true e = cc

module _ (rt : Runtime) (H : Type 0) (draw : ℕ → EventId) (now : ℕ) (agent_id trace_id : String)
    (texts : Texts) (reason_text : Reason → String) (hooks : CycleHook (World rt H) ChatMessage)
    (opts : ToolExecOptions) (tools : ToolRegistry H) where
  -- The arguments conform to the schema of the tool, if validation is on and there is such a tool.
  abbrev pub Conforms : String → Value → Type 0
  Conforms name args =
      (opts.validate_args ≡ false)
      ⊎ ((get_tool tools name ≡ none)
          ⊎ ((tool : Tool H) × (get_tool tools name ≡ some tool)
              × (validate_args texts.render texts.print texts.same tool.parameters args ≡ none)))

  -- The plan of a call that was proposed in the world `w` may run: it has the call's id and name, the
  -- call's arguments parsed, they conform to the schema, and the hooks, asked about this tool with
  -- these arguments right after the proposal, said to proceed.
  abbrev pub Passed : ToolCall → World rt H → ToolPlan → Type 0
  Passed tc w p =
      (p.id ≡ tc.id)
      × (p.name ≡ tc.function.name)
      × (texts.parse_json tc.function.arguments ≡ parsed p.args)
      × Conforms p.name p.args
      × ((hooks.before_tool p.name p.args
            (propose rt H draw now agent_id trace_id texts reason_text hooks opts tools tc w)).0
          ≡ proceed)

  -- Call by call, in the worlds in which the calls are proposed: the plan is vetoed, or no call
  -- before it was aborted and it has passed.
  abbrev pub Gated : List ToolCall → Bool → World rt H → List ToolPlan → Type 0
  Gated [] stopped w [] = Unit
  Gated [] stopped w (p ∷ plan) = ⊥
  Gated (tc ∷ calls) stopped w [] = ⊥
  Gated (tc ∷ calls) stopped w (p ∷ plan) =
      ((is_some p.veto ≡ true) ⊎ ((stopped ≡ false) × Passed tc w p))
      × Gated calls (stopped || is_aborted p.veto)
          (plan_call rt H draw now agent_id trace_id texts reason_text hooks opts tools tc stopped
            w).1
          plan

  schema_veto-Conforms :
      (name : String) (args : Value)
      → schema_veto rt H draw now agent_id trace_id texts reason_text hooks opts tools name args
        ≡ none
      → Conforms name args
  unfolding schema_veto
  schema_veto-Conforms name args e = elim (Bool-cases opts.validate_args) [
    | inr off ↦ inl off
    | inl on ↦ inr (elim (Option-cases (get_tool tools name)) [
      | inl absent ↦ inl absent
      | inr (tool, found) ↦ inr (tool, found, go tool on found (Option-cases _))
    ])
  ]
    where
      go :
          (tool : Tool H)
          → opts.validate_args ≡ true
          → get_tool tools name ≡ some tool
          → (validate_args texts.render texts.print texts.same tool.parameters args ≡ none)
            ⊎ ((s : String) × (validate_args texts.render texts.print texts.same tool.parameters
                    args
                  ≡ some s))
          → validate_args texts.render texts.print texts.same tool.parameters args ≡ none
      go tool on found (inl fine) = fine
      go tool on found (inr (s, violated)) =
          let vetoed : is_some (
                schema_veto rt H draw now agent_id trace_id texts reason_text hooks opts tools name
                  args)
              ≡ true =
            rw (on, schema_veto) (rw found (rw violated refl)) in
          absurd (false-true (sym (ap (λ (o : Option Veto). is_some o) e) ∙ vetoed))

  ask_hooks-none :
      (name : String) (args : Value) (veto : Option Veto) (w : World rt H)
      → (ask_hooks rt H draw now agent_id trace_id texts reason_text hooks opts tools name args veto
          w).0
        ≡ none
      → (veto ≡ none) × ((hooks.before_tool name args w).0 ≡ proceed)
  unfolding ask_hooks
  ask_hooks-none name args none w e = (refl, action-proceed _ e)
  ask_hooks-none name args (some v) w e = absurd (cc)

  parsed-none :
      (tc : ToolCall) (q : Parsed)
      → texts.parse_json tc.function.arguments ≡ q
      → (parse_args rt H draw now agent_id trace_id texts reason_text hooks opts tools tc).1 ≡ none
      → (texts.parse_json tc.function.arguments
          ≡ parsed
              (parse_args rt H draw now agent_id trace_id texts reason_text hooks opts tools tc).0)
        × (schema_veto rt H draw now agent_id trace_id texts reason_text hooks opts tools
              tc.function.name
              (parse_args rt H draw now agent_id trace_id texts reason_text hooks opts tools tc).0
            ≡ none)
  unfolding parse_args
  parsed-none tc (parsed v) q e =
      let whole : parse_args rt H draw now agent_id trace_id texts reason_text hooks opts tools tc
          ≡ (
            v,
            schema_veto rt H draw now agent_id trace_id texts reason_text hooks opts tools
                tc.function.name v,
          ) =
        rw (q, parse_args) refl in
      (
        q ∙ ap (λ (r : Value × Option Veto). parsed r.0) (sym whole),
        ap
              (λ (r : Value × Option Veto).
                schema_veto rt H draw now agent_id trace_id texts reason_text hooks opts tools
                  tc.function.name r.0)
              whole
            ∙ sym (ap (λ (r : Value × Option Veto). r.1) whole)
            ∙ e,
      )
  parsed-none tc (malformed m) q e =
      let vetoed : is_some
            (parse_args rt H draw now agent_id trace_id texts reason_text hooks opts tools tc).1
          ≡ true =
        rw (q, parse_args) refl in
      absurd (false-true (sym (ap (λ (o : Option Veto). is_some o) e) ∙ vetoed))

  plan_call-Passed :
      (tc : ToolCall) (stopped : Bool) (w : World rt H)
      → (plan_call rt H draw now agent_id trace_id texts reason_text hooks opts tools tc stopped
          w).0.veto
        ≡ none
      → (stopped ≡ false)
        × Passed tc w
            (plan_call rt H draw now agent_id trace_id texts reason_text hooks opts tools tc stopped
              w).0
  unfolding plan_call
  plan_call-Passed tc stopped w e =
      let (open_yet, unvetoed) = after_abort-none stopped _ e in
      let (early, asked) = ask_hooks-none tc.function.name _ _ _ unvetoed in
      let (read, conforms) = parsed-none tc _ refl early in
      (open_yet, (refl, refl, read, schema_veto-Conforms _ _ conforms, asked))

  plan_call-Gated :
      (tc : ToolCall) (stopped : Bool) (w : World rt H)
      → (is_some
            (plan_call rt H draw now agent_id trace_id texts reason_text hooks opts tools tc stopped
              w).0.veto
          ≡ true)
        ⊎ ((stopped ≡ false)
            × Passed tc w
                (plan_call rt H draw now agent_id trace_id texts reason_text hooks opts tools tc
                  stopped w).0)
  plan_call-Gated tc stopped w =
      elim (Option-cases
        (plan_call rt H draw now agent_id trace_id texts reason_text hooks opts tools tc stopped
          w).0.veto) [
            | inl cleared ↦ inr (plan_call-Passed tc stopped w cleared)
            | inr (v, vetoed) ↦ inl (ap (λ (o : Option Veto). is_some o) vetoed)
          ]

  plan_call-Halted :
      (tc : ToolCall) (w : World rt H)
      → is_some
          (plan_call rt H draw now agent_id trace_id texts reason_text hooks opts tools tc true
            w).0.veto
        ≡ true
  unfolding plan_call
  plan_call-Halted tc w = is_some-after_abort _

  -- Each call of a batch gets one plan, in order. A plan that no veto stops belongs to its call: it
  -- has the call's id and name, the call's arguments parsed, they conform to the tool's schema (if the
  -- tool is known and validation is on), and the hooks, asked right after this call was proposed,
  -- said to proceed. After the first abort every plan has a veto; and the batch reports an abort
  -- exactly if a plan was aborted.
  pub plan_calls-Cleared :
      (calls : List ToolCall) (stopped : Bool) (w : World rt H)
      → Gated calls stopped w
          (plan_calls rt H draw now agent_id trace_id texts reason_text hooks opts tools calls
            stopped w).0
        × Halted stopped
            (plan_calls rt H draw now agent_id trace_id texts reason_text hooks opts tools calls
              stopped w).0
        × ((plan_calls rt H draw now agent_id trace_id texts reason_text hooks opts tools calls
              stopped w).1
            ≡ (stopped
                || any
                    (λ p. is_aborted p.veto)
                    (plan_calls rt H draw now agent_id trace_id texts reason_text hooks opts tools
                      calls stopped w).0))
  unfolding plan_calls
  plan_calls-Cleared [] stopped w = (tt, tt, ground arith)
  plan_calls-Cleared (tc ∷ calls) true w =
      let (gated, halted, reported) = plan_calls-Cleared calls true _ in
      ((plan_call-Gated tc true w, gated), (plan_call-Halted tc w, halted), reported)
  plan_calls-Cleared (tc ∷ calls) false w =
      let (gated, halted, reported) = plan_calls-Cleared calls _ _ in
      ((plan_call-Gated tc false w, gated), halted, reported)
