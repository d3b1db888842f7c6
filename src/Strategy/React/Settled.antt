-- ===== src/Strategy/React/Settled.antt =====
-- src/agent/strategy.rs and src/agent/recovery.rs: what a cycle leaves for a recovery.
use eventage_rs.Prelude.{
  ℕ, ◌≡◌, refl, ap₂, subst, ◌∙◌, String, Bool, true, false, Option, none, some, cons_some, and_then,
  if◌then◌else◌, List, [], ◌∷◌, ◌++◌, filter_map, filter_map-append, All, arith, str_eq,
  str_eq_refl,
}
use eventage_rs.Json.{Value}
use eventage_rs.Event.{Event, EventId}
use eventage_rs.Event.Kinds
use eventage_rs.Runtime.{Runtime}
use eventage_rs.Hook.{Reason}
use eventage_rs.HookChain.{CycleHook}
use eventage_rs.Message.{ChatMessage}
use eventage_rs.Bus.{log}
use eventage_rs.Recovery.{
  OrphanedCall, unanswered, answered, answered_id, has_text, orphan_of, str_field,
  find_orphaned_tool_calls,
}
use eventage_rs.Recovery.Reconciled.{orphans-answered, has_text-append}
use eventage_rs.Truncate.{Texts}
use eventage_rs.Strategy.{Tool, ToolRegistry, World}
use eventage_rs.Strategy.ToolCalls.Tickets.{Ticket, proposals, results, Ready, Adds}
use eventage_rs.Strategy.React.{LlmProvider, ReactStrategy, execute}
use eventage_rs.Strategy.React.Balance.{execute-balanced}

-- A ticket's call is among the answered ones.
abbrev InIds : List String → Option String → Type 0
InIds ids none = Unit
InIds ids (some id) = has_text ids id ≡ true

abbrev AllIn : List String → List Ticket → Type 0
AllIn ids ts = All (λ (t : Ticket). InIds ids t.0) ts

one-proposal :
    (ids : List String) (b : Bool) (o : Option String) (i : EventId) (e : Event) (ts : List Ticket)
    (calls : List OrphanedCall)
    → (AllIn ids ts → calls ≡ [])
    → AllIn ids (cons_some (if b then some (o, some i) else none) ts)
    → cons_some (if b then and_then o (unanswered ids e) else none) calls ≡ []
one-proposal ids false o i e ts calls k h = k h
one-proposal ids true none i e ts calls k h = k h.1
one-proposal ids true (some id) i e ts calls k h = rw (h.0) (k h.1)

proposals-answered :
    (ids : List String) (es : List Event)
    → AllIn ids (proposals es)
    → filter_map (orphan_of ids) es ≡ []
proposals-answered ids [] h = refl
proposals-answered ids (e ∷ es) h =
    one-proposal ids (str_eq e.kind Kinds.tool_call_proposed) (str_field e "tool_call_id") e.id e
      (proposals es) (filter_map (orphan_of ids) es) (proposals-answered ids es) h

abbrev Within : List String → List String → Type 0
Within some_ids ids = (s : String) → has_text some_ids s ≡ true → has_text ids s ≡ true

one-result :
    (ids : List String) (b : Bool) (o : Option String) (p : Option EventId) (ts : List Ticket)
    (answers : List String)
    → (Within answers ids → AllIn ids ts)
    → Within (cons_some (if b then o else none) answers) ids
    → AllIn ids (cons_some (if b then some (o, p) else none) ts)
one-result ids false o p ts answers k h = k h
one-result ids true none p ts answers k h = (tt, k h)
one-result ids true (some id) p ts answers k h =
    (h id (ground (arith, str_eq_refl id)), k (λ s e. h s (ground (arith, e))))

results-answered :
    (ids : List String) (es : List Event) → Within (answered es) ids → AllIn ids (results es)
results-answered ids [] h = tt
results-answered ids (e ∷ es) h =
    one-result ids (str_eq e.kind Kinds.tool_result) (str_field e "tool_call_id") e.parent_event_id
      (results es) (answered es) (results-answered ids es) h

-- Where the added results match the added proposals, no orphan is added.
matched-settled :
    (old added : List Event)
    → find_orphaned_tool_calls old ≡ []
    → results added ≡ proposals added
    → find_orphaned_tool_calls (old ++ added) ≡ []
unfolding find_orphaned_tool_calls
matched-settled old added none_before matched = rw (filter_map-append answered_id old added) (
    filter_map-append (orphan_of ids) old added
    ∙ ap₂ ◌++◌ (orphans-answered (answered old) (answered added) old (rw none_before tt)) (
        proposals-answered ids added (
          subst (AllIn ids) matched (
            results-answered ids added
              (λ s e. ground (arith, e, has_text-append (answered old) (answered added) s))))))
  where
    ids : List String
    ids = answered old ++ answered added

module _ (rt : Runtime) (H : Type 0) (draw : ℕ → EventId) (now : ℕ) (agent_id trace_id : String)
    (injective : (j k : ℕ) → draw j ≡ draw k → j ≡ k) (texts : Texts)
    (reason_text : Reason → String) (hooks : CycleHook (World rt H) ChatMessage)
    (tools : ToolRegistry H) (earlier : String → String → Bool)
    (selector : Option (List (Tool H) → List ChatMessage → List (Tool H))) (llm : LlmProvider H)
    (assembler : List Event → List (List Event) → H → List ChatMessage × H)
    (schedule : World rt H → List ℕ)
    (before_tool : (name : String) (args : Value) (w : World rt H)
      → Ready rt H draw w
      → Adds rt H draw w (hooks.before_tool name args w).1 [] [])
    (after_tool : (name : String) (result : Value) (w : World rt H)
      → Ready rt H draw w
      → Adds rt H draw w (hooks.after_tool name result w) [] [])
    (before_llm : (messages : List ChatMessage) (w : World rt H)
      → Ready rt H draw w
      → Adds rt H draw w (hooks.before_llm (w, messages)).1.0 [] [])
    (before_step : (w : World rt H)
      → Ready rt H draw w
      → Adds rt H draw w (hooks.before_step w).1 [] []) where
  -- If a recovery would find no interrupted call in the log before a cycle, it finds none after it,
  -- however the cycle ends: on a bus without transforms, with new ids drawn and hooks that publish
  -- no proposal and no result.
  pub execute-settled :
      (s : ReactStrategy) (w : World rt H)
      → Ready rt H draw w
      → find_orphaned_tool_calls (log w.bus) ≡ []
      → find_orphaned_tool_calls (
          log
            (execute rt H draw now agent_id trace_id texts reason_text hooks tools earlier selector
              llm assembler schedule s w).1.bus)
        ≡ []
  execute-settled s w r none_before =
      let (added, logged, matched) =
        execute-balanced rt H draw now agent_id trace_id injective texts reason_text hooks tools
          earlier selector llm assembler schedule before_tool after_tool before_llm before_step s w
          r in
      rw logged (matched-settled (log w.bus) added none_before matched)
