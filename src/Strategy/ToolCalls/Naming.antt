-- ===== src/Strategy/ToolCalls/Naming.antt =====
-- src/agent/strategy.rs, `execute_tools`: every payload of a result names its call.
use eventage_rs.Prelude.{
  ℕ, ◌≡◌, refl, subst, String, ◌==◌, inl, inr, Option, none, some, List, [], ◌∷◌, get_elem?,
  unwrap_or, arith, Bool-cases, Option-cases,
}
use eventage_rs.Json.{Value, text, get_field}
use eventage_rs.Hook.{Reason}
use eventage_rs.Recovery.{Outcome, success, failure}
use eventage_rs.Truncate.{Texts, cap_result_value}
use eventage_rs.Strategy.{TaskEnd, took, panicked, ToolRegistry, get_tool, ToolExecOptions}
use eventage_rs.Strategy.ToolCalls.{
  Veto, skipped, aborted, denied, bad_args, ToolPlan, ResultMap, veto_payload, outcome_payload,
  ended_payload, task_payload, finish_task, join_all, result_payload, spawned, take_result,
  keep_result,
}

-- What names a call in a payload.
abbrev pub Names : String → Value → Type 0
Names id payload = get_field payload "tool_call_id" ≡ some (text id)

abbrev pub NamesIf : String → Option Value → Type 0
NamesIf id none = Unit
NamesIf id (some payload) = Names id payload

pub unwrap_or-Names :
    (id : String) (o : Option Value) (d : Value)
    → Names id d
    → NamesIf id o
    → Names id (unwrap_or o d)
unwrap_or-Names id none d h k = h
unwrap_or-Names id (some v) d h k = k

pub take_result-Names :
    (id : String) (veto : Option Veto) (i k : ℕ) (m : ResultMap)
    → NamesIf id (m k)
    → NamesIf id (take_result veto i m k)
take_result-Names id (some v) i k m h = h
take_result-Names id none i k m h = elim (Bool-cases (k == i)) [
  | inl same ↦ rw same tt
  | inr other ↦ rw other h
]

module _ (texts : Texts) (reason_text : Reason → String) (opts : ToolExecOptions) where
  pub outcome_payload-Names :
      (p : ToolPlan) (o : Outcome) → Names p.id (outcome_payload texts reason_text opts p o)
  unfolding outcome_payload
  outcome_payload-Names p (failure message) = refl
  outcome_payload-Names p (success r) =
      elim (Bool-cases (texts.same (cap_result_value texts r opts.max_result_chars) r)) [
        | inl whole ↦ rw whole refl
        | inr cut ↦ rw cut refl
      ]

  pub veto_payload-Names :
      (p : ToolPlan) (v : Veto) → Names p.id (veto_payload texts reason_text p v)
  unfolding veto_payload
  veto_payload-Names p skipped = refl
  veto_payload-Names p aborted = refl
  veto_payload-Names p (denied reason) = refl
  veto_payload-Names p (bad_args error) = refl

  task_end-Names :
      (p : ToolPlan) (t : TaskEnd) → NamesIf p.id (ended_payload texts reason_text opts p t)
  task_end-Names p panicked = tt
  task_end-Names p (took elapsed outcome) = outcome_payload-Names p _

  pub result_payload-Names :
      (p : ToolPlan) (o : Option Value)
      → NamesIf p.id o
      → Names p.id (result_payload texts reason_text p o)
  unfolding result_payload
  result_payload-Names p o h = elim (Option-cases p.veto) [
    | inr (v, vetoed) ↦ rw (vetoed, result_payload) (veto_payload-Names p v)
    | inl cleared ↦ rw (cleared, result_payload) (unwrap_or-Names p.id o _ refl h)
  ]

pub NamesIf-insert :
    (id : String) (i j : ℕ) (o : Option Value) (m : ResultMap)
    → (i ≡ j → NamesIf id o)
    → NamesIf id (m i)
    → NamesIf id (keep_result j o m i)
NamesIf-insert id i j none m here h = h
NamesIf-insert id i j (some v) m here h = elim (Bool-cases (i == j)) [
  | inl same ↦ rw same (here (ground arith))
  | inr other ↦ rw other h
]

-- Every joined result names the call of its plan.
abbrev pub AllNamed : List ToolPlan → ResultMap → Type 0
AllNamed plan m = (i : ℕ) (p : ToolPlan) → get_elem? plan i ≡ some p → NamesIf p.id (m i)

module _ {H : Type 0} (texts : Texts) (reason_text : Reason → String) (opts : ToolExecOptions)
    (tools : ToolRegistry H) where
  task_payload-Names :
      (p : ToolPlan) (shared : H)
      → NamesIf p.id (task_payload texts reason_text opts tools p shared).0
  unfolding task_payload
  task_payload-Names p shared = elim (Option-cases (get_tool tools p.name)) [
    | inl absent ↦ rw (absent, task_payload) refl
    | inr (tool, found) ↦
        rw (found, task_payload)
          (task_end-Names texts reason_text opts p (tool.execute p.args shared).0)
  ]

  finish_task-AllNamed :
      (plan : List ToolPlan) (i : ℕ) (m : ResultMap) (shared : H)
      → AllNamed plan m
      → AllNamed plan (finish_task texts reason_text opts tools i (get_elem? plan i) (m, shared)).0
  finish_task-AllNamed plan i m shared h j p at = elim (Option-cases (get_elem? plan i)) [
    | inl out ↦ rw out (h j p at)
    | inr (q, found) ↦ rw found (elim (Bool-cases (spawned texts reason_text opts tools q)) [
      | inr vetoed ↦ rw vetoed (h j p at)
      | inl runs ↦ rw runs (
          NamesIf-insert p.id j i (task_payload texts reason_text opts tools q shared).0 m
            (λ (e : j ≡ i).
              subst
                (λ (r : ToolPlan).
                  NamesIf r.id (task_payload texts reason_text opts tools q shared).0)
                {x = q} {y = p} (cc) (task_payload-Names q shared))
            (h j p at))
    ])
  ]

  pub join_all-AllNamed :
      (plan : List ToolPlan) (order : List ℕ) (m : ResultMap) (shared : H)
      → AllNamed plan m
      → AllNamed plan (join_all texts reason_text opts tools plan order (m, shared)).0
  unfolding join_all
  join_all-AllNamed plan [] m shared h = h
  join_all-AllNamed plan (i ∷ order) m shared h =
      let next = finish_task texts reason_text opts tools i (get_elem? plan i) (m, shared) in
      join_all-AllNamed plan order next.0 next.1 (finish_task-AllNamed plan i m shared h)
