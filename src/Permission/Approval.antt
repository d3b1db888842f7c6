-- ===== src/Permission/Approval.antt =====
-- A tool call goes ahead only under an allowing rule or an approval, and the first answer counts.
use eventage_rs.Prelude.{
  ℕ, ◌≡◌, ◌↔◌, ◌⊎◌, inl, inr, refl, sym, String, Bool, true, false, none, some, List, [], ◌∷◌, ◌++◌,
  find, arith, Bool-cases, if◌then◌else◌, ap, ◌∙◌, Option, and_then, unwrap_or, str_eq, str_eq_refl,
  eq_iff,
}
use eventage_rs.Event.Kinds
use eventage_rs.Json.{Value, null, boolean, number, text, array, object, get_field, as_str, as_bool}
use eventage_rs.Event.{Event, EventId}
use eventage_rs.Runtime.{Runtime}
use eventage_rs.Bus.{Bus}
use eventage_rs.Glob.{glob_match}
use eventage_rs.Hook.{proceed}
use eventage_rs.Permission.{
  PermissionVerdict, PermissionRule, PermissionPolicyHook, allow, deny_with, ask, verdict_for, Wait,
  timed_out, closed, received, answers, approves, verdict_of, await_decision, ask_for_approval,
  before_tool, decide, add_rule, verdict_or, text_is,
}

contradicted : true ≡ false → ⊥
contradicted h = cc

-- The verdict is that of the first rule whose pattern matches the tool, or else the default.
abbrev pub DecidedBy : List PermissionRule → PermissionVerdict → String → PermissionVerdict → Type 0
DecidedBy [] default_verdict tool v = default_verdict ≡ v
DecidedBy (r ∷ rules) default_verdict tool v =
    ((glob_match r.pattern tool ≡ true) × (r.verdict ≡ v))
    ⊎ ((glob_match r.pattern tool ≡ false) × DecidedBy rules default_verdict tool v)

find-DecidedBy :
    (rules : List PermissionRule) (d : PermissionVerdict) (tool : String) (v : PermissionVerdict)
    → (verdict_or d (find (λ r. glob_match r.pattern tool) rules) ≡ v) ↔ DecidedBy rules d tool v
find-DecidedBy [] d tool v = (λ h. h, λ h. h)
find-DecidedBy (r ∷ rules) d tool v =
    let (to, from) = find-DecidedBy rules d tool v in
    elim (Bool-cases (glob_match r.pattern tool)) [
      | inl matches ↦ rw matches (
        λ h. inl (refl, h),
        λ k. elim k [ inl (_, h) ↦ h | inr (other, _) ↦ absurd (contradicted other) ],
      )
      | inr other ↦ rw other (
        λ h. inr (refl, to h),
        λ k. elim k [
          | inl (matches, _) ↦ absurd (contradicted (sym matches))
          | inr (_, h) ↦ from h
        ],
      )
    ]

-- A decision event of the request, and one that approves.
abbrev pub IsDecision : String → Event → Type 0
IsDecision request_id e =
    (e.kind ≡ "permission.decision") × (get_field e.payload "request_id" ≡ some (text request_id))

abbrev pub IsApproval : Event → Type 0
IsApproval e = get_field e.payload "approve" ≡ some (boolean true)

-- `d` is the first decision of the request in the wait.
abbrev pub FirstAnswer : String → Wait → Event → Type 0
FirstAnswer request_id timed_out d = ⊥
FirstAnswer request_id closed d = ⊥
FirstAnswer request_id (received e wait) d =
    (IsDecision request_id e × (d ≡ e))
    ⊎ (¬ IsDecision request_id e × FirstAnswer request_id wait d)

text_is-some :
    (o : Option Value) (s : String) → (text_is (and_then o as_str) s ≡ true) ↔ (o ≡ some (text s))
text_is-some none s = (λ h. cc, λ h. cc)
text_is-some (some (text t)) s = (
  λ h. ap (λ u. some (text u)) ((eq_iff t s).0 h),
  λ h. let same : t ≡ s = cc in rw same (str_eq_refl s),
)
text_is-some (some null) s = (λ h. cc, λ h. cc)
text_is-some (some (boolean b)) s = (λ h. cc, λ h. cc)
text_is-some (some (number n)) s = (λ h. cc, λ h. cc)
text_is-some (some (array vs)) s = (λ h. cc, λ h. cc)
text_is-some (some (object fs)) s = (λ h. cc, λ h. cc)

answers_iff :
    (request_id : String) (e : Event) → (answers request_id e ≡ true) ↔ IsDecision request_id e
unfolding answers
answers_iff request_id e = elim (Bool-cases (str_eq e.kind Kinds.permission_decision)) [
  | inl same ↦
      let (to, from) = text_is-some (get_field e.payload "request_id") request_id in
      rw same (λ h. ((eq_iff e.kind Kinds.permission_decision).0 same, to h), λ (k, h). from h)
  | inr other ↦ rw other (
    λ h. absurd (contradicted (sym h)),
    λ (k, h). absurd (contradicted (sym ((eq_iff e.kind Kinds.permission_decision).1 k) ∙ other)),
  )
]

bool_or_false :
    (o : Option Value) → (unwrap_or (and_then o as_bool) false ≡ true) ↔ (o ≡ some (boolean true))
bool_or_false none = (λ h. cc, λ h. cc)
bool_or_false (some (boolean true)) = (λ h. refl, λ h. refl)
bool_or_false (some (boolean false)) = (λ h. cc, λ h. cc)
bool_or_false (some (text t)) = (λ h. cc, λ h. cc)
bool_or_false (some null) = (λ h. cc, λ h. cc)
bool_or_false (some (number n)) = (λ h. cc, λ h. cc)
bool_or_false (some (array vs)) = (λ h. cc, λ h. cc)
bool_or_false (some (object fs)) = (λ h. cc, λ h. cc)

approves_iff : (e : Event) → (approves e ≡ true) ↔ IsApproval e
unfolding approves
approves_iff e = bool_or_false (get_field e.payload "approve")

verdict_of-proceed : (e : Event) → (verdict_of e ≡ proceed) ↔ IsApproval e
unfolding verdict_of
verdict_of-proceed e = elim (Bool-cases (approves e)) [
  | inl y ↦ rw y (λ _. (approves_iff e).0 y, λ _. refl)
  | inr n ↦ rw n (λ h. cc, λ a. absurd (contradicted (sym ((approves_iff e).1 a) ∙ n)))
]

await_decision-proceed :
    (request_id tool : String) (secs : ℕ) (wait : Wait)
    → (await_decision request_id tool secs wait ≡ proceed)
      ↔ ((d : Event) × FirstAnswer request_id wait d × IsApproval d)
unfolding await_decision
await_decision-proceed request_id tool secs timed_out = (λ h. cc, λ (d, f, a). absurd f)
await_decision-proceed request_id tool secs closed = (λ h. cc, λ (d, f, a). absurd f)
await_decision-proceed request_id tool secs (received e wait) =
    elim (Bool-cases (answers request_id e)) [
      | inl y ↦ rw y (
        λ h. (e, inl ((answers_iff request_id e).0 y, refl), (verdict_of-proceed e).0 h),
        λ (d, f, a). elim f [
          | inl (_, same) ↦ (verdict_of-proceed e).1 (rw (← same) a)
          | inr (other, _) ↦ absurd (other ((answers_iff request_id e).0 y))
        ],
      )
      | inr n ↦
          let (to, from) = await_decision-proceed request_id tool secs wait in
          rw n (
            λ h.
                let (d, f, a) = to h in
                (d, inr (λ k. contradicted (sym ((answers_iff request_id e).1 k) ∙ n), f), a),
            λ (d, f, a). elim f [
              | inl (answered, _) ↦
                  absurd (contradicted (sym ((answers_iff request_id e).1 answered) ∙ n))
              | inr (_, later) ↦ from (d, later, a)
            ],
          )
    ]

module _ (rt : Runtime) (h : PermissionPolicyHook) (b : Bus rt) (request id : EventId) (now : ℕ)
    (agent_id tool : String) (args : Value) (wait : Wait) where
  proceed-by_verdict : ((before_tool rt h b request id now agent_id tool args wait).0 ≡ proceed) ↔ (
      (verdict_for h tool ≡ allow)
      ⊎ ((verdict_for h tool ≡ ask)
          × ((d : Event) × FirstAnswer (rt.to_string request) wait d × IsApproval d)))
  unfolding before_tool ask_for_approval
  proceed-by_verdict = go (verdict_for h tool) refl
    where
      go :
          (v : PermissionVerdict)
          → verdict_for h tool ≡ v
          → ((decide rt v h b request id now agent_id tool args wait).0 ≡ proceed) ↔ (
              (v ≡ allow)
              ⊎ ((v ≡ ask)
                  × ((d : Event) × FirstAnswer (rt.to_string request) wait d × IsApproval d)))
      go allow e = (λ _. inl refl, λ _. refl)
      go (deny_with reason) e = (λ k. cc, λ k. elim k [ inl q ↦ cc | inr (q, _) ↦ cc ])
      go ask e = (
        λ k.
            inr (refl, (await_decision-proceed (rt.to_string request) tool h.ask_timeout wait).0 k),
        λ k. elim k [
          | inl q ↦ cc
          | inr (_, d) ↦ (await_decision-proceed (rt.to_string request) tool h.ask_timeout wait).1 d
        ],
      )

  -- The hook lets a call go ahead exactly if its verdict, that of the first rule whose pattern matches
  -- the tool or else the default, is `allow`, or if it is `ask` and the first decision event of this
  -- request that arrives in time approves it: decisions of other requests, later decisions, a timeout
  -- and a closed bus never let it through.
  pub before_tool-proceed :
      ((before_tool rt h b request id now agent_id tool args wait).0 ≡ proceed) ↔ (
        DecidedBy h.rules h.default_verdict tool allow
        ⊎ (DecidedBy h.rules h.default_verdict tool ask
            × ((d : Event) × FirstAnswer (rt.to_string request) wait d × IsApproval d)))
  unfolding verdict_for
  before_tool-proceed = (
    λ k. elim (proceed-by_verdict.0 k) [
      | inl a ↦ inl ((find-DecidedBy h.rules h.default_verdict tool allow).0 a)
      | inr (q, d) ↦ inr ((find-DecidedBy h.rules h.default_verdict tool ask).0 q, d)
    ],
    λ k. proceed-by_verdict.1 (elim k [
      | inl a ↦ inl ((find-DecidedBy h.rules h.default_verdict tool allow).1 a)
      | inr (q, d) ↦ inr ((find-DecidedBy h.rules h.default_verdict tool ask).1 q, d)
    ]),
  )

find-snoc :
    (p : PermissionRule → Bool) (rules : List PermissionRule) (r : PermissionRule)
    → find p (rules ++ r ∷ []) ≡ (elim (find p rules) [ some q ↦ some q | none ↦ find p (r ∷ []) ])
find-snoc p [] r = ground arith
find-snoc p (q ∷ rules) r = ground (arith, find-snoc p rules r)

-- A rule registered later decides only for tools that no rule of the hook matched, so it never
-- changes the verdict on a tool for which a rule was already there; and on a tool that no rule
-- matched, it decides if it matches, and otherwise the default still does.
pub verdict_for-add_rule :
    (h : PermissionPolicyHook) (pattern tool : String) (v : PermissionVerdict)
    → verdict_for (add_rule h pattern v) tool
      ≡ (elim (find (λ r. glob_match r.pattern tool) h.rules) [
        | some r ↦ r.verdict
        | none ↦ if glob_match pattern tool then v else h.default_verdict
      ])
unfolding verdict_for add_rule
verdict_for-add_rule h pattern tool v = ground (
  arith,
  find-snoc (λ r. glob_match r.pattern tool) h.rules (record { pattern = pattern; verdict = v }),
)
