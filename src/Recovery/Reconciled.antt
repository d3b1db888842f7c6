-- ===== src/Recovery/Reconciled.antt =====
-- src/agent/recovery.rs: each answer of a reconciliation extends the log by one result event.
use eventage_rs.Prelude.{
  ℕ, suc, ◌+◌, ◌≤◌, ◌≡◌, refl, ap, ap₂, sym, ◌∙◌, String, true, false, ◌||◌, ◌⊎◌, inl, inr, Option,
  none, some, List, [], ◌∷◌, ◌++◌, map, filter_map, filter_map-append, contains, contains-append,
  length, length-append, and_then, cons_some, All, arith, Bool-cases, str_eq, str_eq_refl, subst,
}
use mathlib.Core.List.{append-nil, append_assoc, map-append}
use eventage_rs.Json.{Value, text, object, field, end, nat_value, get_field}
use eventage_rs.Event.{Event, EventId}
use eventage_rs.Event
use eventage_rs.Event.Kinds
use eventage_rs.Runtime.{Runtime}
use eventage_rs.Bus.{Bus, log, publish, link, append, transform}
use eventage_rs.Bus.Rollback.{log-publish}
use eventage_rs.Recovery.{
  ResumePolicy, report_interrupted, replay, fail, ToolRecovery, OrphanedCall, answered, answered_id,
  has_text, call_of, orphan_of, unanswered, str_field, policy_for, RecoveryReport, total, Outcome,
  success, failure, Tool, Recovered, recovered, refused, Pass, replay_payload, interrupted_payload,
  result_event, replay_tool, answer, arguments_of, reconcile_all,
}

abbrev pub ids_of : List OrphanedCall → List String
ids_of cs = map (λ (c : OrphanedCall). c.tool_call_id) cs

pub has_text-append :
    (xs ys : List String) (s : String) → has_text (xs ++ ys) s ≡ (has_text xs s || has_text ys s)
has_text-append [] ys s = refl
has_text-append (x ∷ xs) ys s = ground (arith, has_text-append xs ys s)

-- An event is no orphan once the answered ids hold the former ones and its own.
orphan_of-none :
    (ids more : List String) (e : Event)
    → ((c : OrphanedCall) → orphan_of ids e ≡ some c → has_text more c.tool_call_id ≡ true)
    → orphan_of (ids ++ more) e ≡ none
orphan_of-none ids more e h = elim (Bool-cases (str_eq e.kind Kinds.tool_call_proposed)) [
  | inr other ↦ rw other refl
  | inl proposal ↦ rw proposal (go (str_field e "tool_call_id") (λ c q. h c (rw proposal q)))
]
  where
    go :
        (o : Option String)
        → ((c : OrphanedCall)
            → and_then o (unanswered ids e) ≡ some c
            → has_text more c.tool_call_id ≡ true)
        → and_then o (unanswered (ids ++ more) e) ≡ none
    go none k = refl
    go (some id) k = elim (Bool-cases (has_text ids id)) [
      | inl old ↦ rw (has_text-append ids more id) (rw old refl)
      | inr new ↦
          rw (has_text-append ids more id) (rw (k (call_of e id) (rw new refl)) (rw new refl))
    ]

All-cons_some {ℓ κ} :
    {A : Type ℓ} (P : A → Type κ) (o : Option A) (xs : List A)
    → All P (cons_some o xs)
    → ((a : A) → o ≡ some a → P a) × All P xs
All-cons_some P none xs h = (λ a e. absurd (ground arith), h)
All-cons_some P (some a) xs h = (λ c e. subst P (ground arith) h.0, h.1)

-- Once the answered ids hold those of all orphans, no orphan is left.
pub orphans-answered :
    (ids more : List String) (es : List Event)
    → All (λ c. has_text more c.tool_call_id ≡ true) (filter_map (orphan_of ids) es)
    → filter_map (orphan_of (ids ++ more)) es ≡ []
orphans-answered ids more [] h = refl
orphans-answered ids more (e ∷ es) h =
    let (first, others) = All-cons_some _ (orphan_of ids e) (filter_map (orphan_of ids) es) h in
    ap₂ cons_some (orphan_of-none ids more e first) (orphans-answered ids more es others)

pub ids_of-members :
    (before : List String) (cs : List OrphanedCall)
    → All (λ c. has_text (before ++ ids_of cs) c.tool_call_id ≡ true) cs
ids_of-members before [] = tt
ids_of-members before (c ∷ cs) = (
  ground
      (arith, has_text-append before (ids_of (c ∷ cs)) c.tool_call_id, str_eq_refl c.tool_call_id),
  subst (λ ids. All (λ (d : OrphanedCall). has_text ids d.tool_call_id ≡ true) cs)
      (append_assoc before (c.tool_call_id ∷ []) (ids_of cs))
      (ids_of-members (before ++ c.tool_call_id ∷ []) cs),
)

policy-cases : (q : ResumePolicy) → (q ≡ report_interrupted) ⊎ ((q ≡ replay) ⊎ (q ≡ fail))
policy-cases report_interrupted = inl refl
policy-cases replay = inr (inl refl)
policy-cases fail = inr (inr refl)

module _ (rt : Runtime) (parse_json : String → Option Value) (draw : ℕ → EventId) (now : ℕ)
    (policy : ToolRecovery) (registry : Option (String → Option Tool))
    (injective : (j k : ℕ) → draw j ≡ draw k → j ≡ k) (old : List Event) where
  -- The log is the old log and answers to the calls of `done`, which the report counts.
  pub record Progress (k : ℕ) (done : List OrphanedCall) (p : Pass (Bus rt)) : Type 0 where
    pub plain : p.bus.transforms ≡ []
    pub unused : (j : ℕ) → k ≤ j → contains p.bus.store.active_path (draw j) ≡ false
    pub results : List Event
    pub logged : log p.bus ≡ old ++ results
    pub answers : answered results ≡ ids_of done
    pub quiet : (ids : List String) → filter_map (orphan_of ids) results ≡ []
    pub counted : total p.report ≡ length done
    pub runs : p.report.replayed ≡ length p.executed

  published :
      (k : ℕ) (b : Bus rt) (e : Event)
      → e.id ≡ draw k
      → b.transforms ≡ []
      → ((j : ℕ) → k ≤ j → contains b.store.active_path (draw j) ≡ false)
      → (log (publish rt b e) ≡ log b ++ link b.store e ∷ [])
        × ((j : ℕ) → suc k ≤ j → contains (publish rt b e).store.active_path (draw j) ≡ false)
        × ((publish rt b e).transforms ≡ [])
  unfolding publish append
  published k b e named plain unused =
      let none_given : transform b.transforms e ≡ e = rw plain refl in
      (
        subst (λ t. log (publish rt b e) ≡ log b ++ link b.store t ∷ []) none_given
            (log-publish rt b e (rw none_given (rw named (unused k (omega arith))))),
        λ j h. rw none_given (
            rw named (
              rw (contains-append b.store.active_path (draw k ∷ []) (draw j)) (
                rw (unused j (omega arith))
                  (ground (arith, λ (q : draw j ≡ draw k). injective j k q))))),
        plain,
      )

  -- One answered call: a result event that names the call and is itself no proposal.
  step-Progress :
      (k : ℕ) (done : List OrphanedCall) (c : OrphanedCall) (payload : Value)
      (report : RecoveryReport) (executed : List OrphanedCall) (p : Pass (Bus rt))
      → get_field payload "tool_call_id" ≡ some (text c.tool_call_id)
      → total report ≡ total p.report + 1
      → report.replayed ≡ length executed
      → Progress k done p
      → Progress (suc k) (done ++ c ∷ []) (record {
        bus = publish rt p.bus (result_event rt parse_json draw now k payload);
        report = report;
        executed = executed;
      })
  step-Progress k done c payload report executed p named one_more runs v = record {
    plain = after.2;
    unused = after.1;
    results = v.results ++ stored ∷ [];
    logged =
        after.0 ∙ ap (λ l. l ++ stored ∷ []) v.logged ∙ append_assoc old v.results (stored ∷ []);
    answers =
        filter_map-append answered_id v.results (stored ∷ [])
        ∙ ap₂ ◌++◌ v.answers (rw named refl)
        ∙ sym (map-append _ done (c ∷ []));
    quiet = λ ids.
        filter_map-append (orphan_of ids) v.results (stored ∷ [])
        ∙ ap (λ (l : List OrphanedCall). l ++ []) (v.quiet ids);
    counted = omega (arith, one_more, v.counted, length-append done (c ∷ []));
    runs = runs;
  }
    where
      stored : Event
      stored = link p.bus.store (result_event rt parse_json draw now k payload)

      after :
          (log (publish rt p.bus (result_event rt parse_json draw now k payload))
            ≡ log p.bus ++ stored ∷ [])
          × ((j : ℕ)
              → suc k ≤ j
              → contains
                  (publish rt p.bus
                    (result_event rt parse_json draw now k payload)).store.active_path
                  (draw j)
                ≡ false)
          × ((publish rt p.bus (result_event rt parse_json draw now k payload)).transforms ≡ [])
      after =
          published k p.bus (result_event rt parse_json draw now k payload) refl v.plain v.unused

  replay_payload-names :
      (c : OrphanedCall) (o : Outcome)
      → get_field (replay_payload c o) "tool_call_id" ≡ some (text c.tool_call_id)
  replay_payload-names c (success v) = refl
  replay_payload-names c (failure message) = refl

  answer-Progress :
      (k : ℕ) (done : List OrphanedCall) (c : OrphanedCall) (tool : Option Tool) (p : Pass (Bus rt))
      → Progress k done p
      → Progress (suc k) (done ++ c ∷ []) (answer rt parse_json draw now k c tool p)
  unfolding total
  answer-Progress k done c none p v =
      step-Progress k done c (interrupted_payload c) _ p.executed p refl (omega arith) v.runs v
  answer-Progress k done c (some tool) p v =
      step-Progress k done c (replay_payload c (tool (arguments_of rt parse_json draw now c))) _ _ p
        (replay_payload-names c _) (omega arith)
        (omega (arith, v.runs, length-append p.executed (c ∷ []))) v

  -- A pass that is not refused answers every orphan and then adds the summary event.
  abbrev pub Finished : List OrphanedCall → Recovered × Pass (Bus rt) → Type 0
  Finished done (recovered r, p) =
      (results : List Event) × (log p.bus ≡ old ++ results)
      × (answered results ≡ ids_of done)
      × ((ids : List String) → filter_map (orphan_of ids) results ≡ [])
      × (total r ≡ length done)
      × (r.replayed ≡ length p.executed)
  Finished done (refused c, p) =
      (policy_for policy c.name ≡ fail)
      × ((before : List OrphanedCall) × (after : List OrphanedCall) × (done ≡ before ++ c ∷ after)
          × (results : List Event) × (log p.bus ≡ old ++ results)
          × (answered results ≡ ids_of before))

  pub reconcile_all-Finished :
      (k : ℕ) (done cs : List OrphanedCall) (p : Pass (Bus rt))
      → Progress k done p
      → Finished (done ++ cs) (reconcile_all rt parse_json draw now policy registry k cs p)
  unfolding reconcile_all
  reconcile_all-Finished k done [] p v =
      let (logged, _, _) = published k p.bus summary refl v.plain v.unused in
      (
        v.results ++ stored ∷ [],
        logged ∙ ap (λ l. l ++ stored ∷ []) v.logged ∙ append_assoc old v.results (stored ∷ []),
        filter_map-append answered_id v.results (stored ∷ [])
            ∙ append-nil (answered v.results)
            ∙ v.answers
            ∙ ap ids_of (sym (append-nil done)),
        λ ids.
            filter_map-append (orphan_of ids) v.results (stored ∷ [])
            ∙ ap (λ (l : List OrphanedCall). l ++ []) (v.quiet ids),
        v.counted ∙ ap length (sym (append-nil done)),
        v.runs,
      )
    where
      summary : Event
      summary = Event.new (draw k) now Kinds.system_recovered (
          object (
            field "interrupted_tool_calls" (nat_value (total p.report)) (
              field "replayed" (nat_value p.report.replayed)
                (field "reported" (nat_value p.report.reported) end))))

      stored : Event
      stored = link p.bus.store summary
  reconcile_all-Finished k done (c ∷ cs) p v =
      let next : Pass (Bus rt) =
        answer rt parse_json draw now k c (replay_tool rt parse_json draw now policy registry c)
          p in
      let rest : Finished (done ++ c ∷ cs)
          (reconcile_all rt parse_json draw now policy registry (suc k) cs next) =
        subst
          (λ l. Finished l (reconcile_all rt parse_json draw now policy registry (suc k) cs next))
          (append_assoc done (c ∷ []) cs)
          (reconcile_all-Finished (suc k) (done ++ c ∷ []) cs next
            (answer-Progress k done c _ p v)) in
      elim (policy-cases (policy_for policy c.name)) [
        | inl e ↦ rw (e, reconcile_all) rest
        | inr (inl e) ↦ rw (e, reconcile_all) rest
        | inr (inr e) ↦ rw (e, reconcile_all) (e, (done, cs, refl, v.results, v.logged, v.answers))
      ]
