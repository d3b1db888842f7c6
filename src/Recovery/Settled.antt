-- ===== src/Recovery/Settled.antt =====
-- src/agent/recovery.rs: what a reconciliation leaves behind, by its result.
use eventage_rs.Prelude.{
  ℕ, ◌≡◌, refl, ap₂, sym, ◌∙◌, String, false, ◌⊎◌, inl, inr, Option, List, [], ◌∷◌, ◌++◌,
  filter_map-append, contains, length, subst,
}
use mathlib.Core.List.{append-nil}
use eventage_rs.Json.{Value}
use eventage_rs.Event.{Event, EventId}
use eventage_rs.Runtime.{Runtime}
use eventage_rs.Bus.{Bus, log}
use eventage_rs.Recovery.{
  fail, ToolRecovery, OrphanedCall, answered, answered_id, orphan_of, find_orphaned_tool_calls,
  policy_for, no_report, total, Tool, Recovered, recovered, refused, Pass, reconcile_all,
  reconcile_interrupted_tools,
}
use eventage_rs.Recovery.Reconciled.{
  ids_of, orphans-answered, ids_of-members, Finished, reconcile_all-Finished,
}

calls-cases :
    (cs : List OrphanedCall)
    → (cs ≡ []) ⊎ ((c : OrphanedCall) × (ds : List OrphanedCall) × (cs ≡ c ∷ ds))
calls-cases [] = inl refl
calls-cases (c ∷ ds) = inr (c, ds, refl)

module _ (rt : Runtime) (parse_json : String → Option Value) (draw : ℕ → EventId) (now : ℕ)
    (policy : ToolRecovery) (registry : Option (String → Option Tool)) (b : Bus rt) where
  abbrev orphans : List OrphanedCall
  orphans = find_orphaned_tool_calls (log b)

  -- What a pass achieves, by its result.
  abbrev pub Settled : Recovered × Pass (Bus rt) → Type 0
  Settled (recovered r, p) =
      (find_orphaned_tool_calls (log p.bus) ≡ [])
      × ((results : List Event) × (log p.bus ≡ log b ++ results)
          × (answered results ≡ ids_of orphans))
      × (total r ≡ length orphans)
      × (r.replayed ≡ length p.executed)
  Settled (refused c, p) =
      (policy_for policy c.name ≡ fail)
      × ((before : List OrphanedCall) × (after : List OrphanedCall) × (orphans
            ≡ before ++ c ∷ after)
          × (results : List Event) × (log p.bus ≡ log b ++ results)
          × (answered results ≡ ids_of before))

module _ (rt : Runtime) (parse_json : String → Option Value) (draw : ℕ → EventId) (now : ℕ)
    (policy : ToolRecovery) (registry : Option (String → Option Tool)) (b : Bus rt)
    (injective : (j k : ℕ) → draw j ≡ draw k → j ≡ k) where
  settle :
      (r : Recovered × Pass (Bus rt))
      → Finished rt parse_json draw now policy registry injective
          (log b)
          (orphans rt parse_json draw now policy registry b)
          r
      → Settled rt parse_json draw now policy registry b r
  unfolding find_orphaned_tool_calls
  settle (recovered r, p) (results, logged, answers, quiet, counted, runs) = (
    rw logged (
        rw (filter_map-append answered_id (log b) results) (
          rw answers (
            filter_map-append
              (orphan_of
                (answered (log b) ++ ids_of (orphans rt parse_json draw now policy registry b)))
              (log b) results
            ∙ ap₂ ◌++◌
                (orphans-answered (answered (log b))
                  (ids_of (orphans rt parse_json draw now policy registry b)) (log b)
                  (ids_of-members [] (orphans rt parse_json draw now policy registry b)))
                (quiet (
                  answered (log b)
                  ++ ids_of (orphans rt parse_json draw now policy registry b)))))),
    (results, logged, answers),
    counted,
    runs,
  )
  settle (refused c, p) f = f

  -- On a bus without transforms, with new and distinct ids drawn: a pass that ends has answered
  -- every orphaned call with one result event each, in order, after the old log; the new log has
  -- no orphaned call, the report's total is the number of orphans, and as many tools were run as it
  -- reports replayed. A pass that is refused stops at an orphan whose policy is `fail`;
  -- after the old log stand the answers to the orphans before that one, one result event each, in
  -- order, and no answer to it or to a later one.
  pub reconcile-Settled :
      b.transforms ≡ []
      → ((j : ℕ) → contains b.store.active_path (draw j) ≡ false)
      → Settled rt parse_json draw now policy registry b
          (reconcile_interrupted_tools rt parse_json draw now policy registry b)
  unfolding reconcile_interrupted_tools
  reconcile-Settled plain unused = elim (calls-cases (find_orphaned_tool_calls (log b))) [
    | inl none_left ↦
        rw (none_left, reconcile_interrupted_tools)
          (
            none_left,
            ([], sym (append-nil (log b)), rw none_left refl),
            (rw none_left (unfold total in refl)),
            refl,
          )
    | inr (c, cs, some_left) ↦
        rw (some_left, reconcile_interrupted_tools)
          (settle _ (
            subst
              (λ l.
                Finished rt parse_json draw now policy registry injective (log b) l
                  (reconcile_all rt parse_json draw now policy registry 0 (c ∷ cs) start))
              (sym some_left)
              (reconcile_all-Finished rt parse_json draw now policy registry injective (log b) 0 []
                (c ∷ cs) start
                (record {
                  plain = plain;
                  unused = λ j _. unused j;
                  results = [];
                  logged = sym (append-nil (log b));
                  answers = refl;
                  quiet = λ ids. refl;
                  counted = unfold total in refl;
                  runs = refl;
                }))))
  ]
    where
      start : Pass (Bus rt)
      start = record { bus = b; report = no_report; executed = [] }
