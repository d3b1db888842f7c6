-- ===== src/Interleaving.antt =====
-- Concurrent users of one bus (src/bus.rs). Each critical section under a lock is one action, and
-- any interleaving of the tasks is a list of actions; `rollback` contributes four, between which
-- other tasks may act.
use eventage_rs.Prelude.{
  ℕ, ◌≡◌, Bool, true, false, inl, inr, List, [], ◌∷◌, map, filter, All, All-append, All-take,
  All-drop, is_empty, Bool-cases, Option-cases, position, if◌then◌else◌,
}
use eventage_rs.Event.{Event, EventId}
use eventage_rs.Runtime.{Runtime}
use eventage_rs.Store.{DagStore, BranchId}
use eventage_rs.Store.Soundness.{
  IsSound, Holds, BranchHolds, record_event-IsSound, evict-IsSound, map-id-resolve,
}
use eventage_rs.Bus.{
  Bus, BusConfig, Fresh, Sealed, Result, ok, err, append, link, with_config, add_publish_transform,
  close, publish, broadcast, subscribe, seal, seal_at, evict, announce, log, transform,
}
use eventage_rs.Restore.{
  replay_rollback, restore_event, restore_events, restore_from, is_ephemeral, rejected_ids,
}

pub data Action : Type 0 where
  publishes broadcasts : Event → Action
  subscribes closes evicts : Action
  transforms : (Event → Event) → Action
  seals : EventId → BranchId → Action
  announces : EventId → Fresh → ℕ → ℕ → Action
  restores : List Event → (EventId → BranchId) → Action

module _ (rt : Runtime) where
  after : Bus rt → Result (Bus rt × Sealed) → Bus rt
  after b (ok (b', s)) = b'
  after b (err e) = b

  pub step : Bus rt → Action → Bus rt
  unfolding after
  step b (publishes e) = publish rt b e
  step b (broadcasts e) = broadcast rt b e
  step b subscribes = subscribe rt b
  step b closes = close b
  step b (transforms f) = add_publish_transform b f
  step b (seals i branch) = after b (seal rt b i branch)
  step b evicts = (evict b).0
  step b (announces i fresh branches nodes) = announce rt b i fresh branches nodes
  step b (restores es fallback) = restore_from rt b es fallback

  pub run : Bus rt → List Action → Bus rt
  run b [] = b
  run b (a ∷ actions) = run (step b a) actions

module _ {ℓ κ} {A : Type ℓ} (P : A → Type κ) (keep : A → Bool) where
  All-filter : (xs : List A) → All P xs → All P (filter keep xs)
  All-filter [] h = tt
  All-filter (x ∷ xs) h = elim (Bool-cases (keep x)) [
    | inl e ↦ rw e (h.0, All-filter xs h.1)
    | inr e ↦ rw e (All-filter xs h.1)
  ]

append-IsSound : (s : DagStore) (e : Event) → IsSound s → IsSound (append s e)
unfolding append
append-IsSound s e v = record_event-IsSound s (link s e) v

seal_at-IsSound :
    (s : DagStore) (branch : BranchId) (pos : ℕ) → IsSound s → IsSound (seal_at s branch pos)
unfolding seal_at
seal_at-IsSound s branch pos v = record {
  path = All-take (Holds s.nodes) pos s.active_path v.path;
  branches =
      All-append (BranchHolds s.nodes) s.rejected_branches _ v.branches
        (All-drop (Holds s.nodes) pos s.active_path v.path, tt);
}

module _ (rt : Runtime) where
  replay_rollback-IsSound :
      (s : DagStore) (e : Event) (fallback : BranchId)
      → IsSound s
      → IsSound (replay_rollback rt s e fallback)
  unfolding replay_rollback
  replay_rollback-IsSound s e fallback v = elim (Bool-cases (is_empty (rejected_ids rt e))) [
    | inl none_named ↦ rw none_named v
    | inr some_named ↦ rw some_named (record {
      path = All-filter (Holds s.nodes) _ s.active_path v.path;
      branches =
          All-append (BranchHolds s.nodes) s.rejected_branches _ v.branches
            (All-filter (Holds s.nodes) _ s.active_path v.path, tt);
    })
  ]

  replay_if-IsSound :
      (b : Bool) (s : DagStore) (e : Event) (fallback : BranchId)
      → IsSound s
      → IsSound (if b then replay_rollback rt s e fallback else s)
  replay_if-IsSound true s e fallback v = replay_rollback-IsSound s e fallback v
  replay_if-IsSound false s e fallback v = v

  restore_event-IsSound :
      (s : DagStore) (e : Event) (fallback : BranchId)
      → IsSound s
      → IsSound (restore_event rt s e fallback)
  unfolding restore_event
  restore_event-IsSound s e fallback v = elim (Bool-cases (is_ephemeral e)) [
    | inl skipped ↦ rw skipped v
    | inr kept ↦ rw kept (record_event-IsSound _ e (replay_if-IsSound _ s e fallback v))
  ]

  restore_events-IsSound :
      (s : DagStore) (es : List Event) (fallback : EventId → BranchId)
      → IsSound s
      → IsSound (restore_events rt s es fallback)
  unfolding restore_events
  restore_events-IsSound s [] fallback v = v
  restore_events-IsSound s (e ∷ es) fallback v =
      restore_events-IsSound (restore_event rt s e (fallback e.id)) es fallback
        (restore_event-IsSound s e (fallback e.id) v)

  step-IsSound : (b : Bus rt) (a : Action) → IsSound b.store → IsSound (step rt b a).store
  unfolding step publish broadcast subscribe close add_publish_transform seal evict announce
      restore_from
  step-IsSound b (publishes e) v = append-IsSound b.store (transform b.transforms e) v
  step-IsSound b (broadcasts e) v = v
  step-IsSound b subscribes v = v
  step-IsSound b closes v = v
  step-IsSound b (transforms f) v = v
  step-IsSound b (seals i branch) v = elim (Option-cases (position i b.store.active_path)) [
    | inl missing ↦ rw (missing, seal, after) v
    | inr (pos, found) ↦ rw (found, seal, after) (seal_at-IsSound b.store branch pos v)
  ]
  step-IsSound b evicts v = evict-IsSound b.config.max_retained_branches b.store v
  step-IsSound b (announces i fresh branches nodes) v = v
  step-IsSound b (restores es fallback) v = restore_events-IsSound b.store es fallback v

  pub run-IsSound :
      (b : Bus rt) (actions : List Action) → IsSound b.store → IsSound (run rt b actions).store
  unfolding run
  run-IsSound b [] v = v
  run-IsSound b (a ∷ actions) v = run-IsSound (step rt b a) actions (step-IsSound b a v)

  -- From a new bus, after any interleaving of the critical sections of concurrent tasks, the log
  -- has one event for each id of the active path, in order and with that id.
  pub log-run :
      (c : BusConfig) (actions : List Action)
      → map (λ (e : Event). e.id) (log (run rt (with_config c) actions))
        ≡ (run rt (with_config c) actions).store.active_path
  unfolding log with_config
  log-run c actions =
      let b : Bus rt = run rt (with_config c) actions in
      map-id-resolve b.store.nodes b.store.active_path
        (run-IsSound (with_config c) actions (record { path = tt; branches = tt })).path
