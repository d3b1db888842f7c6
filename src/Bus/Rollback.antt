-- ===== src/Bus/Rollback.antt =====
-- What `publish` and `rollback` do to the log, and what a rollback keeps of the attempt.
use eventage_rs.Prelude.{
  ℕ, ◌-◌, ◌<◌, ◌≡◌, ◌↔◌, refl, sym, Option, ap, ap₂, ◌∙◌, false, inl, inr, none, some, List, [],
  ◌∷◌, ◌++◌, length, take, drop, contains, insert, last, position, contains-take, contains-drop,
  length-append, arith, Option-cases, Bool-cases, true, ◌⊎◌,
}
use eventage_rs.Event.{Event, EventId}
use eventage_rs.Runtime.{Runtime}
use eventage_rs.Store.{DagStore, RejectedBranch, active_tip, resolve, evict_excess_branches}
use eventage_rs.Store.Soundness.{IsSound}
use eventage_rs.Store.Reading.{
  resolve-append, resolve-take, resolve-drop, resolve-insert, resolve-insert_self, last-snoc,
  drop-append_le, All-last, last-map,
}
use eventage_rs.Store.Reclaim.{evict_oldest_first, evict_keeps_log}
use eventage_rs.Bus.{
  Bus, Fresh, ok, err, checkpoint_not_found, append, link, transform, seal, seal_at, sealed_at,
  parent_at, tombstone, evict, announce, finish_rollback, publish, rollback, log,
  all_rejected_branches,
}

log-append :
    (s : DagStore) (e : Event)
    → contains s.active_path e.id ≡ false
    → resolve (append s e).nodes (append s e).active_path
      ≡ resolve s.nodes s.active_path ++ link s e ∷ []
unfolding append
log-append s e h =
    resolve-append (insert e.id (link s e) s.nodes) s.active_path (e.id ∷ [])
    ∙ ap₂ ◌++◌ (resolve-insert s.nodes e.id (link s e) s.active_path h)
        (resolve-insert_self s.nodes e.id (link s e))

contains-position :
    (i : EventId) (is : List EventId) → (position i is ≡ none) ↔ (contains is i ≡ false)
contains-position i [] = (λ _. refl, λ _. refl)
contains-position i (j ∷ js) = (
  λ h. ground (arith, (contains-position i js).0),
  λ h. ground (arith, (contains-position i js).1),
)

link-named : (s : DagStore) (e : Event) (p : EventId) → e.parent_event_id ≡ some p → link s e ≡ e
link-named s e p h =
    ap
      (λ (o : Option EventId). record e {
        parent_event_id = elim o [ none ↦ active_tip s | some q ↦ some q ];
      })
      h
    ∙ ap (λ (o : Option EventId). record e { parent_event_id = o }) (sym h)

-- The bus after a rollback to the position `pos` of its active path.
abbrev pub rolled_back : (rt : Runtime) → Bus rt → EventId → Fresh → ℕ → Bus rt
rolled_back rt b cp fresh pos =
    finish_rollback rt (record b { store = seal_at b.store fresh.branch_id pos }) cp fresh
      (sealed_at b.store.active_path pos)

-- The tombstone that such a rollback publishes, with the transforms applied.
abbrev pub tombstone_at : (rt : Runtime) → Bus rt → EventId → Fresh → ℕ → Event
tombstone_at rt b cp fresh pos =
    transform b.transforms (tombstone rt cp fresh (sealed_at b.store.active_path pos))

module _ (rt : Runtime) (b : Bus rt) where
  -- Publishing an event with a new id adds it at the end of the log, with the transforms applied
  -- and, unless it names a parent, linked to the former tip; the rest of the log is as it was.
  pub log-publish :
      (e : Event)
      → contains b.store.active_path (transform b.transforms e).id ≡ false
      → log (publish rt b e) ≡ log b ++ link b.store (transform b.transforms e) ∷ []
  unfolding log publish
  log-publish e h = log-append b.store (transform b.transforms e) h

  pub rollback-found :
      (cp : EventId) (fresh : Fresh) (pos : ℕ)
      → position cp b.store.active_path ≡ some pos
      → rollback rt b cp fresh ≡ ok (rolled_back rt b cp fresh pos, fresh.branch_id)
  unfolding rollback
  rollback-found cp fresh pos e = rw (e, rollback, seal) refl

  -- A rollback fails exactly when the active path does not have the checkpoint, and the error names
  -- the checkpoint; when the path has it, the rollback succeeds and returns the new branch's id.
  pub rollback-checkpoint_not_found :
      (cp : EventId) (fresh : Fresh)
      → ((contains b.store.active_path cp ≡ false)
          × (rollback rt b cp fresh ≡ err (checkpoint_not_found cp)))
        ⊎ ((contains b.store.active_path cp ≡ true)
            × ((b' : Bus rt) × (rollback rt b cp fresh ≡ ok (b', fresh.branch_id))))
  unfolding rollback seal
  rollback-checkpoint_not_found cp fresh = elim (Bool-cases (contains b.store.active_path cp)) [
    | inr absent ↦
        inl (absent, rw ((contains-position cp b.store.active_path).1 absent, rollback, seal) refl)
    | inl present ↦ elim (Option-cases (position cp b.store.active_path)) [
      | inl e ↦ absurd (
          let missing : contains b.store.active_path cp ≡ false =
            (contains-position cp b.store.active_path).0 e in
          ground (arith, present, missing))
      | inr (pos, e) ↦ inr (present, (rolled_back rt b cp fresh pos, rollback-found cp fresh pos e))
    ]
  ]

  -- Publishing an event with a new id adds one event at the end of the log: the event with the
  -- transforms applied, as it is if it names a parent then, and otherwise with the last event of the
  -- active path, if there is one, as its parent.
  pub publish-linked :
      (e : Event)
      → contains b.store.active_path (transform b.transforms e).id ≡ false
      → ((p : EventId) × ((transform b.transforms e).parent_event_id ≡ some p)
          × (log (publish rt b e) ≡ log b ++ transform b.transforms e ∷ []))
        ⊎ (((transform b.transforms e).parent_event_id ≡ none)
            × (log (publish rt b e)
                ≡ log b
                  ++ (record (transform b.transforms e) {
                    parent_event_id = last b.store.active_path;
                  })
                    ∷ []))
  publish-linked e h = elim (Option-cases (transform b.transforms e).parent_event_id) [
    | inl root ↦ inr (root, log-publish e h ∙ ap (λ d. log b ++ d ∷ []) (rw root refl))
    | inr (p, named) ↦
        inl (p, named, log-publish e h ∙ ap (λ d. log b ++ d ∷ []) (link-named b.store _ p named))
  ]

-- A list and an event added at its end, under the parent that the path gives.
abbrev link_to : List EventId → Event → Event
link_to path e = record e {
  parent_event_id = elim e.parent_event_id [ none ↦ last path | some p ↦ some p ];
}

module _ (rt : Runtime) (b : Bus rt) (cp : EventId) (fresh : Fresh) (pos : ℕ) (v : IsSound b.store)
    (found : position cp b.store.active_path ≡ some pos)
    (new_id : contains b.store.active_path (tombstone_at rt b cp fresh pos).id ≡ false) where
  abbrev sealed_store : DagStore
  sealed_store = seal_at b.store fresh.branch_id pos

  abbrev max : ℕ
  max = b.config.max_retained_branches

  abbrev ev : DagStore
  ev = (evict_excess_branches max sealed_store).store

  abbrev stone : Event
  stone = tombstone_at rt b cp fresh pos

  same_path : ev.active_path ≡ take pos b.store.active_path
  unfolding seal_at
  same_path = (evict_keeps_log max sealed_store).0

  old_log : resolve ev.nodes ev.active_path ≡ take pos (resolve b.store.nodes b.store.active_path)
  unfolding seal_at
  old_log =
      ap (resolve ev.nodes) same_path
      ∙ (evict_keeps_log max sealed_store).1
      ∙ resolve-take b.store.nodes pos b.store.active_path v.path

  linked : link ev stone ≡ link sealed_store stone
  unfolding seal_at
  linked = ap (λ p. link_to p stone) same_path

  -- Where the checkpoint stands at `pos` of the active path, and the tombstone's id is not on it,
  -- the rollback succeeds; its log is the part of the old log before the checkpoint, then the
  -- tombstone, linked to the last event of that part unless a transform gave it a parent.
  pub rollback-log :
      (b' : Bus rt) × (rollback rt b cp fresh ≡ ok (b', fresh.branch_id))
      × (log b'
          ≡ take pos (log b)
            ++ link (seal_at b.store fresh.branch_id pos) (tombstone_at rt b cp fresh pos) ∷ [])
  unfolding log finish_rollback publish announce evict seal_at
  rollback-log = (
    rolled_back rt b cp fresh pos,
    rollback-found rt b cp fresh pos found,
    log-append ev stone (rw same_path (contains-take pos b.store.active_path stone.id new_id))
        ∙ ap₂ (λ l (e : Event). l ++ e ∷ []) old_log linked,
  )

  new_branch : RejectedBranch
  new_branch = record {
    id = fresh.branch_id;
    parent_event_id = parent_at b.store.active_path pos;
    event_ids = drop pos b.store.active_path;
  }

  newest : 0 < max → last ev.rejected_branches ≡ some new_branch
  unfolding seal_at new_branch
  newest positive =
      ap last (
        (evict_oldest_first max sealed_store).1
        ∙ drop-append_le (length sealed_store.rejected_branches - max) b.store.rejected_branches
            (new_branch ∷ [])
            (omega (arith, length-append b.store.rejected_branches (new_branch ∷ []))))
      ∙ last-snoc (drop (length sealed_store.rejected_branches - max) b.store.rejected_branches)
          new_branch

  attempt : 0 < max → resolve ev.nodes (drop pos b.store.active_path) ≡ drop pos (log b)
  unfolding log seal_at new_branch
  attempt positive =
      All-last _ ev.rejected_branches new_branch (evict_keeps_log max sealed_store).2
        (newest positive)
      ∙ resolve-drop b.store.nodes pos b.store.active_path v.path

  -- If the bus retains any branch at all, the newest sealed branch after that rollback is the one
  -- whose id it returned, and its events are the part of the old log from the checkpoint on.
  pub rollback-keeps_attempt :
      0 < b.config.max_retained_branches
      → last (all_rejected_branches (rolled_back rt b cp fresh pos))
        ≡ some (fresh.branch_id, drop pos (log b))
  unfolding all_rejected_branches finish_rollback publish append new_branch announce evict
  rollback-keeps_attempt positive =
      last-map _ ev.rejected_branches new_branch (newest positive)
      ∙ ap (λ es. some (fresh.branch_id, es))
          (resolve-insert ev.nodes stone.id (link ev stone) (drop pos b.store.active_path)
              (contains-drop pos b.store.active_path stone.id new_id)
            ∙ attempt positive)
