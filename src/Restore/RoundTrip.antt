-- ===== src/Restore/RoundTrip.antt =====
-- An exporter that subscribed to a new bus receives a stream from which `restore_from` rebuilds
-- the store, rollbacks and broadcasts included (src/bus.rs).
use eventage_rs.Prelude.{
  ℕ, ◌+◌, ◌≤◌, ==_iff, ◌≡◌, refl, sym, false, inl, inr, some, List, [], ◌∷◌, ◌++◌, contains,
  position, length, length-append, Distinct, Distinct-snoc, Distinct-take, All, All-take,
  All-append, All-map, arith, Option-cases, ltb, subst,
}
use eventage_rs.Event.{Event, EventId, meta}
use eventage_rs.Event
use eventage_rs.Event.Kinds
use eventage_rs.Json.{object, end}
use eventage_rs.Runtime.{Runtime}
use eventage_rs.Store.{DagStore, BranchId}
use eventage_rs.Channel.{unbounded, fan_out}
use eventage_rs.Bus.{
  Bus, BusConfig, Fresh, append, link, mark_ephemeral, sealed_at, seal_at, tombstone, seal, evict,
  announce, sealed_event, pruned_event, publish, broadcast, checkpoint, rollback, finish_rollback,
  with_config, subscribe, usize_max,
}
use eventage_rs.Bus.Rollback.{rollback-found}
use eventage_rs.Restore.{is_ephemeral, restore_event, restore_events, restore_from}
use eventage_rs.Restore.Tombstone.{
  sealed_event-is_ephemeral, pruned_event-is_ephemeral, mark_ephemeral-is_ephemeral, restore-stone,
}
use eventage_rs.Restore.Mirror.{
  Op, publishes, broadcasts, checkpoints, rollbacks, ids, IsDurable, apply, apply_all,
  after_rollback, Mirrors, skipped-Mirrors, skipped_if-Mirrors, publish-Mirrors, restore-append,
  evict-store,
}

-- An id that no member of the path is equal to is not on the path.
absent :
    (path : List EventId) (i : EventId) (rest : List EventId)
    → All (λ j. contains (i ∷ rest) j ≡ false) path
    → contains path i ≡ false
absent [] i rest h = refl
absent (j ∷ path) i rest h = ground (arith, absent path i rest h.1, h.0)

-- The next id of a list of distinct ids may be added to a path that is apart from them.
Distinct-next :
    (path : List EventId) (i : EventId) (rest : List EventId)
    → Distinct path
    → All (λ j. contains (i ∷ rest) j ≡ false) path
    → Distinct (path ++ i ∷ [])
Distinct-next path i rest d h = Distinct-snoc path i d (absent path i rest h)

apart-next :
    (path : List EventId) (i : EventId) (rest : List EventId)
    → All (λ j. contains (i ∷ rest) j ≡ false) path
    → contains rest i ≡ false
    → All (λ j. contains rest j ≡ false) (path ++ i ∷ [])
apart-next path i rest h new_id =
    All-append _ path (i ∷ [])
      (All-map (λ j. contains (i ∷ rest) j ≡ false) (λ j. contains rest j ≡ false) path
        (λ j k. ground arith) h)
      (new_id, tt)

Distinct-tail : (op : Op) (ops : List Op) → Distinct (ids (op ∷ ops)) → Distinct (ids ops)
Distinct-tail (publishes e) ops d = d.1
Distinct-tail (broadcasts e) ops d = d
Distinct-tail (checkpoints id now) ops d = d.1
Distinct-tail (rollbacks cp fresh) ops d = d.1

contains-tail :
    (j : EventId) (rest : List EventId) (i : EventId)
    → contains (j ∷ rest) i ≡ false
    → contains rest i ≡ false
contains-tail j rest i h = ground arith

module _ (rt : Runtime) (fallback : EventId → BranchId) where
  record Inv (b : Bus rt) (ops : List Op) : Type 0 where
    mirror : Mirrors rt fallback b.subs b.store
    distinct : Distinct b.store.active_path
    apart : All (λ i. contains (ids ops) i ≡ false) b.store.active_path
    room : length b.store.rejected_branches + length ops ≤ b.config.max_retained_branches
    plain : b.transforms ≡ []

  publish-Inv :
      (b : Bus rt) (e : Event) (s : DagStore) (ops : List Op)
      → b.transforms ≡ []
      → restore_event rt s (link b.store e) (fallback e.id) ≡ append b.store e
      → Mirrors rt fallback b.subs s
      → Distinct b.store.active_path
      → All (λ i. contains (e.id ∷ ids ops) i ≡ false) b.store.active_path
      → contains (ids ops) e.id ≡ false
      → length b.store.rejected_branches + length ops ≤ b.config.max_retained_branches
      → Inv (publish rt b e) ops
  unfolding publish append
  publish-Inv b e s ops plain round m d apart new_id room = record {
    mirror = publish-Mirrors rt fallback b e s plain round m;
    distinct = rw plain (Distinct-next b.store.active_path e.id (ids ops) d apart);
    apart = rw plain (apart-next b.store.active_path e.id (ids ops) apart new_id);
    room = room;
    plain = plain;
  }

  -- The bus between sealing at `pos` and publishing the tombstone.
  abbrev announced : Bus rt → EventId → Fresh → ℕ → Bus rt
  announced b cp fresh pos =
      let sealed : Bus rt = record b { store = seal_at b.store fresh.branch_id pos } in
      announce rt (evict sealed).0 cp fresh (evict sealed).1 (evict sealed).2

  module _ (b : Bus rt) (cp : EventId) (fresh : Fresh) (ops : List Op) (pos : ℕ)
      (v : Inv b (rollbacks cp fresh ∷ ops))
      (found : position cp b.store.active_path ≡ some pos) where
    room_left :
        length (seal_at b.store fresh.branch_id pos).rejected_branches + length ops
        ≤ b.config.max_retained_branches
    unfolding seal_at
    room_left = omega (arith, length-append b.store.rejected_branches (_ ∷ []), v.room)

    announced-store : (announced b cp fresh pos).store ≡ seal_at b.store fresh.branch_id pos
    unfolding announce
    announced-store =
        (evict-store rt fallback (record b { store = seal_at b.store fresh.branch_id pos })
          (omega (arith, room_left))).0

    announced-Mirrors : Mirrors rt fallback (announced b cp fresh pos).subs b.store
    unfolding announce evict
    announced-Mirrors =
        let sealed : Bus rt = record b { store = seal_at b.store fresh.branch_id pos } in
        skipped_if-Mirrors rt fallback (ltb 0 (evict sealed).1)
          (fan_out rt b.subs (sealed_event rt cp fresh)) b.store
          (pruned_event fresh (evict sealed).1 (evict sealed).2)
          (pruned_event-is_ephemeral fresh (evict sealed).1 (evict sealed).2)
          (skipped-Mirrors rt fallback b.subs b.store (sealed_event rt cp fresh)
            (sealed_event-is_ephemeral rt cp fresh) v.mirror)

    finish-Inv :
        Distinct (ids (rollbacks cp fresh ∷ ops))
        → Inv
            (finish_rollback rt
              (record b { store = seal_at b.store fresh.branch_id pos })
              cp
              fresh
              (sealed_at b.store.active_path pos))
            ops
    unfolding finish_rollback seal_at tombstone announce evict
    finish-Inv d =
        publish-Inv (announced b cp fresh pos)
          (tombstone rt cp fresh (sealed_at b.store.active_path pos)) b.store ops v.plain
          (rw announced-store
            (restore-stone rt cp fresh b.store pos (fallback fresh.tombstone_id) v.distinct found))
          announced-Mirrors (rw announced-store (Distinct-take pos b.store.active_path v.distinct))
          (rw announced-store (All-take _ pos b.store.active_path v.apart)) d.0
          (rw announced-store room_left)

  step-Inv :
      (b : Bus rt) (op : Op) (ops : List Op)
      → IsDurable op
      → Distinct (ids (op ∷ ops))
      → Inv b (op ∷ ops)
      → Inv (apply rt b op) ops
  unfolding apply checkpoint broadcast rollback after_rollback
  step-Inv b (publishes e) ops durable d v =
      publish-Inv b e b.store ops v.plain
        (restore-append rt fallback b.store e (fallback e.id) durable.0 durable.1) v.mirror
        v.distinct v.apart d.0 (omega (arith, v.room))
  step-Inv b (broadcasts e) ops durable d v = record {
    mirror = rw v.plain (
        skipped-Mirrors rt fallback b.subs b.store (mark_ephemeral e)
          (mark_ephemeral-is_ephemeral e) v.mirror);
    distinct = v.distinct;
    apart = v.apart;
    room = omega (arith, v.room);
    plain = v.plain;
  }
  step-Inv b (checkpoints id now) ops durable d v =
      publish-Inv b (Event.new id now Kinds.checkpoint (object end)) b.store ops v.plain
        (restore-append rt fallback b.store (Event.new id now Kinds.checkpoint (object end))
          (fallback id) (unfold is_ephemeral in refl) refl)
        v.mirror v.distinct v.apart d.0 (omega (arith, v.room))
  step-Inv b (rollbacks cp fresh) ops durable d v =
      elim (Option-cases (position cp b.store.active_path)) [
        | inl missing ↦
            rw (missing, rollback, seal)
              (record {
                mirror = v.mirror;
                distinct = v.distinct;
                apart =
                    All-map _ _ b.store.active_path (contains-tail fresh.tombstone_id (ids ops))
                      v.apart;
                room = omega (arith, v.room);
                plain = v.plain;
              })
        | inr (pos, found) ↦
            subst (λ r. Inv (after_rollback rt b r) ops)
              (sym (rollback-found rt b cp fresh pos found))
              (finish-Inv b cp fresh ops pos v found d)
      ]

  apply_all-Inv :
      (b : Bus rt) (ops : List Op)
      → All IsDurable ops
      → Distinct (ids ops)
      → Inv b ops
      → Inv (apply_all rt b ops) []
  unfolding apply_all
  apply_all-Inv b [] durable d v = v
  apply_all-Inv b (op ∷ ops) durable d v =
      apply_all-Inv (apply rt b op) ops durable.1 (Distinct-tail op ops d)
        (step-Inv b op ops durable.0 d v)

-- On a new bus an exporter subscribes with an unbounded queue, and a session then publishes,
-- broadcasts, sets checkpoints and rolls back. If the ids put into the log are distinct, published
-- events are durable, and the bus retains all the branches that the session could seal, then
-- restoring what the exporter received into a new bus rebuilds the session's store: the registry,
-- the active path and the sealed branches.
pub restore_from-exported :
    (rt : Runtime) (c : BusConfig) (ops : List Op) (fallback : EventId → BranchId)
    → c.subscriber_capacity ≡ usize_max
    → length ops ≤ c.max_retained_branches
    → Distinct (ids ops)
    → All IsDurable ops
    → (tx : rt.Sender) × ((apply_all rt (subscribe rt (with_config c)) ops).subs
        ≡ unbounded tx ∷ [])
      × ((restore_from rt (with_config c) (rt.queued tx) fallback).store
          ≡ (apply_all rt (subscribe rt (with_config c)) ops).store)
unfolding restore_from with_config subscribe
restore_from-exported rt c ops fallback unlimited room d durable =
    let (tx, only, _, same) = final.mirror in (tx, only, same)
  where
    final : Inv rt fallback (apply_all rt (subscribe rt (with_config c)) ops) []
    final = apply_all-Inv rt fallback (subscribe rt (with_config c)) ops durable d (record {
      mirror = (
        rt.unbounded_channel,
        rw ((==_iff c.subscriber_capacity usize_max).1 unlimited) refl,
        rt.unbounded_open,
        rw rt.unbounded_empty (unfold restore_events in refl),
      );
      distinct = tt;
      apart = tt;
      room = omega arith;
      plain = refl;
    })
