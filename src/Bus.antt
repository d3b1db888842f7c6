-- ===== src/Bus.antt =====
-- src/bus.rs, the event bus: publishing, subscribing, reading the log, rollback and restore.
-- A method that takes the store's write lock is one state change; `rollback` takes it three times,
-- and each of its phases is a function of its own. The channels and the text of a `Uuid` come with
-- `Runtime`; fresh identifiers and the clock's readings are arguments.
pub mod Rollback
pub mod Delivery
use eventage_rs.Prelude.{
  ℕ, zero, suc, ◌==◌, ltb, Bool, true, false, Option, none, some, List, [], ◌∷◌, ◌++◌, map, length,
  take, drop, filter, insert, get_elem?, position, find, min, if◌then◌else◌,
}
use eventage_rs.Json.{Value, null, boolean, text, object, field, end, nat_value, list_value}
use eventage_rs.Event.{Event, EventId, with_meta}
use eventage_rs.Event
use eventage_rs.Event.Kinds
use eventage_rs.Event.MetaKeys
use eventage_rs.Runtime.{Runtime}
use eventage_rs.Store.{
  DagStore, BranchId, RejectedBranch, BranchData, active_tip, resolve, evict_excess_branches,
}
use eventage_rs.Store
use eventage_rs.Channel.{SenderInner, unbounded, bounded, fan_out}

-- `usize::MAX` on a 64-bit target.
abbrev pub usize_max : ℕ
usize_max = 0xffff_ffff_ffff_ffff

pub record BusConfig : Type 0 where
  pub max_retained_branches : ℕ
  pub subscriber_capacity : ℕ

abbrev pub default_config : BusConfig
default_config = record { max_retained_branches = usize_max; subscriber_capacity = usize_max }

-- `evicted` collects the calls of the eviction strategy's `on_evict`, in order.
pub record EventBus (S : Type 0) : Type 0 where
  pub store : DagStore
  pub subs : List (SenderInner S)
  pub config : BusConfig
  pub transforms : List (Event → Event)
  pub evicted : List BranchData

pub data BusError : Type 0 where
  channel_closed : BusError
  checkpoint_not_found : EventId → BusError

pub data Result (A : Type 0) : Type 0 where
  ok : A → Result A
  err : BusError → Result A

unfoldable pub with_config : {S : Type 0} → BusConfig → EventBus S
with_config c = record { store = Store.new; subs = []; config = c; transforms = []; evicted = [] }

unfoldable pub add_publish_transform : {S : Type 0} → EventBus S → (Event → Event) → EventBus S
add_publish_transform b f = record b { transforms = b.transforms ++ f ∷ [] }

-- The fold of the registered transforms, in registration order.
abbrev pub transform : List (Event → Event) → Event → Event
transform [] e = e
transform (f ∷ fs) e = transform fs (f e)

unfoldable pub mark_ephemeral : Event → Event
mark_ephemeral e = with_meta e MetaKeys.ephemeral (boolean true)

unfoldable pub close : {S : Type 0} → EventBus S → EventBus S
close b = record b { subs = [] }

-- The parent that `publish` fills in, unless the event names one.
abbrev pub link : DagStore → Event → Event
link s e = record e {
  parent_event_id = elim e.parent_event_id [ none ↦ active_tip s | some p ↦ some p ];
}

unfoldable pub append : DagStore → Event → DagStore
append s e = record s {
  nodes = insert e.id (link s e) s.nodes;
  active_path = s.active_path ++ e.id ∷ [];
}

unfoldable pub log : {S : Type 0} → EventBus S → List Event
log b = resolve b.store.nodes b.store.active_path

unfoldable pub log_since : {S : Type 0} → EventBus S → ℕ → List Event
log_since b index =
    let start : ℕ = min index (length b.store.active_path) in
    resolve b.store.nodes (drop start b.store.active_path)

unfoldable pub log_len : {S : Type 0} → EventBus S → ℕ
log_len b = length b.store.active_path

-- An unset parent has no anchor.
abbrev pub has_parent : EventId → RejectedBranch → Bool
has_parent anchor b = elim b.parent_event_id [ none ↦ false | some p ↦ p == anchor ]

unfoldable pub rejected_branches_from : {S : Type 0} → EventBus S → EventId → List (List Event)
rejected_branches_from b anchor =
    map (λ r. resolve b.store.nodes r.event_ids)
      (filter (has_parent anchor) b.store.rejected_branches)

unfoldable pub all_rejected_branches : {S : Type 0} → EventBus S → List (BranchId × List Event)
all_rejected_branches b =
    map (λ r. (r.id, resolve b.store.nodes r.event_ids)) b.store.rejected_branches

-- What `rollback` remembers from sealing for its later phases.
pub record Sealed : Type 0 where
  pub parent_event_id : Option EventId
  pub rejected_event_ids : List EventId

abbrev pub parent_at : List EventId → ℕ → Option EventId
parent_at path zero = none
parent_at path (suc p) = get_elem? path p

abbrev pub sealed_at : List EventId → ℕ → Sealed
sealed_at path pos = record {
  parent_event_id = parent_at path pos;
  rejected_event_ids = drop pos path;
}

unfoldable pub seal_at : DagStore → BranchId → ℕ → DagStore
seal_at s branch_id pos = record s {
  active_path = take pos s.active_path;
  rejected_branches =
      s.rejected_branches
      ++ (record {
        id = branch_id;
        parent_event_id = parent_at s.active_path pos;
        event_ids = drop pos s.active_path;
      })
        ∷ [];
}

-- The second critical section of `rollback`, and the counts that it reports.
unfoldable pub evict : {S : Type 0} → EventBus S → EventBus S × ℕ × ℕ
evict b =
    let e : Store.Eviction = evict_excess_branches b.config.max_retained_branches b.store in
    (
      record b { store = e.store; evicted = b.evicted ++ e.notified },
      e.evicted_branches,
      e.evicted_nodes,
    )

-- The fresh identifiers and the time that one `rollback` draws.
pub record Fresh : Type 0 where
  pub branch_id : BranchId
  pub sealed_id : EventId
  pub pruned_id : EventId
  pub tombstone_id : EventId
  pub now : ℕ

unfoldable pub pruned_event : Fresh → ℕ → ℕ → Event
unfolding mark_ephemeral
pruned_event fresh branches nodes = mark_ephemeral (
    Event.new fresh.pruned_id fresh.now Kinds.system_pruned (
      object (
        field "evicted_branches" (nat_value branches)
          (field "evicted_nodes" (nat_value nodes) end))))

module _ (rt : Runtime) where
  open rt use {Sender, unbounded_channel, channel, to_string}

  abbrev pub Bus : Type 0
  Bus = EventBus Sender

  -- Storing and fanning out happen under one lock; the method returns `Ok(())` on every path.
  unfoldable pub publish : Bus → Event → Bus
  publish b e =
      let e' : Event = transform b.transforms e in
      record b { store = append b.store e'; subs = fan_out rt b.subs (link b.store e') }

  unfoldable pub broadcast : Bus → Event → Bus
  broadcast b e = record b { subs = fan_out rt b.subs (mark_ephemeral (transform b.transforms e)) }

  -- The new subscription stands last.
  unfoldable pub subscribe : Bus → Bus
  subscribe b =
      let tx : SenderInner Sender =
        if b.config.subscriber_capacity == usize_max
        then unbounded unbounded_channel
        else bounded (channel b.config.subscriber_capacity) in
      record b { subs = b.subs ++ tx ∷ [] }

  unfoldable pub checkpoint : Bus → EventId → ℕ → Bus × EventId
  checkpoint b id now = (publish b (Event.new id now Kinds.checkpoint (object end)), id)

  -- The first critical section of `rollback`.
  unfoldable pub seal : Bus → EventId → BranchId → Result (Bus × Sealed)
  seal b checkpoint_event_id branch_id = elim (position checkpoint_event_id b.store.active_path) [
    | none ↦ err (checkpoint_not_found checkpoint_event_id)
    | some pos ↦
        ok (record b { store = seal_at b.store branch_id pos }, sealed_at b.store.active_path pos)
  ]

  unfoldable pub sealed_event : EventId → Fresh → Event
  unfolding mark_ephemeral
  sealed_event checkpoint_event_id fresh = mark_ephemeral (
      Event.new fresh.sealed_id fresh.now Kinds.branch_sealed (
        object (
          field "branch_id" (text (to_string fresh.branch_id)) (
            field "checkpoint_event_id" (text (to_string checkpoint_event_id))
              (field "reason" (text "rejected_trajectory") end)))))

  -- The observability broadcasts of `rollback`, under one lock of the subscriptions.
  unfoldable pub announce : Bus → EventId → Fresh → ℕ → ℕ → Bus
  announce b checkpoint_event_id fresh branches nodes =
      let subs : List (SenderInner Sender) =
        fan_out rt b.subs (sealed_event checkpoint_event_id fresh) in
      record b {
        subs = if ltb 0 branches then fan_out rt subs (pruned_event fresh branches nodes) else subs;
      }

  abbrev pub id_or_null : Option EventId → Value
  id_or_null none = null
  id_or_null (some i) = text (to_string i)

  unfoldable pub tombstone : EventId → Fresh → Sealed → Event
  tombstone checkpoint_event_id fresh s =
      Event.new fresh.tombstone_id fresh.now Kinds.system_rollback (
        object (
          field "branch_id" (text (to_string fresh.branch_id)) (
            field "checkpoint_event_id" (text (to_string checkpoint_event_id)) (
              field "parent_event_id" (id_or_null s.parent_event_id) (
                field "rejected_event_ids"
                  (list_value (map (λ i. text (to_string i)) s.rejected_event_ids)) end)))))

  -- The three later phases of `rollback`, when nothing else runs between them.
  unfoldable pub finish_rollback : Bus → EventId → Fresh → Sealed → Bus
  finish_rollback b checkpoint_event_id fresh s =
      let (b', branches, nodes) = evict b in
      publish (announce b' checkpoint_event_id fresh branches nodes)
        (tombstone checkpoint_event_id fresh s)

  unfoldable pub rollback : Bus → EventId → Fresh → Result (Bus × BranchId)
  unfolding seal finish_rollback
  rollback b checkpoint_event_id fresh = elim (seal b checkpoint_event_id fresh.branch_id) [
    | err e ↦ err e
    | ok (b', s) ↦ ok (finish_rollback b' checkpoint_event_id fresh s, fresh.branch_id)
  ]

  -- `wait_for` subscribes, and reads what its subscription yields until the channel closes.
  unfoldable pub wait_for : (Event → Bool) → List Event → Result Event
  wait_for predicate received = elim (find predicate received) [
    | none ↦ err channel_closed
    | some e ↦ ok e
  ]
