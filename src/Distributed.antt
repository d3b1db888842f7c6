-- ===== src/Distributed.antt =====
-- src/distributed.rs: the bounded memory of event ids, and what one node does with an event that
-- arrives from a peer and with one that its own bus hands out. The transport is what the node has
-- given it to send; whether a send succeeds is an argument.
pub mod Memory
pub mod Echo
use eventage_rs.Prelude.{
  ℕ, String, Bool, true, false, not, ◌&&◌, ◌||◌, ◌==◌, Option, none, some, List, [], ◌∷◌, ◌++◌,
  length, filter, any, contains, ltb, and_then, is_empty, if◌then◌else◌, str_eq,
}
use eventage_rs.Json.{as_str, text}
use eventage_rs.Event.{Event, EventId, meta, with_meta}
use eventage_rs.Runtime.{Runtime}
use eventage_rs.Bus.{Bus, publish}

abbrev pub origin_node_key : String
origin_node_key = "origin_node"

abbrev pub seen_capacity : ℕ
seen_capacity = 8192

-- The set of ids, as a list in no particular order, and the queue of their arrival.
pub record SeenEvents : Type 0 where
  pub ids : List EventId
  pub order : List EventId

abbrev pub nothing_seen : SeenEvents
nothing_seen = record { ids = []; order = [] }

-- `ids.remove(&id)`.
unfoldable pub remove : EventId → List EventId → List EventId
remove i ids = filter (λ j. not (j == i)) ids

unfoldable pub forget_oldest : List EventId → List EventId → SeenEvents
forget_oldest ids [] = record { ids = ids; order = [] }
forget_oldest ids (oldest ∷ order) = record { ids = remove oldest ids; order = order }

-- The state after `insert`, and whether the id was new.
unfoldable pub insert : SeenEvents → EventId → SeenEvents × Bool
insert s i =
    let ids : List EventId = s.ids ++ i ∷ [] in
    let order : List EventId = s.order ++ i ∷ [] in
    if contains s.ids i
    then (s, false)
    else if ltb seen_capacity (length order)
    then (forget_oldest ids order, true)
    else (record { ids = ids; order = order }, true)

module _ (rt : Runtime) where
  -- `sent` is what the transport was given, in order; `running` is off once a loop was left.
  pub record DistributedBus : Type 0 where
    pub bus : Bus rt
    pub node_id : String
    pub filter : List String
    pub seen : SeenEvents
    pub sent : List Event
    pub running : Bool

  unfoldable pub should_forward : DistributedBus → Event → Bool
  should_forward n e = is_empty n.filter || any (λ k. str_eq k e.kind) n.filter

  -- One round of the inbound loop; `publish` does not fail.
  unfoldable pub inbound : DistributedBus → Event → DistributedBus
  inbound n e =
      let (seen, is_new) = insert n.seen e.id in
      if is_new
      then record n { seen = seen; bus = publish rt n.bus e }
      else record n { seen = seen }

  unfoldable pub is_foreign : DistributedBus → Event → Bool
  is_foreign n e = elim (and_then (meta e origin_node_key) as_str) [
    | none ↦ false
    | some origin ↦ not (str_eq origin n.node_id)
  ]

  unfoldable pub tagged : DistributedBus → Event → Event
  tagged n e = with_meta e origin_node_key (text n.node_id)

  -- One round of the outbound loop; `accepted` is whether the transport's send succeeds.
  unfoldable pub outbound : DistributedBus → Event → Bool → DistributedBus
  outbound n e accepted =
      let (seen, is_new) = insert n.seen e.id in
      if should_forward n e
      then (if is_foreign n e
          then n
          else (if is_new
              then record n { seen = seen; sent = n.sent ++ tagged n e ∷ []; running = accepted }
              else record n { seen = seen }))
      else n
