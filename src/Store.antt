-- ===== src/Store.antt =====
-- src/bus.rs, the DAG store behind the bus: the registry of events, the active path, the sealed
-- branches, and their eviction.
pub mod Soundness
pub mod Reading
pub mod Reclaim
use eventage_rs.Prelude.{
  ℕ, ◌-◌, Bool, ◌||◌, Option, List, [], map, length, take, drop, any, filter_map, contains, lookup,
  retain, last, leb, if◌then◌else◌,
}
use eventage_rs.Event.{Event, EventId}

abbrev pub BranchId : Type 0
BranchId = ℕ

pub record BranchData : Type 0 where
  pub id : BranchId
  pub parent_event_id : Option EventId
  pub events : List Event

pub record RejectedBranch : Type 0 where
  pub id : BranchId
  pub parent_event_id : Option EventId
  pub event_ids : List EventId

pub record DagStore : Type 0 where
  pub nodes : List (EventId × Event)
  pub active_path : List EventId
  pub rejected_branches : List RejectedBranch

abbrev pub new : DagStore
new = record { nodes = []; active_path = []; rejected_branches = [] }

abbrev pub active_tip : DagStore → Option EventId
active_tip s = last s.active_path

-- `ids.iter().filter_map(|id| store.nodes.get(id).cloned()).collect()`.
abbrev pub resolve : List (EventId × Event) → List EventId → List Event
resolve nodes ids = filter_map (λ i. lookup i nodes) ids

abbrev pub branch_data : List (EventId × Event) → RejectedBranch → BranchData
branch_data nodes b = record {
  id = b.id;
  parent_event_id = b.parent_event_id;
  events = resolve nodes b.event_ids;
}

-- The set that the garbage collection keeps, as a test.
abbrev pub retained : List EventId → List RejectedBranch → EventId → Bool
retained path branches i = contains path i || any (λ b. contains b.event_ids i) branches

-- What `evict_excess_branches` leaves, the strategy's callbacks in order, and the two counts.
pub record Eviction : Type 0 where
  pub store : DagStore
  pub notified : List BranchData
  pub evicted_branches : ℕ
  pub evicted_nodes : ℕ

evict_oldest : ℕ → DagStore → Eviction
evict_oldest excess s =
    let kept : List RejectedBranch = drop excess s.rejected_branches in
    let evicted : List RejectedBranch = take excess s.rejected_branches in
    let nodes : List (EventId × Event) = retain (retained s.active_path kept) s.nodes in
    record {
      store = record s { nodes = nodes; rejected_branches = kept };
      notified = map (branch_data s.nodes) evicted;
      evicted_branches = length evicted;
      evicted_nodes = length s.nodes - length nodes;
    }

unfoldable pub evict_excess_branches : ℕ → DagStore → Eviction
unfolding evict_oldest
evict_excess_branches max s =
    if leb (length s.rejected_branches) max
    then record { store = s; notified = []; evicted_branches = 0; evicted_nodes = 0 }
    else evict_oldest (length s.rejected_branches - max) s
