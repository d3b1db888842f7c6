-- ===== src/Restore.antt =====
-- src/bus.rs, `restore_from`: a persisted stream of events read back into a store.
pub mod Tombstone
pub mod Mirror
pub mod RoundTrip
use eventage_rs.Prelude.{
  String, Bool, false, ◌||◌, not, Option, none, some, List, [], ◌∷◌, ◌++◌, filter, filter_map,
  contains, insert, and_then, unwrap_or, is_empty, if◌then◌else◌, str_eq,
}
use eventage_rs.Json.{get_field, as_str, as_bool, as_array}
use eventage_rs.Event.{Event, EventId, meta}
use eventage_rs.Event.Kinds
use eventage_rs.Event.MetaKeys
use eventage_rs.Runtime.{Runtime}
use eventage_rs.Store.{DagStore, BranchId}
use eventage_rs.Bus.{Bus}

-- Events that were fanned out only, by their marker or by their kind.
unfoldable pub is_ephemeral : Event → Bool
is_ephemeral e =
    unwrap_or (and_then (meta e MetaKeys.ephemeral) as_bool) false
    || (str_eq e.kind Kinds.assistant_delta
        || (str_eq e.kind Kinds.branch_sealed || str_eq e.kind Kinds.system_pruned))

module _ (rt : Runtime) where
  open rt use {parse_str}

  -- The ids that a tombstone names; an entry that is no identifier is skipped.
  unfoldable pub rejected_ids : Event → List EventId
  rejected_ids e = elim (and_then (get_field e.payload "rejected_event_ids") as_array) [
    | none ↦ []
    | some ids ↦ filter_map (λ v. and_then (as_str v) parse_str) ids
  ]

  abbrev id_field : Event → String → Option EventId
  id_field e key = and_then (and_then (get_field e.payload key) as_str) parse_str

  -- A rollback replayed: the rejected events leave the active path for a sealed branch.
  unfoldable pub replay_rollback : DagStore → Event → BranchId → DagStore
  replay_rollback s e fallback =
      let rejected : List EventId = rejected_ids e in
      if is_empty rejected then s else record s {
        active_path = filter (λ i. not (contains rejected i)) s.active_path;
        rejected_branches =
            s.rejected_branches
            ++ (record {
              id = unwrap_or (id_field e "branch_id") fallback;
              parent_event_id = id_field e "parent_event_id";
              event_ids = filter (contains rejected) s.active_path;
            })
              ∷ [];
      }

  -- One round of the loop of `restore_from`; `fallback` is the id drawn if a tombstone has none.
  unfoldable pub restore_event : DagStore → Event → BranchId → DagStore
  restore_event s e fallback =
      if is_ephemeral e
      then s
      else let s' : DagStore =
          if str_eq e.kind Kinds.system_rollback then replay_rollback s e fallback else s in
        record s' { nodes = insert e.id e s'.nodes; active_path = s'.active_path ++ e.id ∷ [] }

  unfoldable pub restore_events : DagStore → List Event → (EventId → BranchId) → DagStore
  restore_events s [] fallback = s
  restore_events s (e ∷ es) fallback =
      restore_events (restore_event s e (fallback e.id)) es fallback

  unfoldable pub restore_from : Bus rt → List Event → (EventId → BranchId) → Bus rt
  restore_from b es fallback = record b { store = restore_events b.store es fallback }
