-- ===== src/Examples/Sessions.antt =====
-- Small sessions on one bus: two events around a checkpoint, and a rollback to it.
use eventage_rs.Prelude.{
  ◌≤◌, ◌≡◌, ◌⊎◌, refl, true, false, none, some, List, [], ◌∷◌, ◌++◌, map, take, drop, length, last,
  contains, lookup, All, arith,
}
use eventage_rs.Event.{Event, EventId}
use eventage_rs.Event
use eventage_rs.Event.Kinds
use eventage_rs.Json.{object, end}
use eventage_rs.Store.{DagStore, branch_data, resolve, evict_excess_branches}
use eventage_rs.Store.Soundness.{IsSound}
use eventage_rs.Store.Reclaim.{evict_oldest_first, evict_keeps_log, evict_collects}
use eventage_rs.Channel.{unbounded}
use eventage_rs.Bus.{
  Bus, Fresh, ok, err, checkpoint_not_found, default_config, with_config, subscribe, log, rollback,
  link, seal_at, all_rejected_branches, tombstone, publish,
}
use eventage_rs.Bus.Rollback.{
  rollback-log, rollback-keeps_attempt, rollback-checkpoint_not_found, rolled_back, tombstone_at,
  publish-linked,
}
use eventage_rs.Bus.Delivery.{log-publish_all, publish_all, with_subs}
use eventage_rs.Restore.{is_ephemeral, restore_from}
use eventage_rs.Restore.Mirror.{Op, publishes, broadcasts, checkpoints, rollbacks, apply_all}
use eventage_rs.Restore.RoundTrip.{restore_from-exported}
use eventage_rs.Interleaving.{Action, seals, evicts, run, log-run}
use eventage_rs.Interleaving
use eventage_rs.Examples.{Queue, opened_queue, queues}

abbrev asked : Event
asked = Event.new 1 100 Kinds.user_message (object end)

abbrev marked : Event
marked = Event.new 2 101 Kinds.checkpoint (object end)

abbrev answered : Event
answered = Event.new 3 102 Kinds.assistant_message (object end)

abbrev fresh : Fresh
fresh = record { branch_id = 50; sealed_id = 51; pruned_id = 52; tombstone_id = 53; now = 103 }

abbrev session : List Op
session =
    publishes asked
    ∷ checkpoints 2 101
    ∷ publishes answered
    ∷ broadcasts marked
    ∷ rollbacks 2 fresh
    ∷ []

restore_from-exported_example :
    (tx : Queue) × ((apply_all queues (subscribe queues (with_config default_config)) session).subs
      ≡ unbounded tx ∷ [])
    × ((restore_from queues (with_config default_config) (tx.items) (λ i. i)).store
        ≡ (apply_all queues (subscribe queues (with_config default_config)) session).store)
unfolding is_ephemeral
restore_from-exported_example =
    restore_from-exported queues default_config session (λ i. i) refl (omega arith)
      (refl, (refl, (refl, (refl, tt)))) ((refl, refl), (tt, ((refl, refl), (tt, (tt, tt)))))

-- Two tasks on one bus: between the phases of one task's rollback, the other publishes.
abbrev interleaved : List Action
interleaved =
    Interleaving.publishes asked
    ∷ Interleaving.publishes marked
    ∷ Interleaving.publishes answered
    ∷ seals 2 50
    ∷ Interleaving.publishes (Event.new 4 104 Kinds.user_message (object end))
    ∷ evicts
    ∷ []

log-run_example :
    map (λ (e : Event). e.id) (log (run queues (with_config default_config) interleaved))
    ≡ (run queues (with_config default_config) interleaved).store.active_path
log-run_example = log-run queues default_config interleaved

abbrev store : DagStore
store = record {
  nodes = (1, asked) ∷ (2, marked) ∷ (3, answered) ∷ [];
  active_path = 1 ∷ 2 ∷ 3 ∷ [];
  rejected_branches = [];
}

abbrev bus : Bus queues
bus = record { store = store; subs = []; config = default_config; transforms = []; evicted = [] }

store-IsSound : IsSound store
store-IsSound = record {
  path = ((asked, refl, refl), ((marked, refl, refl), ((answered, refl, refl), tt)));
  branches = tt;
}

unused_id : contains bus.store.active_path (tombstone_at queues bus 2 fresh 1).id ≡ false
unfolding tombstone
unused_id = refl

rollback-log_example :
    (b' : Bus queues) × (rollback queues bus 2 fresh ≡ ok (b', 50))
    × (log b'
        ≡ take 1 (log bus) ++ link (seal_at store 50 1) (tombstone_at queues bus 2 fresh 1) ∷ [])
rollback-log_example = rollback-log queues bus 2 fresh 1 store-IsSound refl unused_id

rollback-keeps_attempt_example :
    last (all_rejected_branches (rolled_back queues bus 2 fresh 1)) ≡ some (50, drop 1 (log bus))
rollback-keeps_attempt_example =
    rollback-keeps_attempt queues bus 2 fresh 1 store-IsSound refl unused_id (omega arith)

rollback-checkpoint_not_found_example :
    ((contains bus.store.active_path 7 ≡ false)
      × (rollback queues bus 7 fresh ≡ err (checkpoint_not_found 7)))
    ⊎ ((contains bus.store.active_path 7 ≡ true)
        × ((b' : Bus queues) × (rollback queues bus 7 fresh ≡ ok (b', fresh.branch_id))))
rollback-checkpoint_not_found_example = rollback-checkpoint_not_found queues bus 7 fresh

abbrev heard : Bus queues
heard = record {
  store = store;
  subs = unbounded opened_queue ∷ unbounded opened_queue ∷ [];
  config = default_config;
  transforms = [];
  evicted = [];
}

abbrev two_more : List Event
two_more =
    Event.new 4 104 Kinds.user_message (object end)
    ∷ Event.new 5 105 Kinds.assistant_message (object end)
    ∷ []

log-publish_all_example :
    (tx : Queue) × ((publish_all queues heard two_more).subs
      ≡ (publish_all queues (with_subs queues heard []) two_more).subs
        ++ unbounded tx
          ∷ (publish_all queues
              (with_subs queues heard (unbounded opened_queue ∷ []))
              two_more).subs)
    × ((got : List Event) × (tx.items ≡ opened_queue.items ++ got)
        × (log (publish_all queues heard two_more) ≡ log heard ++ got))
log-publish_all_example =
    log-publish_all queues heard opened_queue [] (unbounded opened_queue ∷ []) two_more refl refl
      (refl, (refl, tt)) (refl, (refl, tt))

abbrev sealed : DagStore
sealed = record {
  nodes = (1, asked) ∷ (2, marked) ∷ (3, answered) ∷ [];
  active_path = 1 ∷ [];
  rejected_branches =
      (record { id = 50; parent_event_id = some 1; event_ids = 2 ∷ [] })
      ∷ (record { id = 60; parent_event_id = some 1; event_ids = 3 ∷ [] })
      ∷ [];
}

evict_oldest_first_example :
    (length (evict_excess_branches 1 sealed).store.rejected_branches ≤ 1)
    × ((evict_excess_branches 1 sealed).store.rejected_branches ≡ drop 1 sealed.rejected_branches)
    × ((evict_excess_branches 1 sealed).notified
        ≡ map (branch_data sealed.nodes) (take 1 sealed.rejected_branches))
    × ((evict_excess_branches 1 sealed).evicted_branches ≡ 1)
evict_oldest_first_example = evict_oldest_first 1 sealed

evict_keeps_log_example :
    ((evict_excess_branches 1 sealed).store.active_path ≡ 1 ∷ [])
    × (resolve (evict_excess_branches 1 sealed).store.nodes (1 ∷ [])
        ≡ resolve sealed.nodes (1 ∷ []))
    × All
        (λ b.
          resolve (evict_excess_branches 1 sealed).store.nodes b.event_ids
          ≡ resolve sealed.nodes b.event_ids)
        (evict_excess_branches 1 sealed).store.rejected_branches
evict_keeps_log_example = evict_keeps_log 1 sealed

evict_collects_example : lookup 2 (evict_excess_branches 1 sealed).store.nodes ≡ none
evict_collects_example = evict_collects 1 sealed 2 (omega arith) refl (refl, tt)

abbrev another : Event
another = Event.new 4 104 Kinds.user_message (object end)

publish-linked_example :
    ((p : EventId) × (another.parent_event_id ≡ some p)
      × (log (publish queues bus another) ≡ log bus ++ another ∷ []))
    ⊎ ((another.parent_event_id ≡ none)
        × (log (publish queues bus another)
            ≡ log bus ++ (record another { parent_event_id = some 3 }) ∷ []))
publish-linked_example = publish-linked queues bus another refl
