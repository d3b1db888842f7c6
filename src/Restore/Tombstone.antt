-- ===== src/Restore/Tombstone.antt =====
-- Reading back what a rollback wrote: its tombstone names exactly the events that it sealed.
use eventage_rs.Prelude.{
  ℕ, zero, suc, ◌≡◌, refl, ap, Bool, true, false, not, Option, none, some, List, [], ◌∷◌, map,
  filter, filter_map, contains, take, drop, position, Distinct, All, and_then, is_empty, get, put,
  get-put, arith, All-contains, contains-drop,
}
use eventage_rs.Json.{Value, text, boolean, list_to_items, items_to_list, as_str}
use eventage_rs.Event.{Event, EventId}
use eventage_rs.Event.MetaKeys
use eventage_rs.Runtime.{Runtime}
use eventage_rs.Store.{DagStore, BranchId}
use eventage_rs.Bus.{
  Fresh, sealed_event, pruned_event, append, link, mark_ephemeral, parent_at, sealed_at, seal_at,
  tombstone, id_or_null,
}
use eventage_rs.Restore.{is_ephemeral, rejected_ids, replay_rollback, restore_event}

items-list : (vs : List Value) → items_to_list (list_to_items vs) ≡ vs
items-list [] = refl
items-list (v ∷ vs) = ap (◌∷◌ v) (items-list vs)

-- A broadcast event is recognised when the stream is read back.
pub mark_ephemeral-is_ephemeral : (e : Event) → is_ephemeral (mark_ephemeral e) ≡ true
unfolding is_ephemeral mark_ephemeral
mark_ephemeral-is_ephemeral e = rw marked refl
  where
    marked :
        get MetaKeys.ephemeral (put MetaKeys.ephemeral (boolean true) e.metadata)
        ≡ some (boolean true)
    marked = get-put MetaKeys.ephemeral MetaKeys.ephemeral (boolean true) e.metadata

-- With distinct ids, the members of a suffix are the suffix, and the others the prefix.
-- So are the two announcements of a rollback.
pub sealed_event-is_ephemeral :
    (rt : Runtime) (cp : EventId) (fresh : Fresh) → is_ephemeral (sealed_event rt cp fresh) ≡ true
unfolding sealed_event mark_ephemeral is_ephemeral
sealed_event-is_ephemeral rt cp fresh = refl

pub pruned_event-is_ephemeral :
    (fresh : Fresh) (branches nodes : ℕ) → is_ephemeral (pruned_event fresh branches nodes) ≡ true
unfolding pruned_event mark_ephemeral is_ephemeral
pruned_event-is_ephemeral fresh branches nodes = refl

-- With distinct ids, the members of a suffix are the suffix, and the others the prefix.
filter-All : (p : ℕ → Bool) (is : List ℕ) → All (λ i. p i ≡ true) is → filter p is ≡ is
filter-All p [] h = refl
filter-All p (i ∷ is) h = rw h.0 (ap (◌∷◌ i) (filter-All p is h.1))

filter-nothing : (p : ℕ → Bool) (is : List ℕ) → All (λ i. p i ≡ false) is → filter p is ≡ []
filter-nothing p [] h = refl
filter-nothing p (i ∷ is) h = rw h.0 (filter-nothing p is h.1)

filter-contains-drop :
    (n : ℕ) (is : List ℕ) → Distinct is → filter (contains (drop n is)) is ≡ drop n is
filter-contains-drop zero is d =
    filter-All (contains is) is (All-contains (λ i. contains is i ≡ true) is (λ i h. h))
filter-contains-drop (suc n) [] d = refl
filter-contains-drop (suc n) (i ∷ is) d =
    rw (contains-drop n is i d.0) (filter-contains-drop n is d.1)

filter-not-contains-drop :
    (n : ℕ) (is : List ℕ) → Distinct is → filter (λ i. not (contains (drop n is) i)) is ≡ take n is
filter-not-contains-drop zero is d =
    filter-nothing _ is (All-contains (λ i. not (contains is i) ≡ false) is (λ i h. ap not h))
filter-not-contains-drop (suc n) [] d = refl
filter-not-contains-drop (suc n) (i ∷ is) d =
    rw (contains-drop n is i d.0) (ap (◌∷◌ i) (filter-not-contains-drop n is d.1))

position-drop :
    (i : ℕ) (is : List ℕ) (pos : ℕ) → position i is ≡ some pos → is_empty (drop pos is) ≡ false
position-drop i [] pos h = absurd (ground arith)
position-drop i (j ∷ is) zero h = refl
position-drop i (j ∷ is) (suc pos) h = position-drop i is pos (ground arith)

module _ (rt : Runtime) where
  open rt use {to_string, parse_str, parse-to_string}

  parse-ids :
      (is : List EventId)
      → filter_map (λ v. and_then (as_str v) parse_str) (map (λ i. text (to_string i)) is) ≡ is
  parse-ids [] = refl
  parse-ids (i ∷ is) = rw (parse-to_string i) (ap (◌∷◌ i) (parse-ids is))

  parse-parent : (o : Option EventId) → and_then (as_str (id_or_null rt o)) parse_str ≡ o
  parse-parent none = refl
  parse-parent (some i) = parse-to_string i

  module _ (cp : EventId) (fresh : Fresh) (s : DagStore) (pos : ℕ) where
    abbrev stone : Event
    stone =
        link (seal_at s fresh.branch_id pos) (tombstone rt cp fresh (sealed_at s.active_path pos))

    rejected_ids-stone : rejected_ids rt stone ≡ drop pos s.active_path
    unfolding rejected_ids tombstone
    rejected_ids-stone =
        rw (items-list (map (λ i. text (to_string i)) (drop pos s.active_path)))
          (parse-ids (drop pos s.active_path))

    pub replay-stone :
        (fallback : BranchId)
        → Distinct s.active_path
        → position cp s.active_path ≡ some pos
        → replay_rollback rt s stone fallback ≡ seal_at s fresh.branch_id pos
    unfolding replay_rollback seal_at tombstone
    replay-stone fallback d found =
        rw
          (
            rejected_ids-stone,
            position-drop cp s.active_path pos found,
            filter-contains-drop pos s.active_path d,
            filter-not-contains-drop pos s.active_path d,
            parse-parent (parent_at s.active_path pos),
            parse-to_string fresh.branch_id,
          )
          refl

    -- One round of the restore on the tombstone undoes what the rollback undid.
    pub restore-stone :
        (fallback : BranchId)
        → Distinct s.active_path
        → position cp s.active_path ≡ some pos
        → restore_event rt s stone fallback
          ≡ append
              (seal_at s fresh.branch_id pos)
              (tombstone rt cp fresh (sealed_at s.active_path pos))
    unfolding restore_event is_ephemeral append tombstone
    restore-stone fallback d found = rw (replay-stone fallback d found) refl
