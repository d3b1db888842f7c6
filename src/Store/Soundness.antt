-- ===== src/Store/Soundness.antt =====
-- Every id of the active path and of a sealed branch names a stored event that carries that id.
use eventage_rs.Prelude.{
  ℕ, ◌-◌, ◌==◌, ◌≡◌, refl, ap, ◌∙◌, Bool, true, inl, inr, some, List, [], ◌∷◌, ◌++◌, map, length,
  drop, any, contains, lookup, insert, retain, All, All-append, All-drop, All-map, lookup-insert,
  lookup-retain, arith, Bool-cases, leb, All-contains, cons_some, ap₂,
}
use eventage_rs.Event.{Event, EventId}
use eventage_rs.Store.{
  DagStore, RejectedBranch, resolve, retained, evict_oldest, evict_excess_branches,
}

-- `i` names a stored event, and that event's own id is `i`.
abbrev pub Holds : List (EventId × Event) → EventId → Type 0
Holds nodes i = (e : Event) × (lookup i nodes ≡ some e) × (e.id ≡ i)

abbrev pub BranchHolds : List (EventId × Event) → RejectedBranch → Type 0
BranchHolds nodes b = All (Holds nodes) b.event_ids

pub record IsSound (s : DagStore) : Type 0 where
  pub path : All (Holds s.nodes) s.active_path
  pub branches : All (BranchHolds s.nodes) s.rejected_branches

pub Holds-insert :
    (nodes : List (EventId × Event)) (e : Event) (i : EventId)
    → Holds nodes i
    → Holds (insert e.id e nodes) i
Holds-insert nodes e i (d, h, k) = elim (Bool-cases (e.id == i)) [
  | inl same ↦ (e, ground (arith, lookup-insert e.id i e nodes), ground arith)
  | inr other ↦ (d, ground (arith, lookup-insert e.id i e nodes), k)
]

pub Holds-insert_self :
    (nodes : List (EventId × Event)) (e : Event) → Holds (insert e.id e nodes) e.id
Holds-insert_self nodes e = (e, ground (arith, lookup-insert e.id e.id e nodes), refl)

-- Storing an event keeps a list of ids sound.
pub All-Holds-insert :
    (nodes : List (EventId × Event)) (e : Event) (is : List EventId)
    → All (Holds nodes) is
    → All (Holds (insert e.id e nodes)) is
All-Holds-insert nodes e is h =
    All-map (Holds nodes) (Holds (insert e.id e nodes)) is (Holds-insert nodes e) h

pub BranchHolds-insert :
    (nodes : List (EventId × Event)) (e : Event) (bs : List RejectedBranch)
    → All (BranchHolds nodes) bs
    → All (BranchHolds (insert e.id e nodes)) bs
BranchHolds-insert nodes e bs h =
    All-map (BranchHolds nodes) (BranchHolds (insert e.id e nodes)) bs
      (λ b k. All-Holds-insert nodes e b.event_ids k) h

-- A new event at the end of the active path keeps the store sound.
pub record_event-IsSound :
    (s : DagStore) (e : Event)
    → IsSound s
    → IsSound (record s { nodes = insert e.id e s.nodes; active_path = s.active_path ++ e.id ∷ [] })
record_event-IsSound s e v = record {
  path =
      All-append (Holds (insert e.id e s.nodes)) s.active_path (e.id ∷ [])
        (All-Holds-insert s.nodes e s.active_path v.path) (Holds-insert_self s.nodes e, tt);
  branches = BranchHolds-insert s.nodes e s.rejected_branches v.branches;
}

Holds-retain :
    (keep : EventId → Bool) (nodes : List (EventId × Event)) (i : EventId)
    → keep i ≡ true
    → Holds nodes i
    → Holds (retain keep nodes) i
Holds-retain keep nodes i k (e, h, q) = (e, lookup-retain keep i nodes k ∙ h, q)

-- Ids that the test keeps stay sound under a garbage collection.
pub All-Holds-retain :
    (keep : EventId → Bool) (nodes : List (EventId × Event)) (is : List EventId)
    → All (λ i. keep i ≡ true) is
    → All (Holds nodes) is
    → All (Holds (retain keep nodes)) is
All-Holds-retain keep nodes [] k h = tt
All-Holds-retain keep nodes (i ∷ is) k h =
    (Holds-retain keep nodes i k.0 h.0, All-Holds-retain keep nodes is k.1 h.1)

-- A sound list of ids resolves to one event for each id, in order.
pub map-id-resolve :
    (nodes : List (EventId × Event)) (is : List EventId)
    → All (Holds nodes) is
    → map (λ (e : Event). e.id) (resolve nodes is) ≡ is
map-id-resolve nodes [] h = refl
map-id-resolve nodes (i ∷ is) ((e, q, k), h) = rw q (rw k (ap (◌∷◌ i) (map-id-resolve nodes is h)))

-- The garbage collection keeps the ids of the branches that stay.
branches_kept :
    (keep : EventId → Bool) (bs : List RejectedBranch)
    → ((i : EventId) → any (λ b. contains b.event_ids i) bs ≡ true → keep i ≡ true)
    → All (λ b. All (λ i. keep i ≡ true) b.event_ids) bs
branches_kept keep [] f = tt
branches_kept keep (b ∷ bs) f = (
  All-contains (λ i. keep i ≡ true) b.event_ids (λ i h. f i (ground arith)),
  branches_kept keep bs (λ i h. f i (ground arith)),
)

All-BranchHolds-retain :
    (keep : EventId → Bool) (nodes : List (EventId × Event)) (bs : List RejectedBranch)
    → All (λ b. All (λ i. keep i ≡ true) b.event_ids) bs
    → All (BranchHolds nodes) bs
    → All (BranchHolds (retain keep nodes)) bs
All-BranchHolds-retain keep nodes [] k h = tt
All-BranchHolds-retain keep nodes (b ∷ bs) k h =
    (All-Holds-retain keep nodes b.event_ids k.0 h.0, All-BranchHolds-retain keep nodes bs k.1 h.1)

pub retained_path :
    (path : List EventId) (bs : List RejectedBranch) → All (λ i. retained path bs i ≡ true) path
retained_path path bs = All-contains (λ i. retained path bs i ≡ true) path (λ i h. ground arith)

pub retained_branches :
    (path : List EventId) (bs : List RejectedBranch)
    → All (λ b. All (λ i. retained path bs i ≡ true) b.event_ids) bs
retained_branches path bs = branches_kept (retained path bs) bs (λ i h. ground arith)

evict_oldest-IsSound :
    (excess : ℕ) (s : DagStore) → IsSound s → IsSound (evict_oldest excess s).store
unfolding evict_oldest
evict_oldest-IsSound excess s v = record {
  path = All-Holds-retain keep s.nodes s.active_path (retained_path s.active_path kept) v.path;
  branches =
      All-BranchHolds-retain keep s.nodes kept (retained_branches s.active_path kept)
        (All-drop (BranchHolds s.nodes) excess s.rejected_branches v.branches);
}
  where
    kept : List RejectedBranch
    kept = drop excess s.rejected_branches

    keep : EventId → Bool
    keep = retained s.active_path kept

pub evict-IsSound :
    (max : ℕ) (s : DagStore) → IsSound s → IsSound (evict_excess_branches max s).store
unfolding evict_excess_branches
evict-IsSound max s v = elim (Bool-cases (leb (length s.rejected_branches) max)) [
  | inl few ↦ rw few v
  | inr many ↦ rw many (evict_oldest-IsSound (length s.rejected_branches - max) s v)
]

-- Resolving ids that the collection keeps gives the events that it gave before.
pub resolve-retain :
    (keep : EventId → Bool) (nodes : List (EventId × Event)) (is : List EventId)
    → All (λ i. keep i ≡ true) is
    → resolve (retain keep nodes) is ≡ resolve nodes is
resolve-retain keep nodes [] k = refl
resolve-retain keep nodes (i ∷ is) k =
    ap₂ cons_some (lookup-retain keep i nodes k.0) (resolve-retain keep nodes is k.1)
