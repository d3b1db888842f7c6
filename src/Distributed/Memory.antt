-- ===== src/Distributed/Memory.antt =====
-- The bounded memory of event ids (src/distributed.rs, `SeenEvents::insert`).
use mathlib.Core.List.{append_assoc}
use eventage_rs.Prelude.{
  ℕ, suc, ◌≤◌, ◌<◌, ◌≡◌, refl, ap, inl, inr, sym, ◌∙◌, true, false, List, [], ◌∷◌, ◌++◌, length,
  length-append, contains, contains-append, Distinct, Distinct-snoc, ltb, arith, Bool-cases, subst,
}
use eventage_rs.Event.{EventId}
use eventage_rs.Distributed.{SeenEvents, seen_capacity, remove, forget_oldest, insert}

-- The set holds what the queue holds, once each, and no more than the capacity.
abbrev pub IsBounded : SeenEvents → Type 0
IsBounded s = (s.ids ≡ s.order) × Distinct s.order × (length s.order ≤ seen_capacity)

remove-absent : (i : EventId) (ids : List EventId) → contains ids i ≡ false → remove i ids ≡ ids
unfolding remove
remove-absent i [] h = refl
remove-absent i (j ∷ ids) h = ground (arith, remove-absent i ids)

-- Forgetting the oldest keeps the set and the queue alike.
forget_oldest-tail :
    (x : EventId) (xs : List EventId)
    → contains xs x ≡ false
    → forget_oldest (x ∷ xs) (x ∷ xs) ≡ record { ids = xs; order = xs }
unfolding forget_oldest remove
forget_oldest-tail x xs h =
    let e : remove x (x ∷ xs) ≡ xs = ground (arith, remove-absent x xs h) in
    ap (λ ids. record { ids = ids; order = xs }) e

-- A memory whose set is its queue.
abbrev pub both : List EventId → SeenEvents
both ids = record { ids = ids; order = ids }

insert-known : (s : SeenEvents) (i : EventId) → contains s.ids i ≡ true → insert s i ≡ (s, false)
unfolding insert
insert-known s i h = rw h refl

insert-fits :
    (ids : List EventId) (i : EventId)
    → contains ids i ≡ false
    → length ids < seen_capacity
    → insert (both ids) i ≡ (both (ids ++ i ∷ []), true)
unfolding insert
insert-fits ids i h short =
    let room : ltb seen_capacity (length (ids ++ i ∷ [])) ≡ false =
      ground (arith, length-append ids (i ∷ [])) in
    rw (h, room) refl

insert-forgets :
    (x : EventId) (xs : List EventId) (i : EventId)
    → contains (x ∷ xs) i ≡ false
    → contains xs x ≡ false
    → seen_capacity ≤ suc (length xs)
    → insert (both (x ∷ xs)) i ≡ (both (xs ++ i ∷ []), true)
unfolding insert
insert-forgets x xs i h apart long =
    let over : ltb seen_capacity (length (x ∷ xs ++ i ∷ [])) ≡ true =
      ground (arith, length-append xs (i ∷ [])) in
    let apart' : contains (xs ++ i ∷ []) x ≡ false =
      ground (arith, contains-append xs (i ∷ []) x) in
    rw (h, over) (ap (λ s. (s, true)) (forget_oldest-tail x (xs ++ i ∷ []) apart'))

both-eta : (s : SeenEvents) → s.ids ≡ s.order → s ≡ both s.order
both-eta s e = ap (λ ids. record { ids = ids; order = s.order }) e

insert_full-IsBounded :
    (ids : List EventId) (i : EventId)
    → Distinct ids
    → length ids ≤ seen_capacity
    → contains ids i ≡ false
    → seen_capacity ≤ length ids
    → IsBounded (insert (both ids) i).0
insert_full-IsBounded [] i d short new full = absurd (omega arith)
insert_full-IsBounded (x ∷ xs) i d short new full =
    rw (insert-forgets x xs i new d.0 full)
      (refl, Distinct-snoc xs i d.1 (ground arith), omega (arith, length-append xs (i ∷ [])))

insert-both-IsBounded :
    (ids : List EventId) (i : EventId)
    → Distinct ids
    → length ids ≤ seen_capacity
    → IsBounded (insert (both ids) i).0
insert-both-IsBounded ids i d short = elim (Bool-cases (contains ids i)) [
  | inl known ↦ rw (insert-known (both ids) i known) (refl, d, short)
  | inr new ↦ elim (Bool-cases (ltb (length ids) seen_capacity)) [
    | inl fits ↦
        rw (insert-fits ids i new (ground arith))
          (refl, Distinct-snoc ids i d new, ground (arith, length-append ids (i ∷ [])))
    | inr full ↦ insert_full-IsBounded ids i d short new (ground arith)
  ]
]

-- Recording an id keeps the memory well formed: its set and its queue hold the same ids, without
-- repetition, and at most 8192 of them.
pub insert-IsBounded : (s : SeenEvents) (i : EventId) → IsBounded s → IsBounded (insert s i).0
insert-IsBounded s i (same, d, short) =
    subst (λ t. IsBounded (insert t i).0) (sym (both-eta s same))
      (insert-both-IsBounded s.order i d short)

-- The id stands in the queue with at most `n` newer ones.
abbrev pub Placed : SeenEvents → EventId → ℕ → Type 0
Placed s i n =
    (front : List EventId) × (newer : List EventId) × (s.order ≡ front ++ i ∷ newer)
    × (length newer ≤ n)

abbrev pub Remembers : SeenEvents → EventId → ℕ → Type 0
Remembers s i n = IsBounded s × Placed s i n

pub contains-middle :
    (front newer : List EventId) (i : EventId) → contains (front ++ i ∷ newer) i ≡ true
contains-middle [] newer i = ground arith
contains-middle (x ∷ front) newer i = ground (arith, contains-middle front newer i)

-- An id that is remembered is refused.
pub insert-Remembers :
    (s : SeenEvents) (i : EventId) (n : ℕ) → Remembers s i n → insert s i ≡ (s, false)
insert-Remembers s i n ((same, _, _), (front, newer, e, _)) =
    insert-known s i (rw (same, e) (contains-middle front newer i))

step_full :
    (front newer : List EventId) (i j : EventId) (n : ℕ)
    → length newer ≤ n
    → suc n < seen_capacity
    → Distinct (front ++ i ∷ newer)
    → contains (front ++ i ∷ newer) j ≡ false
    → seen_capacity ≤ length (front ++ i ∷ newer)
    → Placed (insert (both (front ++ i ∷ newer)) j).0 i (suc n)
step_full [] newer i j n few room d new full = absurd (omega arith)
step_full (x ∷ front) newer i j n few room d new full =
    rw (insert-forgets x (front ++ i ∷ newer) j new d.0 full) (
      front,
      newer ++ j ∷ [],
      append_assoc front (i ∷ newer) (j ∷ []),
      omega (arith, length-append newer (j ∷ [])),
    )

step_both :
    (front newer : List EventId) (i j : EventId) (n : ℕ)
    → IsBounded (both (front ++ i ∷ newer))
    → length newer ≤ n
    → suc n < seen_capacity
    → Placed (insert (both (front ++ i ∷ newer)) j).0 i (suc n)
step_both front newer i j n (_, d, short) few room =
    elim (Bool-cases (contains (front ++ i ∷ newer) j)) [
      | inl known ↦
          rw (insert-known (both (front ++ i ∷ newer)) j known) (front, newer, refl, omega arith)
      | inr new ↦ elim (Bool-cases (ltb (length (front ++ i ∷ newer)) seen_capacity)) [
        | inl fits ↦ rw (insert-fits (front ++ i ∷ newer) j new (ground arith)) (
          front,
          newer ++ j ∷ [],
          append_assoc front (i ∷ newer) (j ∷ []),
          omega (arith, length-append newer (j ∷ [])),
        )
        | inr full ↦ step_full front newer i j n few room d new (ground arith)
      ]
    ]

-- One more recorded id ages the memory by one, at most.
pub step-Remembers :
    (s : SeenEvents) (i j : EventId) (n : ℕ)
    → Remembers s i n
    → suc n < seen_capacity
    → Remembers (insert s j).0 i (suc n)
step-Remembers s i j n (v, (front, newer, e, few)) room =
    let whole : s ≡ both (front ++ i ∷ newer) = both-eta s v.0 ∙ ap both e in
    let (front', newer', e', few') =
      subst (λ t. Placed (insert t j).0 i (suc n)) (sym whole)
        (step_both front newer i j n (subst IsBounded whole v) few room) in
    (insert-IsBounded s j v, (front', newer', e', few'))

insert-Placed :
    (ids : List EventId) (i : EventId)
    → Distinct ids
    → contains ids i ≡ false
    → Placed (insert (both ids) i).0 i 0
insert-Placed [] i d new = rw (insert-fits [] i new (omega arith)) ([], [], refl, omega arith)
insert-Placed (x ∷ xs) i d new = elim (Bool-cases (ltb (length (x ∷ xs)) seen_capacity)) [
  | inl fits ↦ rw (insert-fits (x ∷ xs) i new (ground arith)) (x ∷ xs, [], refl, omega arith)
  | inr full ↦ rw (insert-forgets x xs i new d.0 (ground arith)) (xs, [], refl, omega arith)
]

-- An id just recorded for the first time is remembered, with none newer.
pub new-Remembers :
    (s : SeenEvents) (i : EventId)
    → IsBounded s
    → contains s.ids i ≡ false
    → Remembers (insert s i).0 i 0
new-Remembers s i v new =
    let (front, newer, e, few) =
      subst (λ t. Placed (insert t i).0 i 0) (sym (both-eta s v.0))
        (insert-Placed s.order i v.1 (subst (λ ids. contains ids i ≡ false) v.0 new)) in
    (insert-IsBounded s i v, (front, newer, e, few))

pub relax-Remembers :
    (s : SeenEvents) (i : EventId) (n : ℕ) → Remembers s i n → Remembers s i (suc n)
relax-Remembers s i n (v, (front, newer, e, few)) = (v, (front, newer, e, omega arith))
