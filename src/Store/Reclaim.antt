-- ===== src/Store/Reclaim.antt =====
-- What an eviction drops, and what it leaves as it was.
use eventage_rs.Prelude.{
  ℕ, zero, suc, ◌-◌, ◌≤◌, ◌<◌, ◌≡◌, refl, ap, false, inl, inr, none, List, [], ◌∷◌, map, length,
  take, drop, lookup, lookup-retain_dropped, All, All-always, All-map, length-drop, arith,
  Bool-cases, leb, contains, any,
}
use eventage_rs.Event.{EventId}
use eventage_rs.Store.{
  DagStore, RejectedBranch, resolve, branch_data, retained, evict_oldest, evict_excess_branches,
}
use eventage_rs.Store.Soundness.{resolve-retain, retained_path, retained_branches}

length-take_le {ℓ} : {A : Type ℓ} (n : ℕ) (xs : List A) → n ≤ length xs → length (take n xs) ≡ n
length-take_le zero xs h = refl
length-take_le (suc n) [] h = absurd (omega arith)
length-take_le (suc n) (x ∷ xs) h = ap suc (length-take_le n xs (omega arith))

any-unnamed :
    (branches : List RejectedBranch) (i : EventId)
    → All (λ b. contains b.event_ids i ≡ false) branches
    → any (λ b. contains b.event_ids i) branches ≡ false
any-unnamed [] i h = refl
any-unnamed (b ∷ branches) i h = ground (arith, h.0, any-unnamed branches i h.1)

retained-unnamed :
    (path : List EventId) (branches : List RejectedBranch) (i : EventId)
    → contains path i ≡ false
    → All (λ b. contains b.event_ids i ≡ false) branches
    → retained path branches i ≡ false
retained-unnamed path branches i h k = ground (arith, h, any-unnamed branches i k)

module _ (max : ℕ) (s : DagStore) where
  -- Whatever the store holds: afterwards at most `max` sealed branches are left, and they are the
  -- newest ones in their order; the strategy was called once for each of the oldest others, in
  -- order, with the branch's events as they were stored; the count returned is their number.
  pub evict_oldest_first :
      (length (evict_excess_branches max s).store.rejected_branches ≤ max)
      × ((evict_excess_branches max s).store.rejected_branches
          ≡ drop (length s.rejected_branches - max) s.rejected_branches)
      × ((evict_excess_branches max s).notified
          ≡ map (branch_data s.nodes) (take (length s.rejected_branches - max) s.rejected_branches))
      × ((evict_excess_branches max s).evicted_branches ≡ length s.rejected_branches - max)
  unfolding evict_excess_branches evict_oldest
  evict_oldest_first = elim (Bool-cases (leb (length s.rejected_branches) max)) [
    | inl few ↦
        let none_over : length s.rejected_branches - max ≡ 0 = ground arith in
        rw few (rw none_over (ground arith, refl, refl, refl))
    | inr many ↦ rw many (
      omega (arith, length-drop (length s.rejected_branches - max) s.rejected_branches),
      refl,
      refl,
      length-take_le (length s.rejected_branches - max) s.rejected_branches (omega arith),
    )
  ]

  -- The active path, the log read through it, and the events of every branch that stays are what
  -- they were before the eviction.
  pub evict_keeps_log :
      ((evict_excess_branches max s).store.active_path ≡ s.active_path)
      × (resolve (evict_excess_branches max s).store.nodes s.active_path
          ≡ resolve s.nodes s.active_path)
      × All
          (λ b.
            resolve (evict_excess_branches max s).store.nodes b.event_ids
            ≡ resolve s.nodes b.event_ids)
          (evict_excess_branches max s).store.rejected_branches
  unfolding evict_excess_branches evict_oldest
  evict_keeps_log = elim (Bool-cases (leb (length s.rejected_branches) max)) [
    | inl few ↦ rw few (refl, refl, All-always _ s.rejected_branches (λ b. refl))
    | inr many ↦
        let kept : List RejectedBranch =
          drop (length s.rejected_branches - max) s.rejected_branches in
        rw many (
          refl,
          resolve-retain (retained s.active_path kept) s.nodes s.active_path
              (retained_path s.active_path kept),
          All-map _ _ kept
              (λ b k. resolve-retain (retained s.active_path kept) s.nodes b.event_ids k)
              (retained_branches s.active_path kept),
        )
  ]

  -- After an eviction that happened, an event that neither the active path nor a remaining branch
  -- names is no longer in the registry.
  pub evict_collects :
      (i : EventId)
      → max < length s.rejected_branches
      → contains s.active_path i ≡ false
      → All
          (λ b. contains b.event_ids i ≡ false)
          (drop (length s.rejected_branches - max) s.rejected_branches)
      → lookup i (evict_excess_branches max s).store.nodes ≡ none
  unfolding evict_excess_branches evict_oldest
  evict_collects i over off_path off_branches =
      elim (Bool-cases (leb (length s.rejected_branches) max)) [
        | inl few ↦ absurd (ground arith)
        | inr many ↦ rw many (
            lookup-retain_dropped _ i s.nodes (
              retained-unnamed s.active_path
                (drop (length s.rejected_branches - max) s.rejected_branches) i off_path
                off_branches))
      ]
