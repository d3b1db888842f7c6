-- ===== src/RateLimit/Spacing.antt =====
-- The pace that the limiter keeps.
use eventage_rs.Prelude.{
  ℕ, suc, ◌+◌, ◌-◌, ◌≤◌, ◌<◌, ◌≡◌, refl, subst, ap, false, ◌==◌, List, [], ◌∷◌, max, arith, length,
}
use eventage_rs.RateLimit.{RateLimitedProvider, reserve_slot, dispatches}

-- Neighbours are at least `gap` apart, and the first is not before `start`.
abbrev pub Spaced : ℕ → ℕ → List ℕ → Type 0
Spaced gap start [] = Unit
Spaced gap start (d ∷ ds) = (start ≤ d) × Spaced gap (d + gap) ds

-- Each call goes out at its arrival or later.
abbrev pub NotBefore : List ℕ → List ℕ → Type 0
NotBefore [] ds = Unit
NotBefore (now ∷ nows) [] = ⊥
NotBefore (now ∷ nows) (d ∷ ds) = (now ≤ d) × NotBefore nows ds

-- Whatever the instants at which calls arrive, also if the clock's readings are out of order: no
-- call is dropped, each goes out at its arrival or later, the first not before the reserved slot,
-- and each next one at least the interval after the one before it.
pub dispatches-Spaced :
    (p : RateLimitedProvider) (nows : List ℕ)
    → 0 < p.interval
    → Spaced p.interval p.next_slot (dispatches p nows)
      × NotBefore nows (dispatches p nows)
      × (length (dispatches p nows) ≡ length nows)
unfolding dispatches reserve_slot
dispatches-Spaced p [] positive = (tt, tt, refl)
dispatches-Spaced p (now ∷ nows) positive =
    let ih : Spaced p.interval (max now p.next_slot + p.interval) (dispatches next nows)
        × NotBefore nows (dispatches next nows)
        × (length (dispatches next nows) ≡ length nows) =
      dispatches-Spaced (record p { next_slot = max now p.next_slot + p.interval }) nows positive in
    rw reserved (
      (
        omega arith,
        subst (λ t. Spaced p.interval (t + p.interval) (dispatches next nows)) later ih.0,
      ),
      (omega arith, ih.1),
      ap suc ih.2,
    )
  where
    next : RateLimitedProvider
    next = record p { next_slot = max now p.next_slot + p.interval }

    no_zero : (p.interval == 0) ≡ false
    no_zero = ground arith

    reserved : reserve_slot p now ≡ (p.next_slot - now, next)
    reserved = rw no_zero refl

    later : max now p.next_slot ≡ now + (p.next_slot - now)
    later = omega arith
