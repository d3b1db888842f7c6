-- ===== src/RateLimit.antt =====
-- src/llm/rate_limit.rs: pacing by reserved slots. An `Instant` and a `Duration` are milliseconds;
-- the reading of the clock is an argument.
pub mod Spacing
use eventage_rs.Prelude.{ℕ, ◌+◌, ◌-◌, ◌/◌, ◌==◌, List, [], ◌∷◌, max, if◌then◌else◌}

pub record RateLimitedProvider : Type 0 where
  pub interval : ℕ
  pub next_slot : ℕ

unfoldable pub interval_of : ℕ → ℕ
interval_of requests_per_minute =
    if requests_per_minute == 0 then 0 else 60_000 / requests_per_minute

unfoldable pub new : ℕ → ℕ → RateLimitedProvider
new requests_per_minute now = record { interval = interval_of requests_per_minute; next_slot = now }

-- The time to sleep, and the provider with the slot moved on.
unfoldable pub reserve_slot : RateLimitedProvider → ℕ → ℕ × RateLimitedProvider
reserve_slot p now =
    if p.interval == 0
    then (0, p)
    else (p.next_slot - now, record p { next_slot = max now p.next_slot + p.interval })

-- The instants at which the calls that arrive at the given instants go out.
unfoldable pub dispatches : RateLimitedProvider → List ℕ → List ℕ
dispatches p [] = []
dispatches p (now ∷ nows) = let (wait, p') = reserve_slot p now in (now + wait) ∷ dispatches p' nows
