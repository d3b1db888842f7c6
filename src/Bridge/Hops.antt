-- ===== src/Bridge/Hops.antt =====
-- How often an event crosses a pair of bridges (src/bridge.rs, `handle`).
use eventage_rs.Prelude.{ℕ, zero, suc, ◌==◌, ◌+◌, ◌≡◌, List, if◌then◌else◌}
use eventage_rs.Event.{Event}
use eventage_rs.Runtime.{Runtime}
use eventage_rs.Bus.{Bus, link, transform, log_len}
use eventage_rs.Bridge.{BusBridge, hops, forwarded, handle}

-- The transforms of a bus leave the counter of bridges alone.
abbrev pub KeepsHops : List (Event → Event) → Type 0
KeepsHops ts = (e : Event) → hops (transform ts e) ≡ hops e

module _ (rt : Runtime) where
  -- What the bus behind a bridge delivers when the bridge has forwarded an event.
  abbrev pub delivered : BusBridge rt → Event → Event
  delivered b e = link b.target.store (transform b.target.transforms (forwarded e))

  -- Two bridges back to back: if a bridge's handling of an event adds one to its target, the other
  -- bridge is handed what that bus delivered, and so on, `n` times at most.
  unfoldable pub bounce : ℕ → BusBridge rt → BusBridge rt → Event → BusBridge rt × BusBridge rt
  bounce zero a b e = (a, b)
  bounce (suc n) a b e =
      let a' : BusBridge rt = handle rt a e in
      let after : BusBridge rt × BusBridge rt = bounce n b a' (delivered a e) in
      if log_len a'.target == log_len a.target then (a', b) else (after.1, after.0)

  -- The events on the two buses together.
  abbrev pub total : BusBridge rt × BusBridge rt → ℕ
  total (a, b) = log_len a.target + log_len b.target
