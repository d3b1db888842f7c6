-- ===== src/Bridge.antt =====
-- src/bridge.rs: `BusBridge`, which forwards the events of one bus to another. The bus that it
-- reads hands it an event at a time; the kinds it subscribes to are the caller's filter.
pub mod Hops
use eventage_rs.Prelude.{ℕ, suc, max, String, List, [], leb, and_then, unwrap_or, if◌then◌else◌}
use eventage_rs.Json.{as_u64, nat_value}
use eventage_rs.Event.{Event, meta, with_meta}
use eventage_rs.Runtime.{Runtime}
use eventage_rs.Bus.{Bus, publish}

abbrev pub bridge_hops_key : String
bridge_hops_key = "bridge_hops"

module _ (rt : Runtime) where
  pub record BusBridge : Type 0 where
    pub target : Bus rt
    pub filter : List String
    pub max_hops : ℕ

  unfoldable pub new : Bus rt → BusBridge
  new target = record { target = target; filter = []; max_hops = 1 }

  unfoldable pub with_max_hops : BusBridge → ℕ → BusBridge
  with_max_hops b n = record b { max_hops = max n 1 }

unfoldable pub hops : Event → ℕ
hops e = unwrap_or (and_then (meta e bridge_hops_key) as_u64) 0

-- `hops + 1` does not overflow, since `hops` is below the `u64` `max_hops`.
unfoldable pub forwarded : Event → Event
forwarded e = with_meta e bridge_hops_key (nat_value (suc (hops e)))

module _ (rt : Runtime) where
  unfoldable pub handle : BusBridge rt → Event → BusBridge rt
  handle b e =
      if leb b.max_hops (hops e) then b else record b { target = publish rt b.target (forwarded e) }
