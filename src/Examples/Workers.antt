-- ===== src/Examples/Workers.antt =====
-- Small runs of the stuck detection, the forwarders and the chains of hooks.
use Prim.Native.String.{String}
use eventage_rs.Prelude.{suc, ℕ, ◌≤◌, ◌≡◌, refl, true, List, [], ◌∷◌, ◌++◌, length, arith}
use eventage_rs.Event.{Event, EventId}
use eventage_rs.Event
use eventage_rs.Event.Kinds
use eventage_rs.Json.{object, end}
use eventage_rs.Bus.{default_config, log_len, log_since, append, with_config, publish}
use eventage_rs.Bus.Delivery.{publish_all}
use eventage_rs.HookChain.{DynamicHookChain, chain, go_on, add_arc, add_all, remove, replace_all}
use eventage_rs.HookChain.Consent.{chain-consent}
use eventage_rs.HookChain.Withdrawal.{IsNumbered, remove-add_arc, replace_all-IsNumbered}
use eventage_rs.Hook.{HookAction, proceed}
use eventage_rs.Glob.{codes}
use eventage_rs.Stuck.{
  monologue, detect_stuck, tail_of, context_loop, is_context_error, action_loop, repeated,
  error_loop, monologue_loop, is_monologue,
}
use eventage_rs.Stuck.Evidence.{Shows, detect_stuck-Shows}
use eventage_rs.Scheduler.{HeartbeatScheduler, is_idle, tick, heartbeat, is_activity}
use eventage_rs.Scheduler.Idle.{tick-next_is_idle, is_idle-behind_bookmark}
use eventage_rs.Bridge.{BusBridge}
use eventage_rs.Distributed.{DistributedBus, nothing_seen, inbound, outbound, insert}
use eventage_rs.Distributed.Memory.{IsBounded, insert-IsBounded}
use eventage_rs.Distributed.Echo.{hands_out, rounds, outbound-inbound_silent}
use eventage_rs.Examples.{queues}
use eventage_rs.Examples.Policies.{bus}

abbrev said : ℕ → Event
said i = Event.new i 100 Kinds.assistant_message (object end)

abbrev talk : List Event
talk = said 1 ∷ said 2 ∷ said 3 ∷ said 4 ∷ said 5 ∷ []

detect_stuck-Shows_example :
    ((front : List Event) × (talk ≡ front ++ tail_of talk 4))
    × (length (tail_of talk 4) ≤ 4)
    × Shows codes (tail_of talk 4) 4 monologue
unfolding detect_stuck context_loop tail_of is_context_error action_loop repeated error_loop
    monologue_loop is_monologue
detect_stuck-Shows_example =
    detect_stuck-Shows codes talk 4 (record { kind = monologue; repeat_count = 4 }) refl

abbrev scheduler : HeartbeatScheduler queues
scheduler = record {
  bus =
      publish queues (with_config default_config) (Event.new 1 100 Kinds.user_message (object end));
  skip_when_idle = true;
  last_len = 0;
}

abbrev replies : List Event
replies = said 3 ∷ []

tick-next_is_idle_example :
    is_idle queues (record (tick queues scheduler 2 101 "noon") {
      bus = publish_all queues (tick queues scheduler 2 101 "noon").bus replies;
    })
    ≡ true
unfolding is_idle is_activity heartbeat log_since publish append with_config
tick-next_is_idle_example =
    tick-next_is_idle queues scheduler 2 101 "noon" replies refl refl refl (refl, (refl, tt))
      (refl, (refl, tt))

abbrev rolled : HeartbeatScheduler queues
rolled = record { bus = bus; skip_when_idle = true; last_len = 10 }

is_idle-behind_bookmark_example :
    is_idle queues (record rolled {
      bus = publish_all queues bus (Event.new 6 100 Kinds.user_message (object end) ∷ []);
    })
    ≡ true
unfolding log_len
is_idle-behind_bookmark_example =
    is_idle-behind_bookmark queues rolled (Event.new 6 100 Kinds.user_message (object end) ∷ [])
      refl (omega arith)

abbrev bridge : BusBridge queues
bridge = record { target = bus; filter = []; max_hops = 1 }

insert-IsBounded_example : IsBounded (insert nothing_seen 7).0
insert-IsBounded_example = insert-IsBounded nothing_seen 7 (refl, tt, omega arith)

abbrev node : DistributedBus queues
node = record {
  bus = bus;
  node_id = "a";
  filter = [];
  seen = nothing_seen;
  sent = [];
  running = true;
}

outbound-inbound_silent_example :
    (outbound queues
      (rounds queues (inbound queues node (said 7)) (hands_out (said 8) true ∷ []))
      (said 7)
      true).sent
    ≡ (rounds queues (inbound queues node (said 7)) (hands_out (said 8) true ∷ [])).sent
outbound-inbound_silent_example =
    outbound-inbound_silent queues node (said 7) (said 7) (hands_out (said 8) true ∷ []) true
      (refl, tt, omega arith) refl (omega arith) refl

abbrev counting : ℕ → HookAction × ℕ
counting n = (proceed, suc n)

chain-consent_example :
    ((chain (counting ∷ []) 5).0 ≡ proceed)
    × ((counting (chain (counting ∷ []) 5).1).0 ≡ proceed)
    × (chain (counting ∷ counting ∷ counting ∷ []) 5
        ≡ chain (counting ∷ []) (counting (chain (counting ∷ []) 5).1).1)
unfolding chain go_on
chain-consent_example = chain-consent (counting ∷ []) counting (counting ∷ []) 5 refl

abbrev two_hooks : DynamicHookChain String
two_hooks = record { hooks = (0, "audit") ∷ (3, "budget") ∷ []; next_id = 4 }

remove-add_arc_example :
    (later : List (ℕ × String)) × ((add_all (add_arc two_hooks "policy").0 ("log" ∷ [])).hooks
      ≡ two_hooks.hooks ++ ((add_arc two_hooks "policy").1, "policy") ∷ later)
    × (remove (add_all (add_arc two_hooks "policy").0 ("log" ∷ [])) (add_arc two_hooks "policy").1
        ≡ (
          record (add_all (add_arc two_hooks "policy").0 ("log" ∷ [])) {
            hooks = two_hooks.hooks ++ later;
          },
          true,
        ))
remove-add_arc_example =
    remove-add_arc two_hooks "policy" ("log" ∷ [])
      ((refl, (refl, tt)), (omega arith, (omega arith, tt))) (omega arith)

replace_all-IsNumbered_example : IsNumbered (replace_all two_hooks ("policy" ∷ "log" ∷ []))
replace_all-IsNumbered_example =
    replace_all-IsNumbered two_hooks ("policy" ∷ "log" ∷ []) (omega arith)
