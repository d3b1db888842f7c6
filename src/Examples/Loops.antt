-- ===== src/Examples/Loops.antt =====
-- An agent whose provider is down: it apologises, and tries again after its backoff.
use Prim.Native.String.{String}
use eventage_rs.Prelude.{ℕ, ◌≡◌, refl, true, [], ◌∷◌, arith}
use eventage_rs.Json.{text, object, field, end}
use eventage_rs.Event
use eventage_rs.Event.Kinds
use eventage_rs.Bus.{with_config, default_config}
use eventage_rs.Stuck.{StuckKind}
use eventage_rs.Glob.{codes}
use eventage_rs.Strategy.{World}
use eventage_rs.Strategy.React.{Result, err, AgentError}
use eventage_rs.Agent.{Received, wake, run}
use eventage_rs.Agent.Waking.{WakesOrFailed, run-receive_wakes}
use eventage_rs.Examples.{queues, unary}

abbrev Alone : Type 0
Alone = World queues Unit

abbrev world : Alone
world = record { bus = with_config default_config; shared = tt; step = 0; drawn = 0 }

abbrev down : String → Alone → Result Unit × Alone
down trace_id w = (err (AgentError.llm "down"), w)

abbrev looping : StuckKind → String
looping kind = "Loop"

abbrev at : ℕ → Received
at clock = record {
  event = Event.new 90 clock Kinds.user_message (object (field "text" (text "hello") end));
  taken_at = clock;
  done_at = clock;
}

abbrev spread : Alone → ℕ
spread w = 0

hello_wakes : wake "agent" (at 50_000).event ≡ true
unfolding wake
hello_wakes = refl

run-receive_wakes_example :
    WakesOrFailed queues Unit
      (λ j. j)
      7
      "agent"
      unary
      codes
      looping
      spread
      down
      (at 50_000)
      (run queues Unit
        (λ j. j)
        7
        "agent"
        unary
        codes
        looping
        spread
        down
        1
        (at 10 ∷ at 11 ∷ [])
        world)
run-receive_wakes_example =
    run-receive_wakes queues Unit (λ j. j) 7 "agent" unary codes looping spread down 1
      (at 10 ∷ at 11 ∷ []) world 11 (at 50_000) (omega arith) (omega arith) hello_wakes
      (omega arith)
