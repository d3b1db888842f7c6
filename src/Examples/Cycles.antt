-- ===== src/Examples/Cycles.antt =====
-- A cycle of a small agent: a provider that first calls four tools and then answers, a tool that
-- echoes, one that panics, and a hook that aborts at a third.
use Prim.Native.String.{String}
use eventage_rs.Prelude.{
  ℕ, zero, suc, ◌+◌, ◌/◌, ◌≡◌, ◌↔◌, refl, Bool, true, false, ◌||◌, none, some, List, [], ◌∷◌, ◌++◌,
  map, any, length, if◌then◌else◌, str_eq, ltb,
}
use eventage_rs.Json.{Value, null, text, boolean, object, field, end, list_value}
use eventage_rs.Event.{Event, EventId}
use eventage_rs.Hook.{Reason, proceed, abort_cycle}
use eventage_rs.HookChain.{CycleHook}
use eventage_rs.Message.{ToolCall, ChatMessage, LlmResponse, user_message, plain, assistant}
use eventage_rs.Bus.{log, with_config, default_config}
use eventage_rs.Recovery.{success, find_orphaned_tool_calls}
use eventage_rs.Context.{assistant_messages}
use eventage_rs.Schema.{validate_at}
use eventage_rs.Schema.Keywords.{KeywordsHold}
use eventage_rs.Schema.Acceptance.{PropertiesHold, ItemsHold, validate_at_iff}
use eventage_rs.Truncate.{parsed, Texts}
use eventage_rs.Strategy.{TaskEnd, took, panicked, Tool, ToolRegistry, default_options, World}
use eventage_rs.Strategy.ToolCalls.{ToolPlan, is_aborted, plan_calls, execute_tools}
use eventage_rs.Strategy.ToolCalls.Answered.{execute_tools-answered}
use eventage_rs.Strategy.ToolCalls.Tickets.{Ticket, proposals, results, Ready, Adds, Adds-nil}
use eventage_rs.Strategy.ToolCalls.Cleared.{Halted, Gated, plan_calls-Cleared}
use eventage_rs.Strategy.React.{ok, LlmProvider, default_strategy, execute, assistant_payload}
use eventage_rs.Strategy.React.Running.{Steps, Ends, execute-Steps}
use eventage_rs.Strategy.React.Logged.{assistant_messages-roundtrip}
use eventage_rs.Strategy.React.Settled.{execute-settled}
use eventage_rs.Examples.{queues, unary}

abbrev pub bytes : String → List ℕ
bytes String.[] = []
bytes (String.◌∷◌ c s) = b'a' ∷ bytes s

abbrev pub letters_of : List ℕ → String
letters_of [] = ""
letters_of (b ∷ bs) = String.◌∷◌ "a" (letters_of bs)

abbrev pub same_text : Value → Value → Bool
same_text (text s) (text t) = str_eq s t
same_text null v = false
same_text _ v = false

abbrev pub plain_texts : Texts
plain_texts = record {
  render = λ v. "value";
  parse_json = λ s. parsed (object (field "input" (text s) end));
  same = same_text;
  print = unary;
  as_bytes = bytes;
  from_bytes = letters_of;
  word_count = λ s. 1;
  times_1_3 = λ n. n + (n + 2) / 3;
}

abbrev reason_text : Reason → String
reason_text reason = "no"

abbrev tool_named : String → (Value → ℕ → TaskEnd × ℕ) → Tool ℕ
tool_named name execute = record {
  name = name;
  description = "";
  parameters =
      object (field "type" (text "object") (field "required" (list_value (text "input" ∷ [])) end));
  is_terminal = false;
  execute = execute;
}

abbrev tools : ToolRegistry ℕ
tools =
    tool_named "echo" (λ args n. (took n (success args), n))
    ∷ tool_named "boom" (λ args n. (panicked, suc n))
    ∷ []

abbrev Small : Type 0
Small = World queues ℕ

abbrev guard : CycleHook Small ChatMessage
guard = record {
  before_step = λ w. (proceed, w);
  before_llm = λ p. (proceed, p);
  before_tool = λ name args w. (if str_eq name "danger" then abort_cycle else proceed, w);
  after_tool = λ name result w. w;
}

abbrev draw : ℕ → EventId
draw j = j

abbrev injective : (j k : ℕ) → draw j ≡ draw k → j ≡ k
injective j k e = e

abbrev world : Small
world = record { bus = with_config default_config; shared = 0; step = 0; drawn = 0 }

world-Ready : Ready queues ℕ draw world
unfolding with_config
world-Ready = record { plain = refl; unused = λ j h. refl }

before_tool-quiet :
    (name : String) (args : Value) (w : Small)
    → Ready queues ℕ draw w
    → Adds queues ℕ draw w (guard.before_tool name args w).1 [] []
before_tool-quiet name args w r = Adds-nil queues ℕ draw w r

after_tool-quiet :
    (name : String) (result : Value) (w : Small)
    → Ready queues ℕ draw w
    → Adds queues ℕ draw w (guard.after_tool name result w) [] []
after_tool-quiet name result w r = Adds-nil queues ℕ draw w r

before_llm-quiet :
    (messages : List ChatMessage) (w : Small)
    → Ready queues ℕ draw w
    → Adds queues ℕ draw w (guard.before_llm (w, messages)).1.0 [] []
before_llm-quiet messages w r = Adds-nil queues ℕ draw w r

before_step-quiet :
    (w : Small) → Ready queues ℕ draw w → Adds queues ℕ draw w (guard.before_step w).1 [] []
before_step-quiet w r = Adds-nil queues ℕ draw w r

abbrev call : String → String → ToolCall
call id name = record {
  id = id;
  kind = "function";
  function = record { name = name; arguments = "x" };
  extra_content = none;
}

abbrev calls : List ToolCall
calls = call "a" "echo" ∷ call "b" "boom" ∷ call "c" "danger" ∷ call "d" "echo" ∷ []

execute_tools-answered_example :
    (added : List Event) × (log
        (execute_tools queues ℕ draw 7 "agent" "trace" plain_texts reason_text guard default_options
          tools calls
          (1 ∷ 0 ∷ [])
          world).1.bus
      ≡ log world.bus ++ added)
    × (results added ≡ proposals added)
    × (map (λ (t : Ticket). t.0) (proposals added) ≡ map (λ (tc : ToolCall). some tc.id) calls)
execute_tools-answered_example =
    execute_tools-answered queues ℕ draw 7 "agent" "trace" injective plain_texts reason_text guard
      default_options tools before_tool-quiet after_tool-quiet calls (1 ∷ 0 ∷ []) world world-Ready

abbrev planned : List ToolPlan × Bool × Small
planned =
    plan_calls queues ℕ draw 7 "agent" "trace" plain_texts reason_text guard default_options tools
      calls false world

plan_calls-Cleared_example :
    Gated queues ℕ draw 7 "agent" "trace" plain_texts reason_text guard default_options tools calls
      false world planned.0
    × Halted false planned.0
    × (planned.1 ≡ (false || any (λ p. is_aborted p.veto) planned.0))
plan_calls-Cleared_example =
    plan_calls-Cleared queues ℕ draw 7 "agent" "trace" plain_texts reason_text guard default_options
      tools calls false world

abbrev response : List ToolCall → LlmResponse
response calls = record {
  content = some "on it";
  reasoning_content = none;
  tool_calls = calls;
  finish_reason = "stop";
  input_tokens = some 12;
  output_tokens = some 3;
  cached_input_tokens = none;
  provider_extra = some (boolean true);
}

abbrev answer : ℕ → LlmResponse
answer zero = response (call "a" "echo" ∷ call "b" "boom" ∷ [])
answer (suc n) = response []

abbrev pub provider : LlmProvider ℕ
provider = record {
  complete = λ messages defs n. (ok (answer n), suc n);
  complete_stream = λ messages defs n. (ok (answer n), [], suc n);
}

abbrev assembler : List Event → List (List Event) → ℕ → List ChatMessage × ℕ
assembler events rejected n = (user_message "hello" ∷ [], n)

abbrev first_first : Small → List ℕ
first_first w = 0 ∷ 1 ∷ []

abbrev by_length : String → String → Bool
by_length a b = ltb (length (bytes a)) (length (bytes b))

none_interrupted : find_orphaned_tool_calls (log world.bus) ≡ []
unfolding find_orphaned_tool_calls log with_config
none_interrupted = refl

execute-settled_example :
    find_orphaned_tool_calls (
      log
        (execute queues ℕ draw 7 "agent" "trace" plain_texts reason_text guard tools by_length none
          provider assembler first_first default_strategy world).1.bus)
    ≡ []
execute-settled_example =
    execute-settled queues ℕ draw 7 "agent" "trace" injective plain_texts reason_text guard tools
      by_length none provider assembler first_first before_tool-quiet after_tool-quiet
      before_llm-quiet before_step-quiet default_strategy world world-Ready none_interrupted

execute-Steps_example :
    (n : ℕ) × (w : Small) × Steps queues ℕ draw 7 "agent" "trace" plain_texts reason_text guard
      tools by_length none provider assembler first_first default_strategy n world w
    × Ends queues ℕ draw 7 "agent" "trace" plain_texts reason_text guard tools by_length none
        provider assembler first_first default_strategy n w
        (execute queues ℕ draw 7 "agent" "trace" plain_texts reason_text guard tools by_length none
          provider assembler first_first default_strategy world)
execute-Steps_example =
    execute-Steps queues ℕ draw 7 "agent" "trace" plain_texts reason_text guard tools by_length none
      provider assembler first_first default_strategy world

assistant_messages-roundtrip_example :
    assistant_messages (assistant_payload (response calls) none)
    ≡ record (plain assistant (some "on it")) {
      tool_calls = some calls;
      provider_extra = some (boolean true);
    }
      ∷ []
assistant_messages-roundtrip_example =
    assistant_messages-roundtrip (response calls) (call "a" "echo")
      (call "b" "boom" ∷ call "c" "danger" ∷ call "d" "echo" ∷ []) refl

validate_at_iff_example :
    (validate_at plain_texts.render unary same_text
        (object
          (field "type" (text "object") (field "required" (list_value (text "input" ∷ [])) end)))
        (object (field "input" (text "x") end))
        "arguments"
      ≡ none)
    ↔ (KeywordsHold plain_texts.render unary same_text
          (field "type" (text "object") (field "required" (list_value (text "input" ∷ [])) end))
          (object (field "input" (text "x") end))
        × PropertiesHold plain_texts.render unary same_text
            (field "type" (text "object") (field "required" (list_value (text "input" ∷ [])) end))
            (object (field "input" (text "x") end))
        × ItemsHold plain_texts.render unary same_text
            (field "type" (text "object") (field "required" (list_value (text "input" ∷ [])) end))
            (object (field "input" (text "x") end)))
validate_at_iff_example =
    validate_at_iff plain_texts.render unary same_text
      (field "type" (text "object") (field "required" (list_value (text "input" ∷ [])) end))
      (object (field "input" (text "x") end)) "arguments"
