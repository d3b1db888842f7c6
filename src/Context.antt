-- ===== src/Context.antt =====
-- src/agent/context.rs: the event log as messages, the repair of unanswered tool calls, and the
-- assemblers. `parse_parts` is the derived deserialisation of a list of content parts and `render`
-- the text of a JSON value; both are arguments.
pub mod Repair
pub mod Cache
use Prim.Native.String.{◌++◌ as append_text}
use eventage_rs.Prelude.{
  ℕ, ◌-◌, ◌==◌, zero, suc, String, Bool, true, false, not, ◌&&◌, ◌||◌, Option, none, some, List, [],
  ◌∷◌, ◌++◌, filter, filter_map, any, and_then, unwrap_or, is_some, is_empty, leb, ltb, last,
  length, take, drop, get_elem?, if◌then◌else◌, str_eq,
}
use eventage_rs.Json.{Value, get_field, as_str, as_array}
use eventage_rs.Event.{Event, EventId}
use eventage_rs.Event.Kinds
use eventage_rs.Message.{
  Role, system, user, assistant, tool, is_role, ContentPart, base64, FunctionCall, ToolCall,
  ChatMessage, system_message, user_message, assistant_message, assistant_with_tool_calls,
  tool_result, user_with_parts, with_name,
}
use eventage_rs.Message

abbrev pub str_of : Value → String → Option String
str_of payload key = and_then (get_field payload key) as_str

unfoldable pub apply_name : ChatMessage → Value → ChatMessage
apply_name m payload = elim (str_of payload "name") [
  | none ↦ m
  | some name ↦ if str_eq name "" then m else with_name m name
]

-- One element of an event's `tool_calls`; one that lacks a field is skipped.
unfoldable pub tool_call_of : Value → Option ToolCall
tool_call_of tc = and_then (str_of tc "id") (λ id. and_then (get_field tc "function") (λ function.
    and_then (str_of function "name") (λ name. and_then (str_of function "arguments") (λ arguments.
      some (record {
        id = id;
        kind = unwrap_or (str_of tc "type") "function";
        function = record { name = name; arguments = arguments };
        extra_content = get_field tc "extra_content";
      })))))

abbrev pub tool_calls_of : Value → List ToolCall
tool_calls_of payload = elim (and_then (get_field payload "tool_calls") as_array) [
  | none ↦ []
  | some calls ↦ filter_map tool_call_of calls
]

abbrev pub with_extra : Option Value → ChatMessage → ChatMessage
with_extra none m = m
with_extra (some extra) m = record m { provider_extra = some extra }

-- The message of an `assistant.message` before its provider state is attached.
abbrev pub assistant_of : Option String → List ToolCall → Option Value → Option ChatMessage
assistant_of content (tc ∷ calls) extra = some (assistant_with_tool_calls content (tc ∷ calls))
assistant_of (some text) [] extra = some (assistant_message text)
assistant_of none [] (some extra) = some (assistant_message "")
assistant_of none [] none = none

abbrev pub to_list {ℓ} : {A : Type ℓ} → Option A → List A
to_list none = []
to_list (some a) = a ∷ []

unfoldable pub assistant_messages : Value → List ChatMessage
assistant_messages payload =
    let extra : Option Value = get_field payload "provider_extra" in
    to_list (
      and_then (assistant_of (str_of payload "content") (tool_calls_of payload) extra)
        (λ m. some (with_extra extra m)))

unfoldable pub image_part : Value → Option ContentPart
image_part payload = and_then (get_field payload "result") (λ result.
    and_then (get_field result "_image") (λ image.
      and_then (str_of image "media_type") (λ media_type.
        and_then (str_of image "data") (λ bytes. some (Message.image (base64 media_type bytes))))))

unfoldable pub stuck_messages : Value → List ChatMessage
stuck_messages payload = elim (str_of payload "hint") [
  | none ↦ []
  | some hint ↦
      with_name
        (user_message (
          append_text "[harness] Loop detected ("
            (append_text (unwrap_or (str_of payload "kind") "Loop") (append_text "): " hint))))
        "loop_detector"
      ∷ []
]

abbrev or_else {ℓ} : {A : Type ℓ} → Option A → Option A → Option A
or_else none b = b
or_else (some a) b = some a

abbrev mapped {ℓ κ} : {A : Type ℓ} {B : Type κ} → (A → B) → Option A → Option B
mapped f none = none
mapped f (some a) = some (f a)

-- ── The repair of unanswered tool calls ──
abbrev pub has_text : List String → String → Bool
has_text [] s = false
has_text (t ∷ ts) s = str_eq t s || has_text ts s

abbrev pub answered_by : ChatMessage → Option String
answered_by m = if is_role m.role tool then m.tool_call_id else none

-- The ids that some `tool` message of the list answers.
abbrev pub answered_ids : List ChatMessage → List String
answered_ids messages = filter_map answered_by messages

abbrev pub calls_of : ChatMessage → List ToolCall
calls_of m = if is_role m.role assistant then unwrap_or m.tool_calls [] else []

abbrev pub interrupted : ToolCall → ChatMessage
interrupted tc = tool_result tc.id (
    append_text "error: tool '"
      (append_text tc.function.name "' execution was interrupted and produced no result"))

unfoldable pub synthetic : List String → List ToolCall → List ChatMessage
synthetic answered [] = []
synthetic answered (tc ∷ calls) =
    let rest = synthetic answered calls in
    if has_text answered tc.id then rest else interrupted tc ∷ rest

unfoldable pub inject : List String → List ChatMessage → List ChatMessage
inject answered [] = []
inject answered (m ∷ messages) = m ∷ synthetic answered (calls_of m) ++ inject answered messages

unfoldable pub repair_tool_results : List ChatMessage → List ChatMessage
repair_tool_results messages =
    if any (λ m. not (is_empty (calls_of m))) messages
    then inject (answered_ids messages) messages
    else messages

module _ (parse_parts : Value → Option (List ContentPart)) (render : Value → String) where
  unfoldable pub user_message_from_payload : Value → Option ChatMessage
  user_message_from_payload payload =
      let plain : Option ChatMessage =
        mapped (λ t. apply_name (user_message t) payload) (str_of payload "text") in
      elim (and_then (get_field payload "parts") parse_parts) [
        | none ↦ plain
        | some [] ↦ plain
        | some (p ∷ parts) ↦ some (apply_name (user_with_parts (p ∷ parts)) payload)
      ]

  -- `result_for_context` if the result was too large, else the result, else the error.
  unfoldable pub result_text : Value → String
  result_text payload =
      unwrap_or
        (or_else
          (mapped render
            (or_else (get_field payload "result_for_context") (get_field payload "result")))
          (mapped (λ e. append_text "error: " (render e)) (get_field payload "error")))
        ""

  abbrev image_messages : Option ContentPart → List ChatMessage
  image_messages none = []
  image_messages (some part) =
      user_with_parts (Message.text "(image returned by the previous tool call)" ∷ part ∷ []) ∷ []

  unfoldable pub result_messages : Value → List ChatMessage
  result_messages payload = elim (str_of payload "tool_call_id") [
    | none ↦ []
    | some id ↦ tool_result id (result_text payload) ∷ image_messages (image_part payload)
  ]

  -- The messages that one event gives.
  unfoldable pub messages_of : Event → List ChatMessage
  messages_of e =
      if str_eq e.kind Kinds.user_message
        || (str_eq e.kind Kinds.agent_message || str_eq e.kind Kinds.system_message)
      then to_list (user_message_from_payload e.payload)
      else if str_eq e.kind Kinds.assistant_message
      then assistant_messages e.payload
      else if str_eq e.kind Kinds.tool_result
      then result_messages e.payload
      else if str_eq e.kind Kinds.agent_stuck
      then stuck_messages e.payload
      else []

  unfoldable pub events_to_messages_raw : List Event → List ChatMessage
  events_to_messages_raw [] = []
  events_to_messages_raw (e ∷ es) = messages_of e ++ events_to_messages_raw es

  unfoldable pub events_to_messages : List Event → List ChatMessage
  events_to_messages events = repair_tool_results (events_to_messages_raw events)

  pub record MessageCache : Type 0 where
    pub last_event_id : EventId
    pub event_count : ℕ
    pub messages : List ChatMessage

  -- `events[n - 1].id`.
  abbrev id_at : List Event → ℕ → Option EventId
  id_at events zero = none
  id_at events (suc n) = mapped (λ e. e.id) (get_elem? events n)

  abbrev is_id : Option EventId → EventId → Bool
  is_id none i = false
  is_id (some j) i = j == i

  abbrev rebuilt : List Event → EventId → List ChatMessage × Option MessageCache
  rebuilt events current_last_id =
      let messages : List ChatMessage = events_to_messages events in
      (
        messages,
        some (record {
          last_event_id = current_last_id;
          event_count = length events;
          messages = messages;
        }),
      )

  abbrev extended : MessageCache → List Event → EventId → List ChatMessage × Option MessageCache
  extended c events current_last_id =
      let messages : List ChatMessage =
        c.messages ++ events_to_messages (drop c.event_count events) in
      (
        messages,
        some (record {
          last_event_id = current_last_id;
          event_count = length events;
          messages = messages;
        }),
      )

  -- The messages, and the cache afterwards.
  unfoldable pub build_with_cache :
      Option MessageCache → List Event → List ChatMessage × Option MessageCache
  build_with_cache cache events = elim (last events) [
    | none ↦ ([], none)
    | some e ↦ elim cache [
      | none ↦ rebuilt events e.id
      | some c ↦
          if c.last_event_id == e.id
          then (c.messages, some c)
          else if ltb 0 c.event_count
              && (leb c.event_count (length events)
                  && is_id (id_at events c.event_count) c.last_event_id)
          then extended c events e.id
          else rebuilt events e.id
    ]
  ]

  pub record DefaultContextAssembler : Type 0 where
    pub system_prompt : Option String
    pub max_events : Option ℕ
    pub cache : Option MessageCache

  abbrev prompt_messages : Option String → List ChatMessage
  prompt_messages none = []
  prompt_messages (some prompt) = system_message prompt ∷ []

  unfoldable pub assemble :
      DefaultContextAssembler → List Event → List ChatMessage × DefaultContextAssembler
  assemble a events = elim a.max_events [
    | some max ↦ (
      prompt_messages a.system_prompt ++ events_to_messages (drop (length events - max) events),
      a,
    )
    | none ↦
        let (messages, cache) = build_with_cache a.cache events in
        (prompt_messages a.system_prompt ++ messages, record a { cache = cache })
  ]

-- The place behind the leading system messages.
unfoldable pub insert_summary : ChatMessage → List ChatMessage → List ChatMessage
insert_summary summary [] = summary ∷ []
insert_summary summary (m ∷ messages) =
    let rest = insert_summary summary messages in
    if is_role m.role system then m ∷ rest else summary ∷ m ∷ messages

-- `NegativeAwareContextAssembler`, after its inner assembler.
unfoldable pub assemble_negative :
    (List (List Event) → String) → List (List Event) → List ChatMessage → List ChatMessage
assemble_negative formatter [] messages = messages
assemble_negative formatter (branch ∷ branches) messages =
    insert_summary (system_message (formatter (branch ∷ branches))) messages
