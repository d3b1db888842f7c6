-- ===== src/Strategy/React/Logged.antt =====
-- src/agent/strategy.rs and src/agent/context.rs: an answer of the provider, logged and read back.
use eventage_rs.Prelude.{
  ◌≡◌, refl, ap, ap₂, ◌∙◌, String, Option, none, some, cons_some, List, [], ◌∷◌, map, filter_map,
  and_then,
}
use eventage_rs.Json.{
  Value, object, field, end, items_to_list, list_to_items, get_field, list_value,
}
use eventage_rs.Message.{
  assistant, plain, assistant_with_tool_calls, ToolCall, ChatMessage, LlmResponse,
}
use eventage_rs.Context.{
  tool_call_of, tool_calls_of, assistant_messages, assistant_of, with_extra, str_of, to_list,
}
use eventage_rs.Strategy.React.{
  tool_call_to_json, set_some, text_value, text_or_null, assistant_payload,
}

read_call : (id kind name arguments : String) (extra : Option Value) → ToolCall
read_call id kind name arguments extra = record {
  id = id;
  kind = kind;
  function = record { name = name; arguments = arguments };
  extra_content = extra;
}

tool_call-fields :
    (id kind name arguments : String) (extra : Option Value)
    → tool_call_of (tool_call_to_json (read_call id kind name arguments extra))
      ≡ some (read_call id kind name arguments extra)
unfolding tool_call_of tool_call_to_json read_call
tool_call-fields id kind name arguments none = refl
tool_call-fields id kind name arguments (some extra) = refl

-- A call that is logged and read back is the same, with the provider's own content.
tool_call-roundtrip : (tc : ToolCall) → tool_call_of (tool_call_to_json tc) ≡ some tc
unfolding read_call
tool_call-roundtrip tc =
    tool_call-fields tc.id tc.kind tc.function.name tc.function.arguments tc.extra_content

calls-roundtrip :
    (calls : List ToolCall)
    → filter_map tool_call_of (items_to_list (list_to_items (map tool_call_to_json calls))) ≡ calls
calls-roundtrip [] = refl
calls-roundtrip (tc ∷ calls) = ap₂ cons_some (tool_call-roundtrip tc) (calls-roundtrip calls)

read_back :
    (content reasoning : Option String) (calls : List ToolCall) (extra : Option Value)
    → let payload : Value = object (
        set_some "provider_extra" extra (
          set_some "reasoning_content" (text_value reasoning) (
            field "content"
              (text_or_null content)
              (field "tool_calls" (list_value (map tool_call_to_json calls)) end)))) in
      (str_of payload "content" ≡ content)
      × (tool_calls_of payload ≡ calls)
      × (get_field payload "provider_extra" ≡ extra)
read_back none none calls none = (refl, calls-roundtrip calls, refl)
read_back none none calls (some x) = (refl, calls-roundtrip calls, refl)
read_back none (some t) calls none = (refl, calls-roundtrip calls, refl)
read_back none (some t) calls (some x) = (refl, calls-roundtrip calls, refl)
read_back (some c) none calls none = (refl, calls-roundtrip calls, refl)
read_back (some c) none calls (some x) = (refl, calls-roundtrip calls, refl)
read_back (some c) (some t) calls none = (refl, calls-roundtrip calls, refl)
read_back (some c) (some t) calls (some x) = (refl, calls-roundtrip calls, refl)

abbrev read_message : Option String → List ToolCall → Option Value → List ChatMessage
read_message content calls extra =
    to_list (and_then (assistant_of content calls extra) (λ m. some (with_extra extra m)))

with_extra-plain :
    (content : Option String) (calls : List ToolCall) (extra : Option Value)
    → with_extra extra (assistant_with_tool_calls content calls)
      ≡ record (plain assistant content) { tool_calls = some calls; provider_extra = extra }
with_extra-plain content calls none = refl
with_extra-plain content calls (some x) = refl

-- A response with tool calls that is logged as an `assistant.message` and then read as context is
-- one message: an assistant's, with the response's content, its calls in order and unchanged, and
-- its provider state.
pub assistant_messages-roundtrip :
    (r : LlmResponse) (tc : ToolCall) (calls : List ToolCall)
    → r.tool_calls ≡ tc ∷ calls
    → assistant_messages (assistant_payload r none)
      ≡ record (plain assistant r.content) {
        tool_calls = some (tc ∷ calls);
        provider_extra = r.provider_extra;
      }
        ∷ []
unfolding assistant_messages assistant_payload
assistant_messages-roundtrip r tc calls e =
    let (content, called, extra) =
      read_back r.content r.reasoning_content r.tool_calls r.provider_extra in
    (λ i. read_message (content i) ((called ∙ e) i) (extra i))
    ∙ ap (λ (m : ChatMessage). m ∷ []) (with_extra-plain r.content (tc ∷ calls) r.provider_extra)
