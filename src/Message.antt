-- ===== src/Message.antt =====
-- src/llm/types.rs and src/llm/content.rs: messages, their parts, and tool calls.
use Prim.Native.String.{◌++◌ as append_text}
use eventage_rs.Prelude.{
  ℕ, String, Bool, not, Option, none, some, List, [], ◌∷◌, filter_map, any, is_empty, if◌then◌else◌,
  str_eq,
}
use eventage_rs.Json.{Value}

pub data Role : Type 0 where
  system user assistant tool : Role

abbrev pub is_role : Role → Role → Bool
is_role system system = Bool.true
is_role user user = Bool.true
is_role assistant assistant = Bool.true
is_role tool tool = Bool.true
is_role system r = Bool.false
is_role user r = Bool.false
is_role assistant r = Bool.false
is_role tool r = Bool.false

pub data ImageSource : Type 0 where
  url : String → ImageSource
  base64 : String → String → ImageSource

pub data ContentPart : Type 0 where
  text : String → ContentPart
  image : ImageSource → ContentPart

unfoldable pub to_data_url : ImageSource → String
to_data_url (url u) = u
to_data_url (base64 media_type bytes) =
    append_text "data:" (append_text media_type (append_text ";base64," bytes))

abbrev pub as_text : ContentPart → Option String
as_text (text t) = some t
as_text (image source) = none

-- `join("\n")`.
abbrev pub join_lines : List String → String
join_lines [] = ""
join_lines (t ∷ []) = t
join_lines (t ∷ u ∷ ts) = append_text t (append_text "\n" (join_lines (u ∷ ts)))

unfoldable pub parts_to_text : List ContentPart → String
parts_to_text parts = join_lines (filter_map as_text parts)

pub record FunctionCall : Type 0 where
  pub name : String
  pub arguments : String

pub record ToolCall : Type 0 where
  pub id : String
  pub kind : String
  pub function : FunctionCall
  pub extra_content : Option Value

pub record ChatMessage : Type 0 where
  pub role : Role
  pub content : Option String
  pub parts : List ContentPart
  pub tool_calls : Option (List ToolCall)
  pub tool_call_id : Option String
  pub name : Option String
  pub provider_extra : Option Value

-- A message of a role with a content, and nothing else.
abbrev pub plain : Role → Option String → ChatMessage
plain role content = record {
  role = role;
  content = content;
  parts = [];
  tool_calls = none;
  tool_call_id = none;
  name = none;
  provider_extra = none;
}

abbrev pub system_message : String → ChatMessage
system_message content = plain system (some content)

abbrev pub user_message : String → ChatMessage
user_message content = plain user (some content)

abbrev pub assistant_message : String → ChatMessage
assistant_message content = plain assistant (some content)

abbrev pub assistant_with_tool_calls : Option String → List ToolCall → ChatMessage
assistant_with_tool_calls content calls = record (plain assistant content) {
  tool_calls = some calls;
}

abbrev pub tool_result : String → String → ChatMessage
tool_result id content = record (plain tool (some content)) { tool_call_id = some id }

-- `(!text.is_empty()).then_some(text)`.
abbrev pub unless_empty : String → Option String
unless_empty t = if str_eq t "" then none else some t

unfoldable pub user_with_parts : List ContentPart → ChatMessage
user_with_parts parts = record (plain user (unless_empty (parts_to_text parts))) { parts = parts }

unfoldable pub with_parts : ChatMessage → List ContentPart → ChatMessage
with_parts m parts = record m { content = unless_empty (parts_to_text parts); parts = parts }

abbrev is_text : ContentPart → Bool
is_text (text t) = Bool.true
is_text (image source) = Bool.false

unfoldable pub is_multimodal : ChatMessage → Bool
is_multimodal m = any (λ p. not (is_text p)) m.parts

unfoldable pub content_parts : ChatMessage → List ContentPart
content_parts m =
    if is_empty m.parts
    then (elim m.content [ none ↦ [] | some t ↦ if str_eq t "" then [] else text t ∷ [] ])
    else m.parts

abbrev pub with_name : ChatMessage → String → ChatMessage
with_name m name = record m { name = some name }

abbrev pub with_provider_extra : ChatMessage → Value → ChatMessage
with_provider_extra m extra = record m { provider_extra = some extra }

-- `input_tokens` and its like are `none` if the provider does not report them.
pub record LlmResponse : Type 0 where
  pub content : Option String
  pub reasoning_content : Option String
  pub tool_calls : List ToolCall
  pub finish_reason : String
  pub input_tokens : Option ℕ
  pub output_tokens : Option ℕ
  pub cached_input_tokens : Option ℕ
  pub provider_extra : Option Value
