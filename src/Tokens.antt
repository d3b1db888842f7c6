-- ===== src/Tokens.antt =====
-- src/agent/tokens.rs: the estimate of the tokens of a request.
use eventage_rs.Prelude.{
  ℕ, ◌+◌, ◌*◌, ◌/◌, String, Bool, true, false, Option, none, some, List, [], ◌∷◌, max, length,
  filter, unwrap_or,
}
use eventage_rs.Message.{ContentPart, text, image, ToolCall, ChatMessage}
use eventage_rs.Truncate.{Texts}

abbrev pub image_token_estimate : ℕ
image_token_estimate = 1_200

abbrev is_image : ContentPart → Bool
is_image (text t) = false
is_image (image source) = true

module _ (texts : Texts) where
  open texts use {as_bytes, word_count, times_1_3}

  unfoldable pub estimate_tokens : String → ℕ
  estimate_tokens s = max (times_1_3 (word_count s) + 4) (length (as_bytes s) / 4 + 4)

  unfoldable pub call_tokens : List ToolCall → ℕ
  call_tokens [] = 0
  call_tokens (tc ∷ calls) =
      estimate_tokens tc.function.arguments
      + estimate_tokens tc.function.name
      + 4
      + call_tokens calls

  abbrev content_tokens : Option String → ℕ
  content_tokens none = 0
  content_tokens (some content) = estimate_tokens content

  unfoldable pub message_tokens : ChatMessage → ℕ
  message_tokens m =
      content_tokens m.content
      + length (filter is_image m.parts) * image_token_estimate
      + call_tokens (unwrap_or m.tool_calls [])
      + 4

  unfoldable pub messages_token_count : List ChatMessage → ℕ
  messages_token_count [] = 0
  messages_token_count (m ∷ messages) = message_tokens m + messages_token_count messages
