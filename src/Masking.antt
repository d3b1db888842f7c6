-- ===== src/Masking.antt =====
-- src/bus.rs, `secrets_masking_transform`. The text of a value, its parser and the replacement of a
-- text in a text are arguments.
use eventage_rs.Prelude.{◌≡◌, refl, String, not, Option, none, some, List, [], ◌∷◌, filter, str_eq}
use eventage_rs.Json.{Value}
use eventage_rs.Event.{Event}

module _ (to_string : Value → String) (from_str : String → Option Value)
    (replace : String → String → String) where
  -- `text.replace(secret, "[REDACTED]")` for one secret after the other.
  unfoldable pub redact : List String → String → String
  redact [] text = text
  redact (secret ∷ secrets) text = redact secrets (replace secret text)

  -- A text that no longer parses leaves the payload as it was.
  unfoldable pub masked_payload : List String → Value → Value
  unfolding redact
  masked_payload secrets payload = elim (from_str (redact secrets (to_string payload))) [
    | none ↦ payload
    | some masked ↦ masked
  ]

  abbrev pub mask_non_empty : List String → Event → Event
  mask_non_empty [] e = e
  mask_non_empty (secret ∷ secrets) e = record e {
    payload = masked_payload (secret ∷ secrets) e.payload;
  }

  unfoldable pub secrets_masking_transform : List String → Event → Event
  secrets_masking_transform secrets e = mask_non_empty (filter (λ s. not (str_eq s "")) secrets) e

  -- Where the redacted text does not parse, the payload is published as it is.
  unmasked_payload :
      (secrets : List String) (payload : Value)
      → from_str (redact secrets (to_string payload)) ≡ none
      → masked_payload secrets payload ≡ payload
  unfolding masked_payload
  unmasked_payload secrets payload h = rw (h, masked_payload) refl
