-- ===== src/Clearing.antt =====
-- src/agent/context_edit.rs: the assembler that replaces the bodies of large stale tool results.
-- The token count after an observation of the log, the weight of a candidate (the bits of a
-- non-negative float, which are ordered as the float is) and the product of the trigger with the
-- target fraction are arguments, since they are computed in floats.
pub mod Ratchet
use Prim.Native.String.{◌++◌ as append_text}
use eventage_rs.Prelude.{
  ℕ, zero, suc, ◌+◌, ◌-◌, ◌==◌, String, Bool, true, false, not, ◌&&◌, Option, none, some, List, [],
  ◌∷◌, ◌++◌, leb, ltb, length, take, filter, contains, unwrap_or, is_empty, if◌then◌else◌,
}
use eventage_rs.Event.{Event}
use eventage_rs.Message.{tool, is_role, ChatMessage}
use eventage_rs.Truncate.{Texts}

pub record ToolResultClearingAssembler : Type 0 where
  pub trigger_tokens : ℕ
  pub keep_recent : ℕ
  pub low_water : ℕ
  pub min_clear_bytes : ℕ
  pub cleared : List ℕ

abbrev pub new : ℕ → ℕ → ToolResultClearingAssembler
new trigger_tokens low_water = record {
  trigger_tokens = trigger_tokens;
  keep_recent = 2;
  low_water = low_water;
  min_clear_bytes = 512;
  cleared = [];
}

abbrev pub starts_with : List ℕ → List ℕ → Bool
starts_with [] s = true
starts_with (b ∷ bs) [] = false
starts_with (b ∷ bs) (c ∷ cs) = b == c && starts_with bs cs

-- A tool result by its ordinal, with its weight and its tokens.
pub record Candidate : Type 0 where
  pub ordinal : ℕ
  pub weight : ℕ
  pub tokens : ℕ

-- `sort_by` in falling order of weight; it is stable.
abbrev pub insert_candidate : Candidate → List Candidate → List Candidate
insert_candidate c [] = c ∷ []
insert_candidate c (d ∷ ds) =
    let rest = insert_candidate c ds in if leb d.weight c.weight then c ∷ d ∷ ds else d ∷ rest

abbrev pub sort_candidates : List Candidate → List Candidate
sort_candidates [] = []
sort_candidates (c ∷ cs) = insert_candidate c (sort_candidates cs)

-- The candidates are taken until enough is reclaimed.
abbrev pub pick : ℕ → ℕ → List Candidate → List ℕ
pick need reclaimed [] = []
pick need reclaimed (c ∷ cs) =
    let rest = pick need (reclaimed + c.tokens) cs in
    if leb need reclaimed then [] else c.ordinal ∷ rest

abbrev pub tool_results : List ChatMessage → List ChatMessage
tool_results messages = filter (λ m. is_role m.role tool) messages

module _ (texts : Texts) (count : List Event → List ChatMessage → ℕ) (weigh : ℕ → ℕ → ℕ → ℕ) where
  open texts use {as_bytes, print}

  abbrev byte_len : Option String → ℕ
  byte_len none = 0
  byte_len (some content) = length (as_bytes content)

  unfoldable pub placeholder : String → String
  placeholder original = append_text "[cleared by harness: " (
      append_text (print (length (as_bytes original)))
        " chars of stale tool output removed from context. The full result remains in the event log; re-run the tool if you need it again.]")

  abbrev already_cleared : Option String → Bool
  already_cleared none = false
  already_cleared (some content) = starts_with (as_bytes "[cleared by harness:") (as_bytes content)

  unfoldable pub clear_content : ChatMessage → ChatMessage
  unfolding placeholder
  clear_content m =
      if already_cleared m.content
      then m
      else record m { content = some (placeholder (unwrap_or m.content "")) }

  -- The messages from the tool result with this ordinal on.
  unfoldable pub apply_clearing : List ℕ → ℕ → List ChatMessage → List ChatMessage
  unfolding clear_content
  apply_clearing cleared ordinal [] = []
  apply_clearing cleared ordinal (m ∷ messages) =
      (if is_role m.role tool && contains cleared ordinal then clear_content m else m)
      ∷ apply_clearing cleared (if is_role m.role tool then suc ordinal else ordinal) messages

  -- The candidates among tool results, numbered from `i`.
  unfoldable pub candidates :
      ToolResultClearingAssembler → List Event → ℕ → ℕ → List ChatMessage → List Candidate
  candidates a events total i [] = []
  candidates a events total i (m ∷ results) =
      let rest = candidates a events total (suc i) results in
      if not (contains a.cleared i) && not (ltb (byte_len m.content) a.min_clear_bytes)
      then (record {
        ordinal = i;
        weight = weigh (byte_len m.content) i total;
        tokens = count events (m ∷ []);
      })
        ∷ rest
      else rest

  unfoldable pub select_for_clearing :
      ToolResultClearingAssembler → List Event → List ChatMessage → ℕ → List ℕ
  unfolding candidates
  select_for_clearing a events messages need =
      let results : List ChatMessage = tool_results messages in
      let total : ℕ = length results in
      pick need 0
        (sort_candidates (candidates a events total 0 (take (total - a.keep_recent) results)))

  -- The part of `assemble` that runs if the context is over the trigger.
  unfoldable pub clear_more :
      ToolResultClearingAssembler
      → List Event
      → List ChatMessage
      → List ChatMessage × ToolResultClearingAssembler
  unfolding select_for_clearing apply_clearing
  clear_more a events messages =
      let picked : List ℕ =
        select_for_clearing a events messages (count events messages - a.low_water) in
      let cleared : List ℕ = a.cleared ++ picked in
      if is_empty picked
      then (messages, a)
      else (apply_clearing cleared 0 messages, record a { cleared = cleared })

  -- What follows the inner assembler.
  unfoldable pub assemble :
      ToolResultClearingAssembler
      → List Event
      → List ChatMessage
      → List ChatMessage × ToolResultClearingAssembler
  unfolding clear_more
  assemble a events inner =
      let messages : List ChatMessage = apply_clearing a.cleared 0 inner in
      if ltb a.trigger_tokens (count events messages)
      then clear_more a events messages
      else (messages, a)
