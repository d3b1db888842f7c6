-- ===== src/Examples/Clearings.antt =====
-- A context over its trigger: the oldest of two tool results is replaced.
use eventage_rs.Prelude.{ℕ, ◌*◌, ◌+◌, ◌-◌, ◌≡◌, List, [], ◌∷◌, ◌++◌, length, All}
use eventage_rs.Event.{Event}
use eventage_rs.Message.{ChatMessage, user_message, tool_result}
use eventage_rs.Clearing.{ToolResultClearingAssembler, tool_results, assemble}
use eventage_rs.Clearing.Ratchet.{OnlyCleared, MayPick, assemble-Kept}
use eventage_rs.Examples.Cycles.{plain_texts}

abbrev per_message : List Event → List ChatMessage → ℕ
per_message events [] = 0
per_message events (m ∷ ms) = 10 + per_message events ms

abbrev by_age : ℕ → ℕ → ℕ → ℕ
by_age bytes i total = bytes * (total + total - i)

abbrev editor : ToolResultClearingAssembler
editor = record {
  trigger_tokens = 20;
  keep_recent = 1;
  low_water = 15;
  min_clear_bytes = 1;
  cleared = [];
}

abbrev context : List ChatMessage
context = user_message "go" ∷ tool_result "a" "long" ∷ tool_result "b" "longer" ∷ []

assemble-Kept_example :
    OnlyCleared
      (assemble plain_texts per_message by_age editor [] context).1.cleared
      0
      context
      (assemble plain_texts per_message by_age editor [] context).0
    × ((picked : List ℕ) × ((assemble plain_texts per_message by_age editor [] context).1.cleared
          ≡ [] ++ picked)
        × All (MayPick editor (length (tool_results context))) picked)
assemble-Kept_example = assemble-Kept plain_texts per_message by_age editor [] context
