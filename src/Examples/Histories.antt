-- ===== src/Examples/Histories.antt =====
-- Histories as an agent's context: an unanswered call, and a log that grows behind a cache.
use Prim.Native.String.{String}
use eventage_rs.Prelude.{◌≡◌, refl, ◌||◌, Option, none, some, List, [], ◌∷◌}
use eventage_rs.Json.{Value, text, object, field, end}
use eventage_rs.Event.{Event}
use eventage_rs.Event
use eventage_rs.Event.Kinds
use eventage_rs.Message.{ContentPart, ChatMessage, user_message, assistant_with_tool_calls}
use eventage_rs.Context.{
  has_text, answered_ids, repair_tool_results, events_to_messages_raw, events_to_messages,
  MessageCache, build_with_cache, messages_of, user_message_from_payload, apply_name,
}
use eventage_rs.Context.Repair.{called_ids, repair_tool_results_complete}
use eventage_rs.Context.Cache.{Settled, NewCalls, IsCacheOf, build_with_cache-whole}

abbrev damaged : List ChatMessage
damaged =
    user_message "go"
    ∷ assistant_with_tool_calls none (
        (record {
          id = "a";
          kind = "function";
          function = record { name = "read"; arguments = "{}" };
          extra_content = none;
        })
        ∷ [])
    ∷ user_message "well?"
    ∷ []

repair_tool_results_complete_example :
    (called_ids (repair_tool_results damaged) ≡ called_ids damaged)
    × ((s : String)
        → has_text (answered_ids (repair_tool_results damaged)) s
          ≡ (has_text (answered_ids damaged) s || has_text (called_ids damaged) s))
    × (repair_tool_results (repair_tool_results damaged) ≡ repair_tool_results damaged)
repair_tool_results_complete_example = repair_tool_results_complete damaged

abbrev no_parts : Value → Option (List ContentPart)
no_parts v = none

abbrev shown : Value → String
shown v = "value"

abbrev said : Event
said = Event.new 1 10 Kinds.user_message (object (field "text" (text "hello") end))

abbrev more_said : Event
more_said = Event.new 2 11 Kinds.user_message (object (field "text" (text "again") end))

abbrev cache : MessageCache no_parts shown
cache = record {
  last_event_id = 1;
  event_count = 1;
  messages = events_to_messages no_parts shown (said ∷ []);
}

cache-IsCacheOf : IsCacheOf no_parts shown (said ∷ []) cache
cache-IsCacheOf = record { counted = refl; newest = said; ends = refl; marked = refl; holds = refl }

said-Settled : Settled (events_to_messages_raw no_parts shown (said ∷ []))
unfolding events_to_messages_raw messages_of user_message_from_payload apply_name
said-Settled = tt

more_said-NewCalls :
    NewCalls
      (answered_ids (events_to_messages_raw no_parts shown (said ∷ [])))
      (events_to_messages_raw no_parts shown (more_said ∷ []))
unfolding events_to_messages_raw messages_of user_message_from_payload apply_name
more_said-NewCalls = tt

build_with_cache-whole_example :
    ((build_with_cache no_parts shown (some cache) (said ∷ more_said ∷ [])).0
      ≡ events_to_messages no_parts shown (said ∷ more_said ∷ []))
    × ((c : MessageCache no_parts shown) × ((build_with_cache no_parts shown
            (some cache)
            (said ∷ more_said ∷ [])).1
          ≡ some c)
        × IsCacheOf no_parts shown (said ∷ more_said ∷ []) c)
build_with_cache-whole_example =
    build_with_cache-whole no_parts shown cache (said ∷ []) (more_said ∷ []) cache-IsCacheOf
      said-Settled more_said-NewCalls (refl, (refl, tt))
