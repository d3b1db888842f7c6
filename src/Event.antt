-- ===== src/Event.antt =====
-- src/event.rs: the event record and its builders. The children hold the names of the event kinds
-- and of the metadata keys. A `Uuid` is a number; a fresh one and the clock's reading are arguments.
pub mod Kinds
pub mod MetaKeys
use eventage_rs.Prelude.{ℕ, String, Option, none, some, List, [], put, get}
use eventage_rs.Json.{Value}

abbrev pub EventId : Type 0
EventId = ℕ

pub record Event : Type 0 where
  pub id : EventId
  pub timestamp : ℕ
  pub kind : String
  pub payload : Value
  pub parent_event_id : Option EventId
  pub metadata : List (String × Value)

abbrev pub new : EventId → ℕ → String → Value → Event
new id timestamp kind payload = record {
  id = id;
  timestamp = timestamp;
  kind = kind;
  payload = payload;
  parent_event_id = none;
  metadata = [];
}

abbrev pub with_meta : Event → String → Value → Event
with_meta e key value = record e { metadata = put key value e.metadata }

abbrev pub with_parent : Event → EventId → Event
with_parent e parent = record e { parent_event_id = some parent }

-- `event.metadata.get(key)`.
abbrev pub meta : Event → String → Option Value
meta e key = get key e.metadata
