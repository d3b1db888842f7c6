-- ===== src/Json.antt =====
-- The JSON document type that event payloads, metadata and tool arguments are made of
-- (`serde_json::Value` in src/event.rs and its clients), with the accessors that the code calls.
-- An object is kept as its list of fields; a number is a `u64`, a negative `i64`, or the bits of
-- a finite `f64`.
use eventage_rs.Prelude.{ℕ, String, Bool, Option, none, some, List, [], ◌∷◌, if◌then◌else◌, str_eq}

pub data Number : Type 0 where
  unsigned : ℕ → Number
  negative : ℕ → Number
  float : ℕ → Number

mutual
  pub data Value : Type 0 where
    null : Value
    boolean : Bool → Value
    number : Number → Value
    text : String → Value
    array : Items → Value
    object : Fields → Value

  pub data Items : Type 0 where
    nil : Items
    cons : Value → Items → Items

  pub data Fields : Type 0 where
    end : Fields
    field : String → Value → Fields → Fields

abbrev pub items_to_list : Items → List Value
items_to_list nil = []
items_to_list (cons v vs) = v ∷ items_to_list vs

abbrev pub list_to_items : List Value → Items
list_to_items [] = nil
list_to_items (v ∷ vs) = cons v (list_to_items vs)

abbrev pub lookup_field : String → Fields → Option Value
lookup_field k end = none
lookup_field k (field j v fs) = let rest = lookup_field k fs in if str_eq j k then some v else rest

-- `value.get("key")`: only an object has fields.
abbrev pub get_field : Value → String → Option Value
get_field (object fs) k = lookup_field k fs
get_field null k = none
get_field _ k = none

abbrev pub as_str : Value → Option String
as_str (text s) = some s
as_str null = none
as_str _ = none

abbrev pub as_bool : Value → Option Bool
as_bool (boolean b) = some b
as_bool null = none
as_bool _ = none

abbrev pub number_as_u64 : Number → Option ℕ
number_as_u64 (unsigned n) = some n
number_as_u64 (negative n) = none
number_as_u64 (float n) = none

abbrev pub as_u64 : Value → Option ℕ
as_u64 (number n) = number_as_u64 n
as_u64 null = none
as_u64 _ = none

abbrev pub as_array : Value → Option (List Value)
as_array (array vs) = some (items_to_list vs)
as_array null = none
as_array _ = none

-- `json!(n)` and `json!([...])`.
abbrev pub nat_value : ℕ → Value
nat_value n = number (unsigned n)

abbrev pub list_value : List Value → Value
list_value vs = array (list_to_items vs)
