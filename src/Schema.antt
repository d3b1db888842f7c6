-- ===== src/Schema.antt =====
-- src/schema.rs: the validation of tool arguments against a JSON schema. A result of `none` is
-- `Ok(())`, and `some` is the first violation's text. `render` prints a value, `print` a number,
-- and `same` is the equality of JSON values.
pub mod Types
pub mod Keywords
pub mod Paths
pub mod Acceptance
use Prim.Native.String.{◌++◌ as append_text}
use eventage_rs.Prelude.{
  ℕ, suc, String, Bool, true, false, not, ◌||◌, Option, none, some, List, [], ◌∷◌, any, and_then,
  is_some, filter_map, map, if◌then◌else◌, str_eq,
}
use eventage_rs.Json.{
  Number, unsigned, negative, float, Value, null, boolean, number, text, array, object, Items,
  Fields, end, field, items_to_list, lookup_field, get_field, as_str, as_array,
}

abbrev pub is_integer : Number → Bool
is_integer (unsigned n) = true
is_integer (negative n) = true
is_integer (float n) = false

abbrev pub is_object : Value → Bool
is_object (object fs) = true
is_object null = false
is_object _ = false

abbrev pub is_array : Value → Bool
is_array (array vs) = true
is_array null = false
is_array _ = false

abbrev pub is_string : Value → Bool
is_string (text s) = true
is_string null = false
is_string _ = false

abbrev pub is_boolean : Value → Bool
is_boolean (boolean b) = true
is_boolean null = false
is_boolean _ = false

abbrev pub is_null : Value → Bool
is_null null = true
is_null (boolean b) = false
is_null _ = false

abbrev pub is_whole : Value → Bool
is_whole (number n) = is_integer n
is_whole null = false
is_whole _ = false

abbrev pub is_number : Value → Bool
is_number (number n) = true
is_number null = false
is_number _ = false

unfoldable pub type_matches : String → Value → Bool
type_matches expected value =
    if str_eq expected "object"
    then is_object value
    else if str_eq expected "array"
    then is_array value
    else if str_eq expected "string"
    then is_string value
    else if str_eq expected "boolean"
    then is_boolean value
    else if str_eq expected "null"
    then is_null value
    else if str_eq expected "integer"
    then is_whole value
    else if str_eq expected "number"
    then is_number value
    else true

abbrev pub type_name : Value → String
type_name null = "null"
type_name (boolean b) = "boolean"
type_name (number n) = "number"
type_name (text s) = "string"
type_name (array vs) = "array"
type_name (object fs) = "object"

-- The first violation of two checks that follow each other.
abbrev pub or_next : Option String → Option String → Option String
or_next none next = next
or_next (some e) next = some e

-- `obj` of a value, and `{path}` parts.
abbrev pub as_object : Value → Option Fields
as_object (object fs) = some fs
as_object null = none
as_object _ = none

abbrev join_comma : List String → String
join_comma [] = ""
join_comma (t ∷ []) = t
join_comma (t ∷ u ∷ ts) = append_text t (append_text ", " (join_comma (u ∷ ts)))

-- The first required key that an object lacks.
abbrev pub first_missing : Fields → List String → Option String
first_missing fs [] = none
first_missing fs (key ∷ keys) =
    let rest = first_missing fs keys in if is_some (lookup_field key fs) then rest else some key

abbrev pub required_of : Fields → List String
required_of schema = elim (and_then (lookup_field "required" schema) as_array) [
  | none ↦ []
  | some required ↦ filter_map as_str required
]

module _ (render : Value → String) (print : ℕ → String) (same : Value → Value → Bool) where
  -- The violation of a `type`, of an `enum` and of a missing key, each if the schema has it.
  unfoldable pub type_violation : Option String → Value → String → Option String
  type_violation none value path = none
  type_violation (some expected) value path =
      if type_matches expected value
      then none
      else some (
          append_text path (
            append_text " must be of type '"
              (append_text expected (append_text "' but got " (type_name value)))))

  unfoldable pub check_type : Fields → Value → String → Option String
  unfolding type_violation
  check_type schema value path =
      type_violation (and_then (lookup_field "type" schema) as_str) value path

  unfoldable pub enum_violation : Option (List Value) → Value → String → Option String
  enum_violation none value path = none
  enum_violation (some allowed) value path =
      if any (λ a. same a value) allowed
      then none
      else some (
          append_text path (
            append_text " must be one of [" (
              append_text (join_comma (map render allowed))
                (append_text "] but got " (render value)))))

  unfoldable pub check_enum : Fields → Value → String → Option String
  unfolding enum_violation
  check_enum schema value path =
      enum_violation (and_then (lookup_field "enum" schema) as_array) value path

  unfoldable pub missing_violation : Option String → String → Option String
  missing_violation none path = none
  missing_violation (some key) path =
      some (append_text path (append_text " is missing required property '" (append_text key "'")))

  abbrev pub missing_of : Fields → Option Fields → Option String
  missing_of schema none = none
  missing_of schema (some fs) = first_missing fs (required_of schema)

  unfoldable pub check_required : Fields → Value → String → Option String
  unfolding missing_violation
  check_required schema value path = missing_violation (missing_of schema (as_object value)) path

  -- The loop over an array, with the check of one item.
  unfoldable pub check_each : (Value → String → Option String) → String → ℕ → Items → Option String
  check_each check path i Items.nil = none
  check_each check path i (Items.cons v vs) =
      or_next (check v (append_text path (append_text "[" (append_text (print i) "]"))))
        (check_each check path (suc i) vs)

  abbrev pub items_check : Option (Value → String → Option String) → Value → String → Option String
  items_check (some check) (array vs) path = check_each check path 0 vs
  items_check (some check) null path = none
  items_check (some check) _ path = none
  items_check none value path = none

  unfoldable mutual
    pub validate_at : Value → Value → String → Option String
    validate_at (object schema) value path = or_next (check_type schema value path) (
        or_next (check_enum schema value path) (
          or_next (check_required schema value path)
            (or_next (properties_in schema value path) (items_check (items_in schema) value path))))
    validate_at null value path = none
    validate_at (boolean b) value path = none
    validate_at (number n) value path = none
    validate_at (text s) value path = none
    validate_at (array vs) value path = none

    -- The check of the `items` of a schema's fields.
    pub items_in : Fields → Option (Value → String → Option String)
    items_in end = none
    items_in (field key s schema) =
        let rest = items_in schema in
        let here = validate_at s in if str_eq key "items" then some here else rest

    -- The check of the `properties` of a schema's fields, on an object.
    pub properties_in : Fields → Value → String → Option String
    properties_in end value path = none
    properties_in (field key s schema) value path =
        let rest = properties_in schema value path in
        let here = properties_of s value path in if str_eq key "properties" then here else rest

    pub properties_of : Value → Value → String → Option String
    properties_of (object props) value path = each_property props value path
    properties_of null value path = none
    properties_of (boolean b) value path = none
    properties_of (number n) value path = none
    properties_of (text s) value path = none
    properties_of (array vs) value path = none

    pub each_property : Fields → Value → String → Option String
    each_property end value path = none
    each_property (field key s props) value path =
        or_next
          (and_then (get_field value key)
            (λ v. validate_at s v (append_text path (append_text "." key))))
          (each_property props value path)

  unfoldable pub validate_args : Value → Value → Option String
  validate_args schema args = validate_at schema args "arguments"
