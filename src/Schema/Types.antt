-- ===== src/Schema/Types.antt =====
-- src/schema.rs: which values have the type that a schema names.
use eventage_rs.Prelude.{
  ℕ, ◌≡◌, ◌↔◌, inl, inr, refl, sym, ◌∙◌, subst, String, Bool, true, false, if◌then◌else◌, str_eq,
  eq_iff, Bool-cases,
}
use eventage_rs.Json.{
  Number, unsigned, negative, float, Value, null, boolean, number, text, array, object, Items,
  Fields,
}
use eventage_rs.Schema.{
  is_object, is_array, is_string, is_boolean, is_null, is_whole, is_number, type_matches,
}

-- None of the seven names of types.
abbrev pub IsUnknown : String → Type 0
IsUnknown t =
    ¬ (t ≡ "object")
    × ¬ (t ≡ "array")
    × ¬ (t ≡ "string")
    × ¬ (t ≡ "boolean")
    × ¬ (t ≡ "null")
    × ¬ (t ≡ "integer")
    × ¬ (t ≡ "number")

-- An integer is a number without a fraction; every value has a type with an unknown name.
pub data HasType : String → Value → Type 0 where
  object_type : {fs : Fields} → HasType "object" (object fs)
  array_type : {vs : Items} → HasType "array" (array vs)
  string_type : {s : String} → HasType "string" (text s)
  boolean_type : {b : Bool} → HasType "boolean" (boolean b)
  null_type : HasType "null" null
  unsigned_type : {n : ℕ} → HasType "integer" (number (unsigned n))
  negative_type : {n : ℕ} → HasType "integer" (number (negative n))
  number_type : {n : Number} → HasType "number" (number n)
  unknown_type : {t : String} {v : Value} → IsUnknown t → HasType t v

false-true : false ≡ true → ⊥
false-true e = cc

is_object-HasType : (v : Value) → is_object v ≡ true → HasType "object" v
is_object-HasType (object fs) h = object_type
is_object-HasType (array vs) h = absurd (false-true h)
is_object-HasType (text s) h = absurd (false-true h)
is_object-HasType (boolean b) h = absurd (false-true h)
is_object-HasType null h = absurd (false-true h)
is_object-HasType (number n) h = absurd (false-true h)

is_array-HasType : (v : Value) → is_array v ≡ true → HasType "array" v
is_array-HasType (object fs) h = absurd (false-true h)
is_array-HasType (array vs) h = array_type
is_array-HasType (text s) h = absurd (false-true h)
is_array-HasType (boolean b) h = absurd (false-true h)
is_array-HasType null h = absurd (false-true h)
is_array-HasType (number n) h = absurd (false-true h)

is_string-HasType : (v : Value) → is_string v ≡ true → HasType "string" v
is_string-HasType (object fs) h = absurd (false-true h)
is_string-HasType (array vs) h = absurd (false-true h)
is_string-HasType (text s) h = string_type
is_string-HasType (boolean b) h = absurd (false-true h)
is_string-HasType null h = absurd (false-true h)
is_string-HasType (number n) h = absurd (false-true h)

is_boolean-HasType : (v : Value) → is_boolean v ≡ true → HasType "boolean" v
is_boolean-HasType (object fs) h = absurd (false-true h)
is_boolean-HasType (array vs) h = absurd (false-true h)
is_boolean-HasType (text s) h = absurd (false-true h)
is_boolean-HasType (boolean b) h = boolean_type
is_boolean-HasType null h = absurd (false-true h)
is_boolean-HasType (number n) h = absurd (false-true h)

is_null-HasType : (v : Value) → is_null v ≡ true → HasType "null" v
is_null-HasType (object fs) h = absurd (false-true h)
is_null-HasType (array vs) h = absurd (false-true h)
is_null-HasType (text s) h = absurd (false-true h)
is_null-HasType (boolean b) h = absurd (false-true h)
is_null-HasType null h = null_type
is_null-HasType (number n) h = absurd (false-true h)

is_whole-HasType : (v : Value) → is_whole v ≡ true → HasType "integer" v
is_whole-HasType (object fs) h = absurd (false-true h)
is_whole-HasType (array vs) h = absurd (false-true h)
is_whole-HasType (text s) h = absurd (false-true h)
is_whole-HasType (boolean b) h = absurd (false-true h)
is_whole-HasType null h = absurd (false-true h)
is_whole-HasType (number (unsigned n)) h = unsigned_type
is_whole-HasType (number (negative n)) h = negative_type
is_whole-HasType (number (float n)) h = absurd (false-true h)

is_number-HasType : (v : Value) → is_number v ≡ true → HasType "number" v
is_number-HasType (object fs) h = absurd (false-true h)
is_number-HasType (array vs) h = absurd (false-true h)
is_number-HasType (text s) h = absurd (false-true h)
is_number-HasType (boolean b) h = absurd (false-true h)
is_number-HasType null h = absurd (false-true h)
is_number-HasType (number n) h = number_type

-- One test of the chain: the name is `s`, or the rest decides.
named_or :
    (t s : String) (here rest : Bool) (v : Value)
    → (here ≡ true → HasType s v)
    → (¬ (t ≡ s) → rest ≡ true → HasType t v)
    → (if str_eq t s then here else rest) ≡ true
    → HasType t v
named_or t s here rest v same other h = elim (Bool-cases (str_eq t s)) [
  | inl e ↦
      let matches : here ≡ true = rw e at h in
      subst (λ u. HasType u v) (sym ((eq_iff t s).0 e)) (same matches)
  | inr e ↦
      let matches : rest ≡ true = rw e at h in
      other (λ k. false-true (sym e ∙ (eq_iff t s).1 k)) matches
]

differs : (t s : String) → ¬ (t ≡ s) → str_eq t s ≡ false
differs t s h = elim (Bool-cases (str_eq t s)) [
  | inl same ↦ absurd (h ((eq_iff t s).0 same))
  | inr other ↦ other
]

type_matches-HasType : (t : String) (v : Value) → HasType t v → type_matches t v ≡ true
unfolding type_matches
type_matches-HasType _ _ object_type = refl
type_matches-HasType _ _ array_type = refl
type_matches-HasType _ _ string_type = refl
type_matches-HasType _ _ boolean_type = refl
type_matches-HasType _ _ null_type = refl
type_matches-HasType _ _ unsigned_type = refl
type_matches-HasType _ _ negative_type = refl
type_matches-HasType _ _ number_type = refl
type_matches-HasType t v (unknown_type (a, b, c, d, e, f, g)) =
    rw (differs t "object" a, type_matches)
      (rw (differs t "array" b) (
        rw (differs t "string" c) (
          rw (differs t "boolean" d) (
            rw (differs t "null" e)
              (rw (differs t "integer" f) (rw (differs t "number" g) refl))))))

-- The chain of tests on the name.
pub type_matches_iff : (t : String) (v : Value) → (type_matches t v ≡ true) ↔ HasType t v
unfolding type_matches
type_matches_iff t v = (
  named_or t "object" _ _ v (is_object-HasType v) (λ a.
      named_or t "array" _ _ v (is_array-HasType v) (λ b.
        named_or t "string" _ _ v (is_string-HasType v) (λ c.
          named_or t "boolean" _ _ v (is_boolean-HasType v) (λ d.
            named_or t "null" _ _ v (is_null-HasType v) (λ e.
              named_or t "integer" _ _ v (is_whole-HasType v) (λ f.
                named_or t "number" _ _ v (is_number-HasType v)
                  (λ g h. unknown_type (a, b, c, d, e, f, g)))))))),
  type_matches-HasType t v,
)
