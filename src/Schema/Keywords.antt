-- ===== src/Schema/Keywords.antt =====
-- src/schema.rs: the keywords that look at the value itself.
use eventage_rs.Prelude.{
  ℕ, ◌≡◌, ◌↔◌, refl, subst, String, Bool, true, false, Option, none, some, List, any, and_then,
  if◌then◌else◌, [], is_some, filter_map,
}
use eventage_rs.Json.{
  Value, null, boolean, number, text, array, object, Items, nil, cons, Fields, items_to_list,
  lookup_field, as_str, as_array,
}
use eventage_rs.Schema.{
  type_matches, or_next, as_object, type_violation, enum_violation, missing_violation, missing_of,
  check_type, check_enum, check_required, first_missing,
}
use eventage_rs.Schema.Types.{HasType, type_matches_iff}

pub some-none : (s : String) → some s ≡ none → ⊥
some-none s e = cc

pub none-some {ℓ} : {A : Type ℓ} {a : A} → none ≡ some a → ⊥
none-some e = cc

pub and_then-at :
    (o : Option Value) (f : Value → Option String) (w : Value)
    → and_then o f ≡ none
    → o ≡ some w
    → f w ≡ none
and_then-at none f w h e = absurd (none-some e)
and_then-at (some u) f w h e = subst (λ x. f x ≡ none) {x = u} {y = w} (cc) h

if-none : (b : Bool) (s : String) → ((if b then none else some s) ≡ none) ↔ (b ≡ true)
if-none true s = (λ h. refl, λ h. refl)
if-none false s = (λ h. absurd (some-none s h), λ h. absurd (false-true h))
  where
    false-true : false ≡ true → ⊥
    false-true e = cc

pub or_next-none : (a b : Option String) → or_next a b ≡ none → (a ≡ none) × (b ≡ none)
or_next-none none b e = (refl, e)
or_next-none (some s) b e = absurd (some-none s e)

pub or_next-both : (a b : Option String) → a ≡ none → b ≡ none → or_next a b ≡ none
or_next-both a b h k = rw h k

pub if_none_both :
    (b : Bool) (x y x' y' : Option String)
    → (x ≡ none → x' ≡ none)
    → (y ≡ none → y' ≡ none)
    → (if b then x else y) ≡ none
    → (if b then x' else y') ≡ none
if_none_both true x y x' y' h k e = h e
if_none_both false x y x' y' h k e = k e

pub and_then-none_both :
    (o : Option Value) (f g : Value → Option String)
    → ((w : Value) → f w ≡ none → g w ≡ none)
    → and_then o f ≡ none
    → and_then o g ≡ none
and_then-none_both none f g h e = refl
and_then-none_both (some w) f g h e = h w e

-- The items of an array.
pub data Item : Value → Items → Type 0 where
  here : {v : Value} {vs : Items} → Item v (cons v vs)
  there : {v w : Value} {vs : Items} → Item v vs → Item v (cons w vs)

-- The field is there.
abbrev pub Has : Fields → String → Type 0
Has fs key = (w : Value) × (lookup_field key fs ≡ some w)

-- An object has every key that the array `required` of its schema names.
abbrev pub RequiredHolds : Fields → Value → Type 0
RequiredHolds schema v =
    (fs : Fields) (required : Items) (key : String)
    → v ≡ object fs
    → lookup_field "required" schema ≡ some (array required)
    → Item (text key) required
    → Has fs key

present-none :
    (o : Option Value) (key : String) (rest : Option String)
    → (if is_some o then rest else some key) ≡ none
    → ((w : Value) × (o ≡ some w)) × (rest ≡ none)
present-none none key rest h = absurd (some-none key h)
present-none (some w) key rest h = ((w, refl), h)

strings_of : Items → List String
strings_of vs = filter_map as_str (items_to_list vs)

first_missing-Has :
    (fs : Fields) (vs : Items) (key : String)
    → first_missing fs (strings_of vs) ≡ none
    → Item (text key) vs
    → Has fs key
unfolding strings_of
first_missing-Has fs nil key h it = elim it [ ]
first_missing-Has fs (cons (text t) vs) key h here = (present-none (lookup_field t fs) t _ h).0
first_missing-Has fs (cons (text t) vs) key h (there it) =
    first_missing-Has fs vs key (present-none (lookup_field t fs) t _ h).1 it
first_missing-Has fs (cons null vs) key h (there it) = first_missing-Has fs vs key h it
first_missing-Has fs (cons (boolean b) vs) key h (there it) = first_missing-Has fs vs key h it
first_missing-Has fs (cons (number n) vs) key h (there it) = first_missing-Has fs vs key h it
first_missing-Has fs (cons (array us) vs) key h (there it) = first_missing-Has fs vs key h it
first_missing-Has fs (cons (object gs) vs) key h (there it) = first_missing-Has fs vs key h it

first_missing-none :
    (fs : Fields) (vs : Items)
    → ((key : String) → Item (text key) vs → Has fs key)
    → first_missing fs (strings_of vs) ≡ none
unfolding strings_of
first_missing-none fs nil h = refl
first_missing-none fs (cons (text t) vs) h =
    let (w, found) = h t here in rw found (first_missing-none fs vs (λ key it. h key (there it)))
first_missing-none fs (cons null vs) h = first_missing-none fs vs (λ key it. h key (there it))
first_missing-none fs (cons (boolean b) vs) h =
    first_missing-none fs vs (λ key it. h key (there it))
first_missing-none fs (cons (number n) vs) h = first_missing-none fs vs (λ key it. h key (there it))
first_missing-none fs (cons (array us) vs) h = first_missing-none fs vs (λ key it. h key (there it))
first_missing-none fs (cons (object gs) vs) h =
    first_missing-none fs vs (λ key it. h key (there it))

-- The keys that a schema's field `required` names.
keys_of : Option Value → List String
keys_of o = elim (and_then o as_array) [ none ↦ [] | some required ↦ filter_map as_str required ]

keys_of-Has :
    (o : Option Value) (fs : Fields)
    → (first_missing fs (keys_of o) ≡ none) ↔ (
        (required : Items) (key : String)
        → o ≡ some (array required)
        → Item (text key) required
        → Has fs key)
unfolding keys_of strings_of
keys_of-Has none fs = (λ h required key e it. absurd (none-some e), λ h. refl)
keys_of-Has (some (array vs)) fs = (
  λ h required key e it.
      first_missing-Has fs vs key h
        (let same : required ≡ vs = cc in subst (Item (text key)) same it),
  λ h. first_missing-none fs vs (λ key it. h vs key refl it),
)
keys_of-Has (some null) fs = (λ h required key e it. cc, λ h. refl)
keys_of-Has (some (boolean b)) fs = (λ h required key e it. cc, λ h. refl)
keys_of-Has (some (number n)) fs = (λ h required key e it. cc, λ h. refl)
keys_of-Has (some (text t)) fs = (λ h required key e it. cc, λ h. refl)
keys_of-Has (some (object gs)) fs = (λ h required key e it. cc, λ h. refl)

module _ (render : Value → String) (print : ℕ → String) (same : Value → Value → Bool) where
  -- The three keywords that look at the value itself.
  abbrev pub TypeHolds : Option String → Value → Type 0
  TypeHolds none v = Unit
  TypeHolds (some expected) v = HasType expected v

  abbrev pub EnumHolds : Option (List Value) → Value → Type 0
  EnumHolds none v = Unit
  EnumHolds (some allowed) v = any (λ a. same a v) allowed ≡ true

  type_violation_iff :
      (o : Option String) (v : Value) (p : String)
      → (type_violation render print same o v p ≡ none) ↔ TypeHolds o v
  unfolding type_violation
  type_violation_iff none v p = (λ h. tt, λ h. refl)
  type_violation_iff (some t) v p =
      let (to, from) = if-none (type_matches t v) _ in
      let (has, matches) = type_matches_iff t v in (λ h. has (to h), λ k. from (matches k))

  enum_violation_iff :
      (o : Option (List Value)) (v : Value) (p : String)
      → (enum_violation render print same o v p ≡ none) ↔ EnumHolds o v
  unfolding enum_violation
  enum_violation_iff none v p = (λ h. tt, λ h. refl)
  enum_violation_iff (some allowed) v p = if-none (any (λ a. same a v) allowed) _

  missing_violation_iff :
      (o : Option String) (p : String)
      → (missing_violation render print same o p ≡ none) ↔ (o ≡ none)
  unfolding missing_violation
  missing_violation_iff none p = (λ h. refl, λ h. refl)
  missing_violation_iff (some key) p = (λ h. absurd (some-none _ h), λ h. absurd (some-none _ h))

  missing_of_iff :
      (schema : Fields) (v : Value)
      → (missing_of render print same schema (as_object v) ≡ none) ↔ RequiredHolds schema v
  unfolding keys_of
  missing_of_iff schema (object gs) =
      let (to, from) = keys_of-Has (lookup_field "required" schema) gs in
      (
        λ h fs required key e named it.
            let same : gs ≡ fs = cc in subst (λ us. Has us key) same (to h required key named it),
        λ h. from (λ required key named it. h gs required key refl named it),
      )
  missing_of_iff schema null = (λ h fs required key e named it. cc, λ h. refl)
  missing_of_iff schema (boolean b) = (λ h fs required key e named it. cc, λ h. refl)
  missing_of_iff schema (number n) = (λ h fs required key e named it. cc, λ h. refl)
  missing_of_iff schema (text t) = (λ h fs required key e named it. cc, λ h. refl)
  missing_of_iff schema (array vs) = (λ h fs required key e named it. cc, λ h. refl)

  -- What a schema's own keywords say of a value.
  abbrev pub KeywordsHold : Fields → Value → Type 0
  KeywordsHold schema v =
      TypeHolds (and_then (lookup_field "type" schema) as_str) v
      × EnumHolds (and_then (lookup_field "enum" schema) as_array) v
      × RequiredHolds schema v

  pub keyword_path :
      (schema : Fields) (v : Value) (p : String)
      → (check_type render print same schema v p ≡ none)
      → (check_enum render print same schema v p ≡ none)
      → (check_required render print same schema v p ≡ none)
      → KeywordsHold schema v
  unfolding check_type check_enum check_required
  keyword_path schema v p t e m = (
    (type_violation_iff _ v p).0 t,
    (enum_violation_iff _ v p).0 e,
    (missing_of_iff schema v).0 ((missing_violation_iff _ p).0 m),
  )

  pub keyword_checks :
      (schema : Fields) (v : Value) (p : String)
      → KeywordsHold schema v
      → (check_type render print same schema v p ≡ none)
        × (check_enum render print same schema v p ≡ none)
        × (check_required render print same schema v p ≡ none)
  unfolding check_type check_enum check_required
  keyword_checks schema v p (t, e, m) = (
    (type_violation_iff _ v p).1 t,
    (enum_violation_iff _ v p).1 e,
    (missing_violation_iff _ p).1 ((missing_of_iff schema v).1 m),
  )
