-- ===== src/Schema/Acceptance.antt =====
-- src/schema.rs: what it means that the validation of a value finds no violation.
use Prim.Native.String.{◌++◌ as append_text}
use eventage_rs.Prelude.{
  ℕ, suc, ◌≡◌, ◌↔◌, refl, sym, ◌∙◌, subst, String, Bool, inl, inr, Option, none, some, Bool-cases,
  Option-cases, str_eq,
}
use eventage_rs.Json.{
  Value, null, boolean, number, text, array, object, Items, nil, cons, Fields, end, field,
  lookup_field, get_field,
}
use eventage_rs.Schema.{
  check_each, items_check, validate_at, items_in, properties_in, properties_of, each_property,
}
use eventage_rs.Schema.Keywords.{
  none-some, and_then-at, or_next-none, or_next-both, Item, here, there, KeywordsHold, keyword_path,
  keyword_checks,
}
use eventage_rs.Schema.Paths.{validate_at-path}

module _ (render : Value → String) (print : ℕ → String) (same : Value → Value → Bool) where
  -- No violation, whatever the path to the value.
  abbrev pub Accepts : Value → Value → Type 0
  Accepts s v = (path : String) → validate_at render print same s v path ≡ none

  -- The entries of an object.
  pub data Entry : String → Value → Fields → Type 0 where
    first : {key : String} {s : Value} {fs : Fields} → Entry key s (field key s fs)
    later :
        {key k : String} {s t : Value} {fs : Fields} → Entry key s fs → Entry key s (field k t fs)

  properties_in-lookup :
      (fs : Fields) (v : Value) (p : String)
      → properties_in render print same fs v p ≡ (elim (lookup_field "properties" fs) [
        | none ↦ none
        | some s ↦ properties_of render print same s v p
      ])
  unfolding properties_in
  properties_in-lookup end v p = refl
  properties_in-lookup (field key s fs) v p = elim (Bool-cases (str_eq key "properties")) [
    | inl found ↦ rw found refl
    | inr other ↦ rw other (properties_in-lookup fs v p)
  ]

  check_of : Option Value → Option (Value → String → Option String)
  check_of none = none
  check_of (some s) = some (validate_at render print same s)

  items_in-lookup :
      (fs : Fields) → items_in render print same fs ≡ check_of (lookup_field "items" fs)
  unfolding items_in check_of
  items_in-lookup end = refl
  items_in-lookup (field key s fs) = elim (Bool-cases (str_eq key "items")) [
    | inl found ↦ rw found refl
    | inr other ↦ rw other (items_in-lookup fs)
  ]

  -- What the schemas of the properties say of an object's fields, and that of the items of an
  -- array's elements.
  abbrev pub PropertiesHold : Fields → Value → Type 0
  PropertiesHold schema v =
      (props : Fields) (key : String) (s w : Value)
      → lookup_field "properties" schema ≡ some (object props)
      → Entry key s props
      → get_field v key ≡ some w
      → Accepts s w

  abbrev pub ItemsHold : Fields → Value → Type 0
  ItemsHold schema v =
      (s w : Value) (vs : Items)
      → lookup_field "items" schema ≡ some s
      → v ≡ array vs
      → Item w vs
      → Accepts s w

  each_property-Accepts :
      (props : Fields) (v : Value) (p : String) (key : String) (s w : Value)
      → each_property render print same props v p ≡ none
      → Entry key s props
      → get_field v key ≡ some w
      → Accepts s w
  unfolding each_property
  each_property-Accepts end v p key s w h en g = elim en [ ]
  each_property-Accepts (field k t props) v p key s w h first g = λ q.
      validate_at-path render print same s w _ q (
        and_then-at (get_field v key)
          (λ u. validate_at render print same s u (append_text p (append_text "." key))) w
          (or_next-none _ _ h).0 g)
  each_property-Accepts (field k t props) v p key s w h (later en) g =
      each_property-Accepts props v p key s w (or_next-none _ _ h).1 en g

  each_property-holds :
      (props : Fields) (v : Value) (p : String)
      → ((key : String) (s w : Value) → Entry key s props → get_field v key ≡ some w → Accepts s w)
      → each_property render print same props v p ≡ none
  unfolding each_property
  each_property-holds end v p h = refl
  each_property-holds (field key s props) v p h =
      or_next-both _ _
        (elim (Option-cases (get_field v key)) [
          | inl absent ↦ rw absent refl
          | inr (w, found) ↦ rw found (h key s w first found _)
        ])
        (each_property-holds props v p (λ k t w en g. h k t w (later en) g))

  check_each-Accepts :
      (s w : Value) (vs : Items) (i : ℕ) (p : String)
      → check_each render print same (validate_at render print same s) p i vs ≡ none
      → Item w vs
      → Accepts s w
  unfolding check_each
  check_each-Accepts s w nil i p h it = elim it [ ]
  check_each-Accepts s w (cons v vs) i p h here =
      λ q. validate_at-path render print same s w _ q (or_next-none _ _ h).0
  check_each-Accepts s w (cons v vs) i p h (there it) =
      check_each-Accepts s w vs (suc i) p (or_next-none _ _ h).1 it

  check_each-holds :
      (s : Value) (vs : Items) (i : ℕ) (p : String)
      → ((w : Value) → Item w vs → Accepts s w)
      → check_each render print same (validate_at render print same s) p i vs ≡ none
  unfolding check_each
  check_each-holds s nil i p h = refl
  check_each-holds s (cons v vs) i p h =
      or_next-both _ _ (h v here _) (check_each-holds s vs (suc i) p (λ w it. h w (there it)))

  items-accept :
      (o : Option Value) (s w : Value) (vs : Items) (p : String)
      → items_check render print same (check_of o) (array vs) p ≡ none
      → o ≡ some s
      → Item w vs
      → Accepts s w
  unfolding check_of
  items-accept none s w vs p h e it = absurd (none-some e)
  items-accept (some t) s w vs p h e it =
      subst (λ u. Accepts u w) {x = t} {y = s} (cc) (check_each-Accepts t w vs 0 p h it)

  items-hold :
      (o : Option Value) (v : Value) (p : String)
      → ((s w : Value) (vs : Items) → o ≡ some s → v ≡ array vs → Item w vs → Accepts s w)
      → items_check render print same (check_of o) v p ≡ none
  unfolding check_of
  items-hold none v p h = refl
  items-hold (some s) (array vs) p h = check_each-holds s vs 0 p (λ w it. h s w vs refl refl it)
  items-hold (some s) null p h = refl
  items-hold (some s) (boolean b) p h = refl
  items-hold (some s) (number n) p h = refl
  items-hold (some s) (text t) p h = refl
  items-hold (some s) (object fs) p h = refl

  props-accept :
      (o : Option Value) (v : Value) (p : String) (props : Fields) (key : String) (s w : Value)
      → (elim o [ none ↦ none | some t ↦ properties_of render print same t v p ]) ≡ none
      → o ≡ some (object props)
      → Entry key s props
      → get_field v key ≡ some w
      → Accepts s w
  unfolding properties_of
  props-accept none v p props key s w h e en g = absurd (none-some e)
  props-accept (some t) v p props key s w h e en g =
      let q : t ≡ object props = cc in
      each_property-Accepts props v p key s w
        (subst (λ u. properties_of render print same u v p ≡ none) q h) en g

  props-hold :
      (o : Option Value) (v : Value) (p : String)
      → ((props : Fields) (key : String) (s w : Value)
          → o ≡ some (object props)
          → Entry key s props
          → get_field v key ≡ some w
          → Accepts s w)
      → (elim o [ none ↦ none | some t ↦ properties_of render print same t v p ]) ≡ none
  unfolding properties_of
  props-hold none v p h = refl
  props-hold (some (object props)) v p h =
      each_property-holds props v p (λ key s w en g. h props key s w refl en g)
  props-hold (some null) v p h = refl
  props-hold (some (boolean b)) v p h = refl
  props-hold (some (number n)) v p h = refl
  props-hold (some (text t)) v p h = refl
  props-hold (some (array vs)) v p h = refl

  -- Validation against an object schema finds no violation exactly if the value has the `type` and is
  -- in the `enum` that the schema names, an object has the `required` keys, each field for which
  -- `properties` has a schema is accepted by it, and each element of an array is accepted by the
  -- schema of `items`; accepted means: under every path, so the path never decides.
  pub validate_at_iff :
      (schema : Fields) (v : Value) (p : String)
      → (validate_at render print same (object schema) v p ≡ none)
        ↔ (KeywordsHold render print same schema v × PropertiesHold schema v × ItemsHold schema v)
  unfolding validate_at
  validate_at_iff schema v p = (sound, complete)
    where
      sound :
          validate_at render print same (object schema) v p ≡ none
          → KeywordsHold render print same schema v × PropertiesHold schema v × ItemsHold schema v
      sound h =
          let (t, h1) = or_next-none _ _ h in
          let (e, h2) = or_next-none _ _ h1 in
          let (m, h3) = or_next-none _ _ h2 in
          let (props, items) = or_next-none _ _ h3 in
          (
            keyword_path render print same schema v p t e m,
            λ ps key s w found en g.
                props-accept _ v p ps key s w (sym (properties_in-lookup schema v p) ∙ props) found
                  en g,
            λ s w vs found shape it.
                items-accept _ s w vs p
                  (subst
                    (λ u.
                      items_check render print same (check_of (lookup_field "items" schema)) u p
                      ≡ none)
                    shape
                    (subst (λ c. items_check render print same c v p ≡ none)
                      (items_in-lookup schema) items))
                  found it,
          )

      complete :
          KeywordsHold render print same schema v × PropertiesHold schema v × ItemsHold schema v
          → validate_at render print same (object schema) v p ≡ none
      complete (k, ps, its) =
          let (t, e, m) = keyword_checks render print same schema v p k in
          or_next-both _ _ t (
            or_next-both _ _ e (
              or_next-both _ _ m (
                or_next-both _ _ (properties_in-lookup schema v p ∙ props-hold _ v p ps) (
                  subst (λ c. items_check render print same c v p ≡ none)
                    (sym (items_in-lookup schema)) (items-hold _ v p its)))))
