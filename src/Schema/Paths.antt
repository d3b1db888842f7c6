-- ===== src/Schema/Paths.antt =====
-- src/schema.rs: the path to a value is only for the message.
use eventage_rs.Prelude.{
  ℕ, suc, ◌≡◌, refl, String, Bool, true, false, Option, none, some, if◌then◌else◌, str_eq,
}
use eventage_rs.Json.{
  Value, null, boolean, number, text, array, object, Items, nil, cons, Fields, end, field,
  get_field,
}
use eventage_rs.Schema.{
  check_each, items_check, validate_at, items_in, properties_in, properties_of, each_property,
}
use eventage_rs.Schema.Keywords.{
  or_next-none, or_next-both, if_none_both, and_then-none_both, keyword_path, keyword_checks,
}

module _ (render : Value → String) (print : ℕ → String) (same : Value → Value → Bool) where
  -- The path is only for the message.
  abbrev pub PathFree : (Value → String → Option String) → Type 0
  PathFree check = (v : Value) (p q : String) → check v p ≡ none → check v q ≡ none

  check_each-path :
      (check : Value → String → Option String)
      → PathFree check
      → (vs : Items) (i : ℕ) (p q : String) → check_each render print same check p i vs ≡ none
      → check_each render print same check q i vs ≡ none
  unfolding check_each
  check_each-path check free nil i p q h = refl
  check_each-path check free (cons v vs) i p q h =
      let (now, then_on) = or_next-none _ _ h in
      or_next-both _ _ (free v _ _ now) (check_each-path check free vs (suc i) p q then_on)

  items_check-path :
      (check : Value → String → Option String)
      → PathFree check
      → PathFree (items_check render print same (some check))
  items_check-path check free (array vs) p q h = check_each-path check free vs 0 p q h
  items_check-path check free null p q h = refl
  items_check-path check free (boolean b) p q h = refl
  items_check-path check free (number n) p q h = refl
  items_check-path check free (text t) p q h = refl
  items_check-path check free (object fs) p q h = refl

  if_items :
      (b : Bool) (check : Value → String → Option String)
      (rest : Option (Value → String → Option String))
      → PathFree check
      → PathFree (items_check render print same rest)
      → PathFree (items_check render print same (if b then some check else rest))
  if_items true check rest h k = items_check-path check h
  if_items false check rest h k = k

  mutual
    unfolding validate_at

    pub validate_at-path : (s : Value) → PathFree (validate_at render print same s)
    validate_at-path (object schema) v p q h =
        let (t, h1) = or_next-none _ _ h in
        let (e, h2) = or_next-none _ _ h1 in
        let (m, h3) = or_next-none _ _ h2 in
        let (props, items) = or_next-none _ _ h3 in
        let (t', e', m') =
          keyword_checks render print same schema v q
            (keyword_path render print same schema v p t e m) in
        or_next-both _ _ t' (
          or_next-both _ _ e' (
            or_next-both _ _ m' (
              or_next-both _ _ (properties_in-path schema v p q props)
                (items_in-path schema v p q items))))
    validate_at-path null v p q h = refl
    validate_at-path (boolean b) v p q h = refl
    validate_at-path (number n) v p q h = refl
    validate_at-path (text t) v p q h = refl
    validate_at-path (array vs) v p q h = refl

    items_in-path :
        (fs : Fields) → PathFree (items_check render print same (items_in render print same fs))
    items_in-path end v p q h = refl
    items_in-path (field key s fs) v p q h =
        if_items (str_eq key "items") (validate_at render print same s)
          (items_in render print same fs) (validate_at-path s) (items_in-path fs) v p q h

    properties_in-path : (fs : Fields) → PathFree (properties_in render print same fs)
    properties_in-path end v p q h = refl
    properties_in-path (field key s fs) v p q h =
        if_none_both (str_eq key "properties") _ _ _ _ (properties_of-path s v p q)
          (properties_in-path fs v p q) h

    properties_of-path : (s : Value) → PathFree (properties_of render print same s)
    properties_of-path (object props) v p q h = each_property-path props v p q h
    properties_of-path null v p q h = refl
    properties_of-path (boolean b) v p q h = refl
    properties_of-path (number n) v p q h = refl
    properties_of-path (text t) v p q h = refl
    properties_of-path (array vs) v p q h = refl

    each_property-path : (fs : Fields) → PathFree (each_property render print same fs)
    each_property-path end v p q h = refl
    each_property-path (field key s fs) v p q h =
        let (now, rest) = or_next-none _ _ h in
        or_next-both _ _
          (and_then-none_both (get_field v key) _ _ (λ w. validate_at-path s w _ _) now)
          (each_property-path fs v p q rest)
