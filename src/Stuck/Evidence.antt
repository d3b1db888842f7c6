-- ===== src/Stuck/Evidence.antt =====
-- What a report of `detect_stuck` is evidence of.
use mathlib.Core.List.{reverse, reverse-append, reverse-reverse, reverse-cons}
use eventage_rs.Prelude.{
  ℕ, zero, suc, ◌-◌, ◌≤◌, ◌<◌, ◌≡◌, ◌⊎◌, inl, inr, refl, ap, ap₂, sym, ◌∙◌, subst, String, Bool,
  true, false, Option, none, some, List, [], ◌∷◌, ◌++◌, length, length-append, length-drop, take,
  drop, take-append-drop, filter, filter_map, all, take_while, last, leb, leb→le, ltb, All, All-map,
  arith, Bool-cases, Option-cases, if◌then◌else◌, str_eq, eq_iff,
}
use eventage_rs.Event.{Event}
use eventage_rs.Glob.{Text}
use eventage_rs.Stuck.Reading.{
  IsError, IsProposal, IsSilent, Picks, filter_map-Picks, result_error_iff, proposal_iff,
  silent-IsSilent,
}
use eventage_rs.Stuck.{
  StuckKind, repeating_action, repeating_error, monologue, context_window_loop, StuckAnalysis,
  tail_of, proposal, result_error, pair_eq, run_of, trailing_run, silent, is_monologue, repeated,
  or_else, is_context_error, context_loop, action_loop, error_loop, monologue_loop, detect_stuck,
}

abbrev pub replicate {ℓ} : {A : Type ℓ} → ℕ → A → List A
replicate zero a = []
replicate (suc n) a = a ∷ replicate n a

-- The list ends in `n` copies of one element.
abbrev pub EndsInRun {ℓ} : {A : Type ℓ} → List A → ℕ → Type ℓ
EndsInRun {A = A} xs n = (front : List A) × (x : A) × (xs ≡ front ++ replicate n x)

module _ {ℓ} {A : Type ℓ} where
  replicate-snoc : (n : ℕ) (a : A) → replicate n a ++ a ∷ [] ≡ a ∷ replicate n a
  replicate-snoc zero a = refl
  replicate-snoc (suc n) a = ap (◌∷◌ a) (replicate-snoc n a)

  reverse-replicate : (n : ℕ) (a : A) → reverse (replicate n a) ≡ replicate n a
  reverse-replicate zero a = refl
  reverse-replicate (suc n) a =
      reverse-cons a (replicate n a)
      ∙ ap (λ l. l ++ a ∷ []) (reverse-replicate n a)
      ∙ replicate-snoc n a

  module _ (eq : A → A → Bool) (sound : (a b : A) → eq a b ≡ true → a ≡ b) where
    take_while-run :
        (x : A) (ys : List A)
        → (rest : List A) × (ys ≡ replicate (length (take_while (λ y. eq y x) ys)) x ++ rest)
    take_while-run x [] = ([], refl)
    take_while-run x (y ∷ ys) = elim (Bool-cases (eq y x)) [
      | inl same ↦
          let (rest, e) = take_while-run x ys in (rest, rw same (ap₂ ◌∷◌ (sound y x same) e))
      | inr other ↦ (y ∷ ys, rw other refl)
    ]

    trailing_run-EndsInRun :
        (xs : List A) → 0 < trailing_run eq xs → EndsInRun xs (trailing_run eq xs)
    unfolding trailing_run
    trailing_run-EndsInRun xs h = elim (Option-cases (last xs)) [
      | inl none_left ↦
          absurd (let empty : 0 < 0 = rw (none_left, trailing_run) at h in omega arith)
      | inr (x, e) ↦
          rw (e, trailing_run)
            (let (rest, q) = take_while-run x (reverse xs) in
              (
                reverse rest,
                x,
                sym (reverse-reverse xs)
                    ∙ ap reverse q
                    ∙ reverse-append (replicate (run_of eq xs x) x) rest
                    ∙ ap (◌++◌ (reverse rest)) (reverse-replicate _ x),
              ))
    ]

pair_eq_sound : (a b : String × String) → pair_eq a b ≡ true → a ≡ b
pair_eq_sound (a, b) (c, d) h = ground (arith, eq_iff a c, eq_iff b d)

str_eq_sound : (a b : String) → str_eq a b ≡ true → a ≡ b
str_eq_sound a b h = (eq_iff a b).0 h

or_else-some :
    (a b : Option StuckAnalysis) (r : StuckAnalysis)
    → or_else a b ≡ some r
    → (a ≡ some r) ⊎ (b ≡ some r)
or_else-some none b r h = inr h
or_else-some (some a) b r h = inl h

none-some : {r : StuckAnalysis} → none ≡ some r → ⊥
none-some h = cc

test_some :
    (b : Bool) (x r : StuckAnalysis) → (if b then some x else none) ≡ some r → (b ≡ true) × (x ≡ r)
test_some true x r h = (refl, cc)
test_some false x r h = absurd (none-some h)

length-take {ℓ} : {A : Type ℓ} → (n : ℕ) (xs : List A) → n ≤ length xs → length (take n xs) ≡ n
length-take zero xs h = refl
length-take (suc n) [] h = omega arith
length-take (suc n) (x ∷ xs) h = ap suc (length-take n xs (omega arith))

length-reverse {ℓ} : {A : Type ℓ} → (xs : List A) → length (reverse xs) ≡ length xs
length-reverse [] = refl
length-reverse (x ∷ xs) =
    ap length (reverse-cons x xs)
    ∙ length-append (reverse xs) (x ∷ [])
    ∙ omega (arith, length-reverse xs)

all→All {ℓ} :
    {A : Type ℓ} → (p : A → Bool) (xs : List A) → all p xs ≡ true → All (λ x. p x ≡ true) xs
all→All p [] h = tt
all→All p (x ∷ xs) h =
    let both : (p x ≡ true) × (all p xs ≡ true) = ground arith in (both.0, all→All p xs both.1)

module _ (to_lowercase : String → Text) where
  -- What a report says about the events that were inspected, by its kind.
  abbrev pub Shows : List Event → ℕ → StuckKind → Type 0
  Shows tail n context_window_loop =
      (2 ≤ n) × (n ≡ length (filter (is_context_error to_lowercase) tail))
  Shows tail n repeating_action =
      (3 ≤ n)
      × ((proposals : List (String × String)) × Picks IsProposal tail proposals
          × EndsInRun proposals n)
  Shows tail n repeating_error =
      (3 ≤ n) × ((errors : List String) × Picks IsError tail errors × EndsInRun errors n)
  Shows tail n monologue =
      (n ≡ 4)
      × (four : List Event) × (older : List Event) × (reverse tail ≡ four ++ older)
      × (length four ≡ 4)
      × All IsSilent four

  context-Shows :
      (tail : List Event) (r : StuckAnalysis)
      → context_loop to_lowercase tail ≡ some r
      → Shows tail r.repeat_count r.kind
  unfolding context_loop
  context-Shows tail r h =
      let (b, e) = test_some _ _ r h in
      subst (λ a. Shows tail a.repeat_count a.kind) e (leb→le _ _ b, refl)

  repeated-some :
      (kind : StuckKind) (entries run : ℕ) (r : StuckAnalysis)
      → repeated kind entries run ≡ some r
      → (3 ≤ run) × ((record { kind = kind; repeat_count = run }) ≡ r)
  unfolding repeated
  repeated-some kind entries run r h =
      let (b, e) = test_some _ _ r h in (leb→le 3 run (ground (arith, b)), e)

  action-Shows :
      (tail : List Event) (r : StuckAnalysis)
      → action_loop to_lowercase tail ≡ some r
      → Shows tail r.repeat_count r.kind
  unfolding action_loop
  action-Shows tail r h =
      let (three, e) = repeated-some _ _ _ r h in
      subst (λ a. Shows tail a.repeat_count a.kind) e
        (
          three,
          (
            filter_map proposal tail,
            filter_map-Picks IsProposal proposal proposal_iff tail,
            trailing_run-EndsInRun pair_eq pair_eq_sound (filter_map proposal tail) (omega arith),
          ),
        )

  error-Shows :
      (tail : List Event) (r : StuckAnalysis)
      → error_loop to_lowercase tail ≡ some r
      → Shows tail r.repeat_count r.kind
  unfolding error_loop
  error-Shows tail r h =
      let (three, e) = repeated-some _ _ _ r h in
      subst (λ a. Shows tail a.repeat_count a.kind) e
        (
          three,
          (
            filter_map result_error tail,
            filter_map-Picks IsError result_error result_error_iff tail,
            trailing_run-EndsInRun str_eq str_eq_sound (filter_map result_error tail) (omega arith),
          ),
        )

  monologue-Shows :
      (tail : List Event) (r : StuckAnalysis)
      → monologue_loop to_lowercase tail ≡ some r
      → Shows tail r.repeat_count r.kind
  unfolding monologue_loop is_monologue
  monologue-Shows tail r h =
      let (b, e) = test_some _ _ r h in
      let parts : (leb 4 (length tail) ≡ true) × (all silent (take 4 (reverse tail)) ≡ true) =
        ground (arith, b) in
      subst (λ a. Shows tail a.repeat_count a.kind) e
        (
          refl,
          take 4 (reverse tail),
          drop 4 (reverse tail),
          sym (take-append-drop 4 (reverse tail)),
          length-take 4 (reverse tail) (rw (length-reverse tail) (leb→le 4 (length tail) parts.0)),
          All-map _ IsSilent (take 4 (reverse tail)) silent-IsSilent
              (all→All silent (take 4 (reverse tail)) parts.1),
        )

  tail_of-suffix :
      (events : List Event) (window : ℕ)
      → ((front : List Event) × (events ≡ front ++ tail_of events window))
        × (length (tail_of events window) ≤ window)
  unfolding tail_of
  tail_of-suffix events window = elim (Bool-cases (ltb window (length events))) [
    | inl long ↦ rw long (
      (take (length events - window) events, sym (take-append-drop _ events)),
      rw (length-drop (length events - window) events) (omega arith),
    )
    | inr short ↦ rw short (([], refl), ground (arith, short))
  ]

  -- For every lower-casing: when `detect_stuck` reports a pattern, the events it inspected are a
  -- suffix of the given ones, at most `window` long, and that suffix shows the reported pattern
  -- with the reported count: as many context errors as counted and at least two; or the proposed
  -- calls, or the errors of tool results, end in that many (at least three) equal entries, where
  -- events of other kinds and results without an error are left out; or the last four events are
  -- assistant messages without tool calls.
  pub detect_stuck-Shows :
      (events : List Event) (window : ℕ) (r : StuckAnalysis)
      → detect_stuck to_lowercase events window ≡ some r
      → ((front : List Event) × (events ≡ front ++ tail_of events window))
        × (length (tail_of events window) ≤ window)
        × Shows (tail_of events window) r.repeat_count r.kind
  unfolding detect_stuck
  detect_stuck-Shows events window r h =
      let tail : List Event = tail_of events window in
      let (suffix, short) = tail_of-suffix events window in
      (
        suffix,
        short,
        elim (or_else-some _ _ r h) [
          | inl c ↦ context-Shows tail r c
          | inr h₁ ↦ elim (or_else-some _ _ r h₁) [
            | inl a ↦ action-Shows tail r a
            | inr h₂ ↦ elim (or_else-some _ _ r h₂) [
              | inl e ↦ error-Shows tail r e
              | inr m ↦ monologue-Shows tail r m
            ]
          ]
        ],
      )
