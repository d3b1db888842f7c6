-- ===== src/Prelude/Lists.antt =====
-- Lists measured and indexed by native numbers, and the iterator adapters of the source.
use Prim.Native.Nat.{ℕ, zero, suc, ◌+◌, ◌-◌}
use mathlib.Core.Path.{◌≡◌, refl, ap, ◌∙◌}
use mathlib.Core.Bool.{Bool, true, false, ◌&&◌, ◌||◌}
use mathlib.Core.List.{List, [], ◌∷◌, ◌++◌}
use mathlib.Core.Option.{Option, none, some}
use native.Mathlib.Omega.{arith}
use eventage_rs.Prelude.Tests.{if◌then◌else◌, ◌==◌}

module _ {ℓ} {A : Type ℓ} where
  abbrev pub length : List A → ℕ
  length [] = 0
  length (x ∷ xs) = suc (length xs)

  abbrev pub take : ℕ → List A → List A
  take zero xs = []
  take (suc n) [] = []
  take (suc n) (x ∷ xs) = x ∷ take n xs

  abbrev pub drop : ℕ → List A → List A
  drop zero xs = xs
  drop (suc n) [] = []
  drop (suc n) (x ∷ xs) = drop n xs

  -- `iter().filter(p)` and `retain(p)`.
  abbrev pub filter : (A → Bool) → List A → List A
  filter p [] = []
  filter p (x ∷ xs) = let rest = filter p xs in if p x then x ∷ rest else rest

  -- `iter().any(p)`.
  abbrev pub any : (A → Bool) → List A → Bool
  any p [] = false
  any p (x ∷ xs) = p x || any p xs

  -- `iter().all(p)`.
  abbrev pub all : (A → Bool) → List A → Bool
  all p [] = true
  all p (x ∷ xs) = p x && all p xs

  -- `iter().find(p)`.
  abbrev pub find : (A → Bool) → List A → Option A
  find p [] = none
  find p (x ∷ xs) = let rest = find p xs in if p x then some x else rest

  -- `iter().take_while(p)`.
  abbrev pub take_while : (A → Bool) → List A → List A
  take_while p [] = []
  take_while p (x ∷ xs) = let rest = take_while p xs in if p x then x ∷ rest else []

  -- `last()`.
  abbrev pub last : List A → Option A
  last [] = none
  last (x ∷ []) = some x
  last (x ∷ y ∷ ys) = last (y ∷ ys)

  abbrev pub is_empty : List A → Bool
  is_empty [] = true
  is_empty (x ∷ xs) = false

  abbrev pub get_elem? : List A → ℕ → Option A
  get_elem? [] i = none
  get_elem? (x ∷ xs) zero = some x
  get_elem? (x ∷ xs) (suc i) = get_elem? xs i

  -- A predicate on every element.
  abbrev pub All {κ} : (A → Type κ) → List A → Type κ
  All P [] = Unit
  All P (x ∷ xs) = P x × All P xs

abbrev pub cons_some {ℓ} : {B : Type ℓ} → Option B → List B → List B
cons_some none ys = ys
cons_some (some y) ys = y ∷ ys

-- `iter().filter_map(f)`.
abbrev pub filter_map {ℓ κ} : {A : Type ℓ} {B : Type κ} → (A → Option B) → List A → List B
filter_map f [] = []
filter_map f (x ∷ xs) = cons_some (f x) (filter_map f xs)

abbrev pub and_then {ℓ κ} : {A : Type ℓ} {B : Type κ} → Option A → (A → Option B) → Option B
and_then none f = none
and_then (some a) f = f a

-- `set.contains(&id)`, and membership in a vector of ids.
abbrev pub contains : List ℕ → ℕ → Bool
contains [] i = false
contains (j ∷ js) i = i == j || contains js i

-- `iter().position(|&j| j == i)`.
abbrev pub position : ℕ → List ℕ → Option ℕ
position i [] = none
position i (j ∷ js) = elim (j == i) [
  | true ↦ some 0
  | false ↦ elim (position i js) [ none ↦ none | some p ↦ some (suc p) ]
]

-- All ids are distinct.
abbrev pub Distinct : List ℕ → Type 0
Distinct [] = Unit
Distinct (i ∷ is) = (contains is i ≡ false) × Distinct is

module _ {ℓ} {A : Type ℓ} where
  pub length-append : (xs ys : List A) → length (xs ++ ys) ≡ length xs + length ys
  length-append [] ys = omega arith
  length-append (x ∷ xs) ys = omega (arith, length-append xs ys)

  pub take-append-drop : (n : ℕ) (xs : List A) → take n xs ++ drop n xs ≡ xs
  take-append-drop zero xs = refl
  take-append-drop (suc n) [] = refl
  take-append-drop (suc n) (x ∷ xs) = ap (◌∷◌ x) (take-append-drop n xs)

  pub length-drop : (n : ℕ) (xs : List A) → length (drop n xs) ≡ length xs - n
  length-drop zero xs = omega arith
  length-drop (suc n) [] = omega arith
  length-drop (suc n) (x ∷ xs) = omega (arith, length-drop n xs)

  pub All-append {κ} : (P : A → Type κ) (xs ys : List A) → All P xs → All P ys → All P (xs ++ ys)
  All-append P [] ys h k = k
  All-append P (x ∷ xs) ys h k = (h.0, All-append P xs ys h.1 k)

  pub All-append_left {κ} : (P : A → Type κ) (xs ys : List A) → All P (xs ++ ys) → All P xs
  All-append_left P [] ys h = tt
  All-append_left P (x ∷ xs) ys h = (h.0, All-append_left P xs ys h.1)

  pub All-take {κ} : (P : A → Type κ) (n : ℕ) (xs : List A) → All P xs → All P (take n xs)
  All-take P zero xs h = tt
  All-take P (suc n) [] h = tt
  All-take P (suc n) (x ∷ xs) h = (h.0, All-take P n xs h.1)

  pub All-drop {κ} : (P : A → Type κ) (n : ℕ) (xs : List A) → All P xs → All P (drop n xs)
  All-drop P zero xs h = h
  All-drop P (suc n) [] h = tt
  All-drop P (suc n) (x ∷ xs) h = All-drop P n xs h.1

  pub All-always {κ} : (P : A → Type κ) (xs : List A) → ((x : A) → P x) → All P xs
  All-always P [] f = tt
  All-always P (x ∷ xs) f = (f x, All-always P xs f)

  pub All-map {κ μ} :
      (P : A → Type κ) (Q : A → Type μ) (xs : List A) → ((x : A) → P x → Q x) → All P xs → All Q xs
  All-map P Q [] f h = tt
  All-map P Q (x ∷ xs) f h = (f x h.0, All-map P Q xs f h.1)

pub contains-append :
    (xs ys : List ℕ) (i : ℕ) → contains (xs ++ ys) i ≡ (contains xs i || contains ys i)
contains-append [] ys i = refl
contains-append (x ∷ xs) ys i = ground (arith, contains-append xs ys i)

cons_some-append {ℓ} :
    {B : Type ℓ} (o : Option B) (xs ys : List B) → cons_some o (xs ++ ys) ≡ cons_some o xs ++ ys
cons_some-append none xs ys = refl
cons_some-append (some b) xs ys = refl

module _ {ℓ κ} {A : Type ℓ} {B : Type κ} where
  pub filter_map-append :
      (f : A → Option B) (xs ys : List A)
      → filter_map f (xs ++ ys) ≡ filter_map f xs ++ filter_map f ys
  filter_map-append f [] ys = refl
  filter_map-append f (x ∷ xs) ys =
      ap (cons_some (f x)) (filter_map-append f xs ys)
      ∙ cons_some-append (f x) (filter_map f xs) (filter_map f ys)

-- What holds of every member holds of the list.
pub All-contains {ℓ} :
    (P : ℕ → Type ℓ) (xs : List ℕ) → ((i : ℕ) → contains xs i ≡ true → P i) → All P xs
All-contains P [] f = tt
All-contains P (x ∷ xs) f = (f x (ground arith), All-contains P xs (λ i h. f i (ground arith)))

pub Distinct-snoc :
    (xs : List ℕ) (i : ℕ) → Distinct xs → contains xs i ≡ false → Distinct (xs ++ i ∷ [])
Distinct-snoc [] i d h = (refl, tt)
Distinct-snoc (x ∷ xs) i d h =
    (ground (arith, contains-append xs (i ∷ []) x), Distinct-snoc xs i d.1 (ground arith))

pub contains-take :
    (n : ℕ) (xs : List ℕ) (i : ℕ) → contains xs i ≡ false → contains (take n xs) i ≡ false
contains-take zero xs i h = refl
contains-take (suc n) [] i h = refl
contains-take (suc n) (x ∷ xs) i h = ground (arith, contains-take n xs i)

pub contains-drop :
    (n : ℕ) (is : List ℕ) (i : ℕ) → contains is i ≡ false → contains (drop n is) i ≡ false
contains-drop zero is i h = h
contains-drop (suc n) [] i h = refl
contains-drop (suc n) (j ∷ is) i h = contains-drop n is i (ground arith)

pub Distinct-take : (n : ℕ) (xs : List ℕ) → Distinct xs → Distinct (take n xs)
Distinct-take zero xs d = tt
Distinct-take (suc n) [] d = tt
Distinct-take (suc n) (x ∷ xs) d = (contains-take n xs x d.0, Distinct-take n xs d.1)
