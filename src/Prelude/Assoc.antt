-- ===== src/Prelude/Assoc.antt =====
-- `HashMap` with ids or texts as keys: an association list with one entry for each key.
use mathlib.Core.Path.{◌≡◌, refl}
use Prim.Native.Nat.{ℕ}
use Prim.Native.String.{String}
use mathlib.Core.Bool.{Bool, true, false}
use mathlib.Core.List.{List, [], ◌∷◌}
use mathlib.Core.Option.{Option, none, some}
use native.Mathlib.Omega.{arith}
use text.Mathlib.Text.{◌==◌ as str_eq}
use text.Mathlib.TextEquality.{eq_iff}
use eventage_rs.Prelude.Tests.{if◌then◌else◌, ◌==◌}

-- Keyed by ids.
module _ {ℓ} {V : Type ℓ} where
  abbrev pub lookup : ℕ → List (ℕ × V) → Option V
  lookup k [] = none
  lookup k ((j, v) ∷ m) = let rest = lookup k m in if j == k then some v else rest

  abbrev pub insert : ℕ → V → List (ℕ × V) → List (ℕ × V)
  insert k v [] = (k, v) ∷ []
  insert k v ((j, w) ∷ m) = let rest = insert k v m in if j == k then (k, v) ∷ m else (j, w) ∷ rest

  -- `map.retain(|id, _| keep(id))`.
  abbrev pub retain : (ℕ → Bool) → List (ℕ × V) → List (ℕ × V)
  retain keep [] = []
  retain keep ((j, v) ∷ m) = let rest = retain keep m in if keep j then (j, v) ∷ rest else rest

  pub lookup-insert :
      (k j : ℕ) (v : V) (m : List (ℕ × V))
      → lookup j (insert k v m) ≡ (if k == j then some v else lookup j m)
  lookup-insert k j v [] = refl
  lookup-insert k j v ((i, w) ∷ m) = ground (arith, lookup-insert k j v m)

  pub lookup-retain :
      (keep : ℕ → Bool) (k : ℕ) (m : List (ℕ × V))
      → keep k ≡ true
      → lookup k (retain keep m) ≡ lookup k m
  lookup-retain keep k [] h = refl
  lookup-retain keep k ((j, v) ∷ m) h = ground (arith, lookup-retain keep k m h)

  pub lookup-retain_dropped :
      (keep : ℕ → Bool) (k : ℕ) (m : List (ℕ × V))
      → keep k ≡ false
      → lookup k (retain keep m) ≡ none
  lookup-retain_dropped keep k [] h = refl
  lookup-retain_dropped keep k ((j, v) ∷ m) h = ground (arith, lookup-retain_dropped keep k m h)

-- Keyed by texts.
module _ {ℓ} {V : Type ℓ} where
  abbrev pub get : String → List (String × V) → Option V
  get k [] = none
  get k ((j, v) ∷ m) = let rest = get k m in if str_eq j k then some v else rest

  abbrev pub put : String → V → List (String × V) → List (String × V)
  put k v [] = (k, v) ∷ []
  put k v ((j, w) ∷ m) = let rest = put k v m in if str_eq j k then (k, v) ∷ m else (j, w) ∷ rest

  pub get-put :
      (k j : String) (v : V) (m : List (String × V))
      → get j (put k v m) ≡ (if str_eq k j then some v else get j m)
  get-put k j v [] = refl
  get-put k j v ((i, w) ∷ m) = ground (arith, eq_iff k j, eq_iff i k, eq_iff i j, get-put k j v m)
