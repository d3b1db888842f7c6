-- ===== src/Store/Reading.antt =====
-- Reading events through lists of ids: prefixes, suffixes, and what storing one more event changes.
use eventage_rs.Prelude.{
  ℕ, zero, suc, ◌≤◌, ◌≡◌, subst, refl, ap, ap₂, false, Option, none, some, List, [], ◌∷◌, ◌++◌, map,
  length, take, drop, contains, lookup, insert, lookup-insert, All, cons_some, last, arith,
}
use eventage_rs.Event.{Event, EventId}
use eventage_rs.Store.{resolve}
use eventage_rs.Store.Soundness.{Holds}

cons_some-append {ℓ} :
    {A : Type ℓ} (o : Option A) (xs ys zs : List A)
    → xs ≡ ys ++ zs
    → cons_some o xs ≡ cons_some o ys ++ zs
cons_some-append none xs ys zs h = h
cons_some-append (some a) xs ys zs h = ap (◌∷◌ a) h

module _ (nodes : List (EventId × Event)) where
  pub resolve-append :
      (is js : List EventId) → resolve nodes (is ++ js) ≡ resolve nodes is ++ resolve nodes js
  resolve-append [] js = refl
  resolve-append (i ∷ is) js =
      cons_some-append (lookup i nodes) _ (resolve nodes is) (resolve nodes js)
        (resolve-append is js)

  pub resolve-take :
      (n : ℕ) (is : List EventId)
      → All (Holds nodes) is
      → resolve nodes (take n is) ≡ take n (resolve nodes is)
  resolve-take zero is h = refl
  resolve-take (suc n) [] h = refl
  resolve-take (suc n) (i ∷ is) ((e, q, k), h) = rw q (ap (◌∷◌ e) (resolve-take n is h))

  pub resolve-drop :
      (n : ℕ) (is : List EventId)
      → All (Holds nodes) is
      → resolve nodes (drop n is) ≡ drop n (resolve nodes is)
  resolve-drop zero is h = refl
  resolve-drop (suc n) [] h = refl
  resolve-drop (suc n) (i ∷ is) ((e, q, k), h) = rw q (resolve-drop n is h)

  -- Storing an event under an id that a list does not name changes nothing read through the list.
  pub resolve-insert :
      (k : EventId) (e : Event) (is : List EventId)
      → contains is k ≡ false
      → resolve (insert k e nodes) is ≡ resolve nodes is
  resolve-insert k e [] h = refl
  resolve-insert k e (i ∷ is) h =
      ap₂ cons_some (ground (arith, lookup-insert k i e nodes))
        (resolve-insert k e is (ground arith))

-- The event just stored is what its id names.
pub resolve-insert_self :
    (nodes : List (EventId × Event)) (k : EventId) (e : Event)
    → resolve (insert k e nodes) (k ∷ []) ≡ e ∷ []
resolve-insert_self nodes k e =
    let stored : lookup k (insert k e nodes) ≡ some e = ground (arith, lookup-insert k k e nodes) in
    ap (λ (o : Option Event). cons_some o []) stored

module _ {ℓ} {A : Type ℓ} where
  pub last-snoc : (xs : List A) (y : A) → last (xs ++ y ∷ []) ≡ some y
  last-snoc [] y = refl
  last-snoc (x ∷ []) y = refl
  last-snoc (x ∷ x' ∷ xs) y = last-snoc (x' ∷ xs) y

  pub drop-append_le :
      (n : ℕ) (xs ys : List A) → n ≤ length xs → drop n (xs ++ ys) ≡ drop n xs ++ ys
  drop-append_le zero xs ys h = refl
  drop-append_le (suc n) [] ys h = absurd (omega arith)
  drop-append_le (suc n) (x ∷ xs) ys h = drop-append_le n xs ys (omega arith)

  pub All-last {κ} : (P : A → Type κ) (xs : List A) (x : A) → All P xs → last xs ≡ some x → P x
  All-last P [] x h e = absurd (ground arith)
  All-last P (y ∷ []) x h e = subst P (ground arith) h.0
  All-last P (y ∷ y' ∷ xs) x h e = All-last P (y' ∷ xs) x h.1 e

pub last-map {ℓ κ} :
    {A : Type ℓ} {B : Type κ} (f : A → B) (xs : List A) (x : A)
    → last xs ≡ some x
    → last (map f xs) ≡ some (f x)
last-map f [] x e = absurd (ground arith)
last-map f (y ∷ []) x e = ground arith
last-map f (y ∷ y' ∷ xs) x e = last-map f (y' ∷ xs) x e
