-- ===== src/HookChain/Withdrawal.antt =====
-- A handle withdraws exactly its registration (src/agent/hook.rs, `DynamicHookChain`).
use native.Mathlib.Nat.{mod-eq_of_lt}
use mathlib.Core.List.{append-nil, append_assoc}
use eventage_rs.Prelude.{
  ℕ, suc, ◌+◌, ◌%◌, ◌==◌, ◌<◌, ◌≡◌, refl, sym, ap, ◌∙◌, true, false, not, List, [], ◌∷◌, ◌++◌,
  filter, length, length-append, contains, Distinct, Distinct-snoc, All, All-append, All-map, arith,
  subst,
}
use eventage_rs.HookChain.{
  DynamicHookChain, u64_mod, add_arc, remove, remove_all, add_all, replace_all,
}

contains-below : (n : ℕ) (is : List ℕ) → All (λ i. i < n) is → contains is n ≡ false
contains-below n [] h = refl
contains-below n (i ∷ is) h = ground (arith, contains-below n is h.1)

module _ {H : Type 0} where
  abbrev pub handles : List (ℕ × H) → List ℕ
  handles [] = []
  handles ((i, h) ∷ slots) = i ∷ handles slots

  -- No handle is used twice, and all are older than the next one.
  abbrev pub IsNumbered : DynamicHookChain H → Type 0
  IsNumbered c = Distinct (handles c.hooks) × All (λ i. i < c.next_id) (handles c.hooks)

  handles-append : (xs ys : List (ℕ × H)) → handles (xs ++ ys) ≡ handles xs ++ handles ys
  handles-append [] ys = refl
  handles-append ((i, h) ∷ xs) ys = ap (◌∷◌ i) (handles-append xs ys)

  add_arc-IsNumbered :
      (c : DynamicHookChain H) (h : H)
      → suc c.next_id < u64_mod
      → IsNumbered c
      → IsNumbered (add_arc c h).0
  unfolding add_arc
  add_arc-IsNumbered c h room (d, older) =
      let same : (c.next_id + 1) % u64_mod ≡ c.next_id + 1 = mod-eq_of_lt (omega arith) in
      rw (same, handles-append c.hooks ((c.next_id, h) ∷ []))
        (
          Distinct-snoc (handles c.hooks) c.next_id d
              (contains-below c.next_id (handles c.hooks) older),
          All-append (λ i. i < c.next_id + 1) (handles c.hooks) (c.next_id ∷ [])
              (All-map (λ i. i < c.next_id) (λ i. i < c.next_id + 1) (handles c.hooks)
                (λ i k. omega arith) older)
              (omega arith, tt),
        )

  next_id-add_arc :
      (c : DynamicHookChain H) (h : H)
      → suc c.next_id < u64_mod
      → (add_arc c h).0.next_id ≡ c.next_id + 1
  unfolding add_arc
  next_id-add_arc c h room = mod-eq_of_lt (omega arith)

  hooks-add_arc :
      (c : DynamicHookChain H) (h : H) (later : List (ℕ × H))
      → (add_arc c h).0.hooks ++ later ≡ c.hooks ++ ((add_arc c h).1, h) ∷ later
  unfolding add_arc
  hooks-add_arc c h later = append_assoc c.hooks ((c.next_id, h) ∷ []) later

  filter-absent :
      (i : ℕ) (slots : List (ℕ × H))
      → contains (handles slots) i ≡ false
      → filter (λ p. not (p.0 == i)) slots ≡ slots
  filter-absent i [] h = refl
  filter-absent i ((j, x) ∷ slots) h = ground (arith, filter-absent i slots (ground arith))

  middle-apart :
      (front back : List (ℕ × H)) (i j : ℕ) (h : H)
      → contains (handles (front ++ (i, h) ∷ back)) j ≡ false
      → (j == i) ≡ false
  middle-apart [] back i j h d = ground arith
  middle-apart ((k, x) ∷ front) back i j h d = middle-apart front back i j h (ground arith)

  filter-one :
      (front back : List (ℕ × H)) (i : ℕ) (h : H)
      → Distinct (handles (front ++ (i, h) ∷ back))
      → filter (λ p. not (p.0 == i)) (front ++ (i, h) ∷ back) ≡ front ++ back
  filter-one [] back i h d = ground (arith, filter-absent i back d.0)
  filter-one ((j, x) ∷ front) back i h d =
      ground (arith, middle-apart front back i j h d.0, filter-one front back i h d.1)

  -- Withdrawing a handle of a numbered chain takes out its registration and no other.
  remove-exact :
      (c : DynamicHookChain H) (front back : List (ℕ × H)) (id : ℕ) (h : H)
      → IsNumbered c
      → c.hooks ≡ front ++ (id, h) ∷ back
      → remove c id ≡ (record c { hooks = front ++ back }, true)
  unfolding remove
  remove-exact c front back id h (d, older) e =
      let left : filter (λ p. not (p.0 == id)) c.hooks ≡ front ++ back =
        rw e (filter-one front back id h (subst (λ l. Distinct (handles l)) e d)) in
      let shorter : (length (front ++ back) == length c.hooks) ≡ false =
        rw e (ground (arith, length-append front back, length-append front ((id, h) ∷ back))) in
      rw (left, shorter) refl

  add_all-IsNumbered :
      (c : DynamicHookChain H) (hs : List H)
      → c.next_id + length hs < u64_mod
      → IsNumbered c
      → IsNumbered (add_all c hs)
  unfolding add_all
  add_all-IsNumbered c [] room v = v
  add_all-IsNumbered c (h ∷ hs) room v =
      add_all-IsNumbered (add_arc c h).0 hs (omega (arith, next_id-add_arc c h (omega arith)))
        (add_arc-IsNumbered c h (omega arith) v)

  -- Replacing the hooks of any chain gives distinct handles below the counter, unless the counter
  -- wraps around meanwhile.
  pub replace_all-IsNumbered :
      (c : DynamicHookChain H) (hs : List H)
      → c.next_id + length hs < u64_mod
      → IsNumbered (replace_all c hs)
  unfolding replace_all remove_all
  replace_all-IsNumbered c hs room = add_all-IsNumbered (record c { hooks = [] }) hs room (tt, tt)

  add_all-extends :
      (c : DynamicHookChain H) (hs : List H)
      → (more : List (ℕ × H)) × ((add_all c hs).hooks ≡ c.hooks ++ more)
  unfolding add_all add_arc
  add_all-extends c [] = ([], sym (append-nil c.hooks))
  add_all-extends c (h ∷ hs) =
      let (more, e) = add_all-extends (add_arc c h).0 hs in
      ((c.next_id, h) ∷ more, e ∙ append_assoc c.hooks ((c.next_id, h) ∷ []) more)

  -- In a chain with distinct handles below a counter that does not wrap around meanwhile: a hook
  -- is registered, then any others; the handle that was returned withdraws that registration, says
  -- so, and leaves the hooks before and after it in their order.
  pub remove-add_arc :
      (c : DynamicHookChain H) (h : H) (others : List H)
      → IsNumbered c
      → suc (c.next_id + length others) < u64_mod
      → (later : List (ℕ × H)) × ((add_all (add_arc c h).0 others).hooks
          ≡ c.hooks ++ ((add_arc c h).1, h) ∷ later)
        × (remove (add_all (add_arc c h).0 others) (add_arc c h).1
            ≡ (record (add_all (add_arc c h).0 others) { hooks = c.hooks ++ later }, true))
  remove-add_arc c h others v room =
      let full : DynamicHookChain H = add_all (add_arc c h).0 others in
      let numbered : IsNumbered full =
        add_all-IsNumbered (add_arc c h).0 others (omega (arith, next_id-add_arc c h (omega arith)))
          (add_arc-IsNumbered c h (omega arith) v) in
      let (later, e) = add_all-extends (add_arc c h).0 others in
      let laid : full.hooks ≡ c.hooks ++ ((add_arc c h).1, h) ∷ later =
        e ∙ hooks-add_arc c h later in
      (later, laid, remove-exact full c.hooks later (add_arc c h).1 h numbered laid)
