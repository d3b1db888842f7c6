-- ===== src/Glob/Matching.antt =====
-- `glob_match` decides whether a text is the pattern's segments with any text at each star.
use eventage_rs.Prelude.{
  ℕ, ◌+◌, ◌-◌, ◌≤◌, ◌==◌, ==_iff, ◌≡◌, ◌≢◌, All, ◌↔◌, refl, ap, ap₂, sym, ◌∙◌, String, Bool, true,
  false, ◌&&◌, inl, inr, some, List, [], ◌∷◌, ◌++◌, length, drop, take, take-append-drop,
  length-append, le→leb, arith, Bool-cases, Option-cases,
}
use mathlib.Core.List.{append_assoc}
use eventage_rs.Glob.{
  Text, star, text_eq, push_front, split, strip_prefix, find_after, ends_with, match_tail,
  match_segments, glob_codes, codes, glob_match,
}

-- The segments stand in the text in order, the last one at its end.
abbrev pub Gaps : List Text → Text → Type 0
Gaps [] t = Unit
Gaps (last ∷ []) t = (w : Text) × (t ≡ w ++ last)
Gaps (seg ∷ next ∷ segs) t = (w : Text) × (u : Text) × (t ≡ w ++ (seg ++ u)) × Gaps (next ∷ segs) u

-- The text is the segments with any text between neighbours, and nothing around them.
abbrev pub Fits : List Text → Text → Type 0
Fits [] t = t ≡ []
Fits (only ∷ []) t = t ≡ only
Fits (first ∷ second ∷ segs) t = (u : Text) × (t ≡ first ++ u) × Gaps (second ∷ segs) u

refuted : false ≡ true → ⊥
refuted h = cc

and_right : (a b : Bool) → (a && b) ≡ true → b ≡ true
and_right a b h = ground arith

and_both : (a b : Bool) → a ≡ true → b ≡ true → (a && b) ≡ true
and_both a b h k = ground arith

text_eq_iff : (s t : Text) → (text_eq s t ≡ true) ↔ (s ≡ t)
text_eq_iff [] [] = (λ _. refl, λ _. refl)
text_eq_iff [] (d ∷ t) = ground arith
text_eq_iff (c ∷ s) [] = ground arith
text_eq_iff (c ∷ s) (d ∷ t) =
    (λ h. ground (arith, (text_eq_iff s t).0), λ h. ground (arith, (text_eq_iff s t).1))

strip_prefix-append : (seg t : Text) → strip_prefix seg (seg ++ t) ≡ some t
unfolding strip_prefix
strip_prefix-append [] t = refl
strip_prefix-append (c ∷ seg) t = ground (arith, strip_prefix-append seg t)

strip_prefix_sound : (seg t r : Text) → strip_prefix seg t ≡ some r → t ≡ seg ++ r
unfolding strip_prefix
strip_prefix_sound [] t r h = ground arith
strip_prefix_sound (c ∷ seg) [] r h = ground arith
strip_prefix_sound (c ∷ seg) (d ∷ t) r h = ground (arith, strip_prefix_sound seg t r)

find_after_sound : (seg t r : Text) → find_after seg t ≡ some r → (w : Text) × (t ≡ w ++ (seg ++ r))
unfolding find_after
find_after_sound seg [] r h = ([], strip_prefix_sound seg [] r h)
find_after_sound seg (d ∷ t) r h = elim (Option-cases (strip_prefix seg (d ∷ t))) [
  | inl e ↦ let (w, q) = find_after_sound seg t r (rw (e, find_after) at h) in (d ∷ w, ap (◌∷◌ d) q)
  | inr (x, e) ↦ ([], strip_prefix_sound seg (d ∷ t) r (e ∙ rw (e, find_after) at h))
]

find_after-prefix : (seg t r : Text) → strip_prefix seg t ≡ some r → find_after seg t ≡ some r
unfolding find_after
find_after-prefix seg [] r h = h
find_after-prefix seg (d ∷ t) r h = rw (h, find_after) refl

-- Of two ways to cut one text, the later rest is a suffix of the earlier.
cut_twice : (s r w v : Text) → s ++ r ≡ w ++ v → length s ≤ length w → (x : Text) × (r ≡ x ++ v)
cut_twice [] r w v e h = (w, e)
cut_twice (c ∷ s) r [] v e h = absurd (omega arith)
cut_twice (c ∷ s) r (d ∷ w) v e h = cut_twice s r w v (ground arith) (omega arith)

-- The search finds the first occurrence, so what it leaves ends in what any occurrence leaves.
find_after_complete :
    (w seg u t : Text)
    → t ≡ w ++ (seg ++ u)
    → (r : Text) × (x : Text) × (find_after seg t ≡ some r) × (r ≡ x ++ u)
unfolding find_after
find_after_complete [] seg u t e =
    (u, [], find_after-prefix seg t u (rw e (strip_prefix-append seg u)), refl)
find_after_complete (c ∷ w) seg u [] e = absurd (ground arith)
find_after_complete (c ∷ w) seg u (d ∷ t) e = elim (Option-cases (strip_prefix seg (d ∷ t))) [
  | inl later ↦
      let (r, x, found, q) = find_after_complete w seg u t (ground arith) in
      (r, x, rw (later, find_after) found, q)
  | inr (r, now) ↦
      let (x, q) =
        cut_twice seg r ((c ∷ w) ++ seg) u
          (sym (strip_prefix_sound seg (d ∷ t) r now) ∙ e ∙ sym (append_assoc (c ∷ w) seg u))
          (omega (arith, length-append (c ∷ w) seg)) in
      (r, x, find_after-prefix seg (d ∷ t) r now, q)
]

-- More text before the first gap is only a longer gap.
Gaps-append : (segs : List Text) (x t : Text) → Gaps segs t → Gaps segs (x ++ t)
Gaps-append [] x t g = tt
Gaps-append (last ∷ []) x t (w, e) = (x ++ w, ap (◌++◌ x) e ∙ sym (append_assoc x w last))
Gaps-append (seg ∷ next ∷ segs) x t (w, u, e, g) =
    (x ++ w, u, ap (◌++◌ x) e ∙ sym (append_assoc x w (seg ++ u)), g)

drop-append : (s t : Text) → drop (length s) (s ++ t) ≡ t
drop-append [] t = refl
drop-append (c ∷ s) t = drop-append s t

ends_with_iff : (t seg : Text) → (ends_with t seg ≡ true) ↔ Gaps (seg ∷ []) t
unfolding ends_with
ends_with_iff t seg = (
  λ h. (
    take (length t - length seg) t,
    sym (take-append-drop (length t - length seg) t)
        ∙ ap (◌++◌ (take (length t - length seg) t)) ((text_eq_iff _ seg).0 (and_right _ _ h)),
  ),
  λ (w, e).
      let fits : length t ≡ length w + length seg =
        omega (arith, ap length e, length-append w seg) in
      let start : length t - length seg ≡ length w = omega arith in
      rw start (
        rw e (
          rw (drop-append w seg) (
            and_both _ _ (le→leb _ _ (omega (arith, length-append w seg)))
              ((text_eq_iff seg seg).1 refl)))),
)

match_tail_iff : (segs : List Text) (t : Text) → (match_tail segs t ≡ true) ↔ Gaps segs t
unfolding match_tail
match_tail_iff [] t = (λ _. tt, λ _. refl)
match_tail_iff (last ∷ []) t = ends_with_iff t last
match_tail_iff ([] ∷ next ∷ segs) t = (
  λ h. ([], t, refl, (match_tail_iff (next ∷ segs) t).0 h),
  λ (w, u, e, g). (match_tail_iff (next ∷ segs) t).1 (rw e (Gaps-append (next ∷ segs) w u g)),
)
match_tail_iff ((c ∷ seg) ∷ next ∷ segs) t = (
  λ h. elim (Option-cases (find_after (c ∷ seg) t)) [
    | inl missing ↦ absurd (refuted (rw (missing, match_tail) at h))
    | inr (r, found) ↦
        let (w, q) = find_after_sound (c ∷ seg) t r found in
        (w, r, q, (match_tail_iff (next ∷ segs) r).0 (rw (found, match_tail) at h))
  ],
  λ (w, u, e, g).
      let (r, x, found, q) = find_after_complete w (c ∷ seg) u t e in
      rw (found, match_tail)
        ((match_tail_iff (next ∷ segs) r).1 (rw q (Gaps-append (next ∷ segs) x u g))),
)

-- The segments put back together with a star between neighbours.
abbrev pub join : List Text → Text
join [] = []
join (only ∷ []) = only
join (first ∷ second ∷ segs) = first ++ (star ∷ join (second ∷ segs))

abbrev pub HasNoStar : Text → Type 0
HasNoStar [] = Unit
HasNoStar (c ∷ cs) = (c ≢ star) × HasNoStar cs

join-push_front : (c : ℕ) (segs : List Text) → join (push_front c segs) ≡ c ∷ join segs
join-push_front c [] = refl
join-push_front c (only ∷ []) = refl
join-push_front c (first ∷ second ∷ segs) = refl

join-star : (segs : List Text) → segs ≢ [] → join ([] ∷ segs) ≡ star ∷ join segs
join-star [] h = absurd (h refl)
join-star (seg ∷ segs) h = refl

push_front-ne-nil : (c : ℕ) (segs : List Text) → push_front c segs ≢ []
push_front-ne-nil c [] = ground arith
push_front-ne-nil c (seg ∷ segs) = ground arith

split-ne-nil : (p : Text) → split p ≢ []
unfolding split
split-ne-nil [] = ground arith
split-ne-nil (c ∷ p) = ground (arith, push_front-ne-nil c (split p))

join-split : (p : Text) → join (split p) ≡ p
unfolding split
join-split [] = refl
join-split (c ∷ p) = elim (Bool-cases (c == star)) [
  | inl e ↦
      rw e
        (join-star (split p) (split-ne-nil p) ∙ ap₂ ◌∷◌ (sym ((==_iff c star).0 e)) (join-split p))
  | inr e ↦ rw e (join-push_front c (split p) ∙ ap (◌∷◌ c) (join-split p))
]

push_front-HasNoStar :
    (c : ℕ) (segs : List Text) → c ≢ star → All HasNoStar segs → All HasNoStar (push_front c segs)
push_front-HasNoStar c [] h k = ((h, tt), tt)
push_front-HasNoStar c (seg ∷ segs) h k = ((h, k.0), k.1)

split-HasNoStar : (p : Text) → All HasNoStar (split p)
unfolding split
split-HasNoStar [] = (tt, tt)
split-HasNoStar (c ∷ p) = elim (Bool-cases (c == star)) [
  | inl e ↦ rw e (tt, split-HasNoStar p)
  | inr e ↦ rw e (push_front-HasNoStar c (split p) (ground arith) (split-HasNoStar p))
]

match_segments_iff :
    (segs : List Text) (p t : Text)
    → segs ≢ []
    → join segs ≡ p
    → (match_segments segs p t ≡ true) ↔ Fits segs t
unfolding match_segments
match_segments_iff [] p t h e = absurd (h refl)
match_segments_iff (only ∷ []) p t h e =
    (λ k. sym ((text_eq_iff p t).0 k) ∙ sym e, λ k. (text_eq_iff p t).1 (sym e ∙ sym k))
match_segments_iff (first ∷ second ∷ segs) p t h e = (
  λ k. elim (Option-cases (strip_prefix first t)) [
    | inl missing ↦ absurd (refuted (rw (missing, match_segments) at k))
    | inr (r, found) ↦ (
      r,
      strip_prefix_sound first t r found,
      (match_tail_iff (second ∷ segs) r).0 (rw (found, match_segments) at k),
    )
  ],
  λ (u, q, g).
      rw q
        (rw (strip_prefix-append first u, match_segments) ((match_tail_iff (second ∷ segs) u).1 g)),
)

-- The pattern is its segments with a star between neighbours, and no segment has a star; the
-- matcher accepts a text exactly when the text is those segments with some text, possibly empty,
-- at each star. So the search, which takes the first occurrence of each segment, misses no match.
pub glob_match_iff :
    (pattern t : String)
    → (join (split (codes pattern)) ≡ codes pattern)
      × All HasNoStar (split (codes pattern))
      × ((glob_match pattern t ≡ true) ↔ Fits (split (codes pattern)) (codes t))
unfolding glob_match glob_codes
glob_match_iff pattern t = (
  join-split (codes pattern),
  split-HasNoStar (codes pattern),
  match_segments_iff (split (codes pattern)) (codes pattern) (codes t)
      (split-ne-nil (codes pattern)) (join-split (codes pattern)),
)
