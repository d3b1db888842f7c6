-- ===== src/Glob.antt =====
-- src/agent/permission.rs, `glob_match`: the pattern language of permission and recovery rules.
-- A text is its list of code points; the code's `pos` is kept as the text from `pos` on, so a slice
-- is what a search leaves.
pub mod Matching
use Prim.Native.Char.{code}
use eventage_rs.Prelude.{
  ℕ, suc, ◌-◌, ◌==◌, String, Bool, true, false, ◌&&◌, Option, none, some, List, [], ◌∷◌, length,
  drop, leb, is_some, if◌then◌else◌,
}

abbrev pub Text : Type 0
Text = List ℕ

abbrev pub codes : String → Text
codes String.[] = []
codes (String.◌∷◌ c s) = code c ∷ codes s

abbrev pub star : ℕ
star = b'*'

abbrev pub text_eq : Text → Text → Bool
text_eq [] [] = true
text_eq [] (d ∷ ds) = false
text_eq (c ∷ cs) [] = false
text_eq (c ∷ cs) (d ∷ ds) = c == d && text_eq cs ds

abbrev pub push_front : ℕ → List Text → List Text
push_front c [] = (c ∷ []) ∷ []
push_front c (seg ∷ segs) = (c ∷ seg) ∷ segs

-- `pattern.split('*')`.
unfoldable pub split : Text → List Text
split [] = [] ∷ []
split (c ∷ cs) = let rest = split cs in if c == star then [] ∷ rest else push_front c rest

-- `text.starts_with(seg)`, with the text behind the segment.
unfoldable pub strip_prefix : Text → Text → Option Text
strip_prefix [] t = some t
strip_prefix (c ∷ seg) [] = none
strip_prefix (c ∷ seg) (d ∷ t) = let rest = strip_prefix seg t in if c == d then rest else none

-- `text[pos..].find(seg)`, with the text behind the first occurrence.
unfoldable pub find_after : Text → Text → Option Text
find_after seg [] = strip_prefix seg []
find_after seg (d ∷ t) = elim (strip_prefix seg (d ∷ t)) [
  | some rest ↦ some rest
  | none ↦ find_after seg t
]

unfoldable pub ends_with : Text → Text → Bool
ends_with t seg = leb (length seg) (length t) && text_eq (drop (length t - length seg) t) seg

abbrev pub is_nil : Text → Bool
is_nil [] = true
is_nil (c ∷ cs) = false

-- The loop over the middle segments, then the test of the last one.
unfoldable pub match_tail : List Text → Text → Bool
match_tail [] t = true
match_tail (last ∷ []) t = ends_with t last
match_tail (seg ∷ next ∷ segs) t =
    if is_nil seg
    then match_tail (next ∷ segs) t
    else elim (find_after seg t) [ none ↦ false | some rest ↦ match_tail (next ∷ segs) rest ]

unfoldable pub match_segments : List Text → Text → Text → Bool
match_segments [] pattern t = text_eq pattern t
match_segments (only ∷ []) pattern t = text_eq pattern t
match_segments (first ∷ second ∷ segs) pattern t = elim (strip_prefix first t) [
  | none ↦ false
  | some rest ↦ match_tail (second ∷ segs) rest
]

unfoldable pub glob_codes : Text → Text → Bool
glob_codes pattern t = match_segments (split pattern) pattern t

unfoldable pub glob_match : String → String → Bool
glob_match pattern t = glob_codes (codes pattern) (codes t)
