-- ===== src/Truncate.antt =====
-- src/agent/strategy.rs, `truncate_middle` and `cap_result_value`. A string is its UTF-8 bytes;
-- `Texts` has what the code takes from `serde_json` and from the strings of the standard library.
use Prim.Native.String.{◌++◌ as append_text}
use eventage_rs.Prelude.{
  ℕ, zero, suc, ◌-◌, ◌*◌, ◌/◌, String, Bool, not, ◌&&◌, ◌||◌, ◌==◌, Option, none, some, List, leb,
  ltb, length, take, drop, get_elem?, min, if◌then◌else◌,
}
use eventage_rs.Json.{Value, text}

-- The result of `serde_json::from_str`: a value, or the text of the error.
pub data Parsed : Type 0 where
  parsed : Value → Parsed
  malformed : String → Parsed

pub record Texts : Type 0 where
  pub render : Value → String
  pub parse_json : String → Parsed
  pub same : Value → Value → Bool
  pub print : ℕ → String
  pub as_bytes : String → List ℕ
  pub from_bytes : List ℕ → String
  -- `split_whitespace().count()`, and `(n as f64 * 1.3).ceil()`.
  pub word_count : String → ℕ
  pub times_1_3 : ℕ → ℕ

-- A byte that continues a character: `0x80 ..= 0xbf`.
abbrev pub continues : ℕ → Bool
continues byte = leb 0x80 byte && ltb byte 0xc0

unfoldable pub is_char_boundary : List ℕ → ℕ → Bool
is_char_boundary s i = elim (get_elem? s i) [
  | none ↦ i == length s
  | some byte ↦ i == 0 || not (continues byte)
]

-- `while !s.is_char_boundary(i) { i -= 1 }`; 0 is a boundary.
unfoldable pub boundary_below : List ℕ → ℕ → ℕ
boundary_below s zero = zero
boundary_below s (suc i) =
    let rest = boundary_below s i in if is_char_boundary s (suc i) then suc i else rest

-- `while !s.is_char_boundary(i) { i += 1 }`, with `fuel` places left before the end.
unfoldable pub boundary_above : List ℕ → ℕ → ℕ → ℕ
boundary_above s zero i = i
boundary_above s (suc fuel) i =
    let rest = boundary_above s fuel (suc i) in if is_char_boundary s i then i else rest

abbrev pub head_target : ℕ → ℕ
head_target max_chars = max_chars * 7 / 10

unfoldable pub head_end : List ℕ → ℕ → ℕ
head_end s max_chars = boundary_below s (min (head_target max_chars) (length s))

unfoldable pub tail_start : List ℕ → ℕ → ℕ
tail_start s max_chars =
    let start : ℕ = length s - (max_chars - head_target max_chars) in
    boundary_above s (length s - start) start

module _ (texts : Texts) where
  open texts use {render, print, as_bytes, from_bytes}

  unfoldable pub truncate_middle : String → ℕ → String
  truncate_middle s max_chars =
      let bytes : List ℕ = as_bytes s in
      if leb (length bytes) max_chars
      then s
      else append_text (from_bytes (take (head_end bytes max_chars) bytes)) (
          append_text "\n…[" (
            append_text (print (tail_start bytes max_chars - head_end bytes max_chars)) (
              append_text " of " (
                append_text (print (length bytes)) (
                  append_text
                    " chars elided by the harness — full output is in the event log; re-run the tool with narrower arguments if you need the elided part]…\n"
                    (from_bytes (drop (tail_start bytes max_chars) bytes)))))))

  abbrev rendered : Value → String
  rendered (text s) = s
  rendered Value.null = render Value.null
  rendered other = render other

  unfoldable pub cap_result_value : Value → Option ℕ → Value
  cap_result_value value none = value
  cap_result_value value (some max) =
      if leb (length (as_bytes (render value))) max
      then value
      else text (truncate_middle (rendered value) max)
