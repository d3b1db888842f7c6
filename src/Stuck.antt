-- ===== src/Stuck.antt =====
-- src/agent/stuck.rs: the loop patterns that `detect_stuck` looks for in the last events.
-- `str::to_lowercase` is an argument, as the text that it gives.
pub mod Reading
pub mod Evidence
use eventage_rs.Prelude.{
  ℕ, ◌-◌, ◌==◌, ltb, leb, String, Bool, true, false, ◌&&◌, ◌||◌, Option, none, some, List, [], ◌∷◌,
  length, take, drop, filter, filter_map, all, take_while, last, and_then, is_some, is_empty,
  if◌then◌else◌, str_eq,
}
use mathlib.Core.List.{reverse}
use eventage_rs.Json.{Value, get_field, as_str, as_array}
use eventage_rs.Event.{Event}
use eventage_rs.Event.Kinds
use eventage_rs.Glob.{Text, codes, find_after}

pub data StuckKind : Type 0 where
  repeating_action repeating_error monologue context_window_loop : StuckKind

pub record StuckAnalysis : Type 0 where
  pub kind : StuckKind
  pub repeat_count : ℕ

-- The last `window` events.
unfoldable pub tail_of : List Event → ℕ → List Event
tail_of events window =
    if ltb window (length events) then drop (length events - window) events else events

abbrev pub str_field : Event → String → Option String
str_field e key = and_then (get_field e.payload key) as_str

abbrev pub is_result : Event → Bool
is_result e = str_eq e.kind Kinds.tool_result

abbrev pub result_error : Event → Option String
result_error e = if is_result e then str_field e "error" else none

abbrev pub proposal : Event → Option (String × String)
proposal e =
    if str_eq e.kind Kinds.tool_call_proposed
    then and_then (str_field e "name")
        (λ name. and_then (str_field e "arguments") (λ args. some (name, args)))
    else none

abbrev pub pair_eq : String × String → String × String → Bool
pair_eq (a, b) (c, d) = str_eq a c && str_eq b d

-- The number of elements at the end of a list that are equal to its last one.
abbrev pub run_of {ℓ} : {A : Type ℓ} → (A → A → Bool) → List A → A → ℕ
run_of eq xs x = length (take_while (λ y. eq y x) (reverse xs))

unfoldable pub trailing_run {ℓ} : {A : Type ℓ} → (A → A → Bool) → List A → ℕ
trailing_run eq xs = elim (last xs) [ none ↦ 0 | some x ↦ run_of eq xs x ]

abbrev pub silent : Event → Bool
silent e =
    str_eq e.kind Kinds.assistant_message
    && (elim (and_then (get_field e.payload "tool_calls") as_array) [
      | none ↦ true
      | some calls ↦ is_empty calls
    ])

unfoldable pub is_monologue : List Event → Bool
is_monologue tail = leb 4 (length tail) && all silent (take 4 (reverse tail))

-- A pattern that takes three entries and a run of three at the end.
unfoldable pub repeated : StuckKind → ℕ → ℕ → Option StuckAnalysis
repeated kind entries run =
    if leb 3 entries && leb 3 run then some (record { kind = kind; repeat_count = run }) else none

abbrev pub or_else : Option StuckAnalysis → Option StuckAnalysis → Option StuckAnalysis
or_else none b = b
or_else (some a) b = some a

module _ (to_lowercase : String → Text) where
  abbrev pub mentions : Text → String → Bool
  mentions lower phrase = is_some (find_after (codes phrase) lower)

  unfoldable pub is_context_error : Event → Bool
  is_context_error e = elim (result_error e) [
    | none ↦ false
    | some msg ↦
        let lower : Text = to_lowercase msg in
        mentions lower "context length"
        || (mentions lower "context window"
            || (mentions lower "token limit" || mentions lower "maximum context"))
  ]

  unfoldable pub context_loop : List Event → Option StuckAnalysis
  context_loop tail =
      let context_errors : ℕ = length (filter is_context_error tail) in
      if leb 2 context_errors
      then some (record { kind = context_window_loop; repeat_count = context_errors })
      else none

  unfoldable pub action_loop : List Event → Option StuckAnalysis
  action_loop tail =
      let proposals : List (String × String) = filter_map proposal tail in
      repeated repeating_action (length proposals) (trailing_run pair_eq proposals)

  unfoldable pub error_loop : List Event → Option StuckAnalysis
  error_loop tail =
      let errors : List String = filter_map result_error tail in
      repeated repeating_error (length errors) (trailing_run str_eq errors)

  unfoldable pub monologue_loop : List Event → Option StuckAnalysis
  monologue_loop tail =
      if is_monologue tail then some (record { kind = monologue; repeat_count = 4 }) else none

  unfoldable pub detect_stuck : List Event → ℕ → Option StuckAnalysis
  detect_stuck events window =
      let tail : List Event = tail_of events window in
      or_else (context_loop tail)
        (or_else (action_loop tail) (or_else (error_loop tail) (monologue_loop tail)))
