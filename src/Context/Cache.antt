-- ===== src/Context/Cache.antt =====
-- src/agent/context.rs, `build_with_cache`: the cached messages against those of the whole log.
use mathlib.Core.List.{append_assoc, append-nil}
use eventage_rs.Prelude.{
  ◌≡◌, refl, ap, ap₂, sym, subst, ◌∙◌, String, Bool, true, false, ◌&&◌, ◌==◌, inl, inr, Option,
  none, some, List, [], ◌∷◌, ◌++◌, map, filter_map-append, last, length, length-append, drop,
  get_elem?, contains, Distinct, leb, ltb, All, arith, Option-cases,
}
use eventage_rs.Json.{Value}
use eventage_rs.Event.{Event, EventId}
use eventage_rs.Message.{ContentPart, ToolCall, ChatMessage}
use eventage_rs.Context.{
  has_text, answered_by, answered_ids, calls_of, synthetic, inject, repair_tool_results,
  events_to_messages_raw, events_to_messages, MessageCache, build_with_cache, id_at, is_id,
  extended, messages_of,
}
use eventage_rs.Context.Repair.{
  call_ids, called_ids, has_text-append, repair-inject, inject_same, All-append_front,
  All-append_right,
}

-- Every call of a history is answered in it.
abbrev pub Settled : List ChatMessage → Type 0
Settled ms = All (λ i. has_text (answered_ids ms) i ≡ true) (called_ids ms)

-- No call of a history has one of these answers.
abbrev pub NewCalls : List String → List ChatMessage → Type 0
NewCalls answers ms = All (λ i. has_text answers i ≡ false) (called_ids ms)

synthetic-append :
    (before after : List String) (calls : List ToolCall)
    → All (λ i. has_text before i ≡ false) (call_ids calls)
    → synthetic (before ++ after) calls ≡ synthetic after calls
unfolding synthetic
synthetic-append before after [] h = refl
synthetic-append before after (tc ∷ calls) h =
    rw (has_text-append before after tc.id)
      (rw (h.0) (rw (synthetic-append before after calls h.1) refl))

inject-answers :
    (before after : List String) (ms : List ChatMessage)
    → NewCalls before ms
    → inject (before ++ after) ms ≡ inject after ms
unfolding inject
inject-answers before after [] h = refl
inject-answers before after (m ∷ ms) h = ap (◌∷◌ m) (
    ap₂ ◌++◌
      (synthetic-append before after (calls_of m)
        (All-append_front _ (call_ids (calls_of m)) (called_ids ms) h))
      (inject-answers before after ms
        (All-append_right _ (call_ids (calls_of m)) (called_ids ms) h)))

inject-append :
    (ids : List String) (xs ys : List ChatMessage)
    → inject ids (xs ++ ys) ≡ inject ids xs ++ inject ids ys
unfolding inject
inject-append ids [] ys = refl
inject-append ids (m ∷ xs) ys = ap (◌∷◌ m) (
    ap (◌++◌ (synthetic ids (calls_of m))) (inject-append ids xs ys)
    ∙ sym (append_assoc (synthetic ids (calls_of m)) (inject ids xs) (inject ids ys)))

has_more :
    (before after is : List String)
    → All (λ i. has_text before i ≡ true) is
    → All (λ i. has_text (before ++ after) i ≡ true) is
has_more before after [] h = tt
has_more before after (i ∷ is) h =
    (rw (has_text-append before after i) (rw (h.0) refl), has_more before after is h.1)

-- A settled history and one whose calls are new are repaired independently.
repair-append :
    (xs ys : List ChatMessage)
    → Settled xs
    → NewCalls (answered_ids xs) ys
    → repair_tool_results (xs ++ ys) ≡ repair_tool_results xs ++ repair_tool_results ys
repair-append xs ys s n =
    repair-inject (xs ++ ys)
    ∙ ap (λ ids. inject ids (xs ++ ys)) (filter_map-append answered_by xs ys)
    ∙ inject-append (answered_ids xs ++ answered_ids ys) xs ys
    ∙ ap₂ ◌++◌
        (inject_same (answered_ids xs ++ answered_ids ys) xs
            (has_more (answered_ids xs) (answered_ids ys) (called_ids xs) s)
          ∙ sym (repair-inject xs ∙ inject_same (answered_ids xs) xs s))
        (inject-answers (answered_ids xs) (answered_ids ys) ys n ∙ sym (repair-inject ys))

last-append_cons {ℓ} :
    {A : Type ℓ} (xs : List A) (y : A) (ys : List A) → last (xs ++ y ∷ ys) ≡ last (y ∷ ys)
last-append_cons [] y ys = refl
last-append_cons (x ∷ []) y ys = refl
last-append_cons (x ∷ z ∷ xs) y ys = last-append_cons (z ∷ xs) y ys

get_elem?-last {ℓ} :
    {A : Type ℓ} (x : A) (xs ys : List A) → get_elem? ((x ∷ xs) ++ ys) (length xs) ≡ last (x ∷ xs)
get_elem?-last x [] ys = refl
get_elem?-last x (y ∷ xs) ys = get_elem?-last y xs ys

drop-length {ℓ} : {A : Type ℓ} (xs ys : List A) → drop (length xs) (xs ++ ys) ≡ ys
drop-length [] ys = refl
drop-length (x ∷ xs) ys = drop-length xs ys

abbrev pub ids_of : List Event → List EventId
ids_of es = map (λ (e : Event). e.id) es

contains-last :
    (e : Event) (es : List Event) (a : Event)
    → last (e ∷ es) ≡ some a
    → contains (ids_of (e ∷ es)) a.id ≡ true
contains-last e [] a h = let q : e ≡ a = cc in ground (arith, ap (λ (x : Event). x.id) q)
contains-last e (f ∷ es) a h = ground (arith, contains-last f es a h)

none-some {ℓ} : {A : Type ℓ} (a : A) → none ≡ some a → ⊥
none-some a e = cc

last-cons {ℓ} : {A : Type ℓ} (x : A) (xs : List A) → last (x ∷ xs) ≡ none → ⊥
last-cons x [] e = cc
last-cons x (y ∷ xs) e = last-cons y xs e

-- The ends of two parts of a log with distinct ids have distinct ids.
Distinct-ends :
    (x : Event) (xs : List Event) (y : Event) (ys : List Event) (a b : Event)
    → Distinct (ids_of ((x ∷ xs) ++ y ∷ ys))
    → last (x ∷ xs) ≡ some a
    → last (y ∷ ys) ≡ some b
    → (a.id == b.id) ≡ false
Distinct-ends x [] y ys a b d h k =
    let q : x ≡ a = cc in ground (arith, d.0, contains-last y ys b k, ap (λ (e : Event). e.id) q)
Distinct-ends x (z ∷ xs) y ys a b d h k = Distinct-ends z xs y ys a b d.1 h k

module _ (parse_parts : Value → Option (List ContentPart)) (render : Value → String) where
  events_to_messages_raw-append :
      (xs ys : List Event)
      → events_to_messages_raw parse_parts render (xs ++ ys)
        ≡ events_to_messages_raw parse_parts render xs
          ++ events_to_messages_raw parse_parts render ys
  unfolding events_to_messages_raw
  events_to_messages_raw-append [] ys = refl
  events_to_messages_raw-append (x ∷ xs) ys =
      ap (◌++◌ (messages_of parse_parts render x)) (events_to_messages_raw-append xs ys)
      ∙ sym (append_assoc (messages_of parse_parts render x) _ _)

  -- The cache holds the messages of a log.
  pub record IsCacheOf (log : List Event) (c : MessageCache parse_parts render) : Type 0 where
    pub counted : c.event_count ≡ length log
    pub newest : Event
    pub ends : last log ≡ some newest
    pub marked : c.last_event_id ≡ newest.id
    pub holds : c.messages ≡ events_to_messages parse_parts render log

  -- A result of the cached build holds the messages of a log, and its cache.
  abbrev Serves : List Event → List ChatMessage × Option (MessageCache parse_parts render) → Type 0
  Serves log r =
      (r.0 ≡ events_to_messages parse_parts render log)
      × ((c' : MessageCache parse_parts render) × (r.1 ≡ some c') × IsCacheOf log c')

  abbrev guard : MessageCache parse_parts render → List Event → Bool
  guard c log =
      ltb 0 c.event_count
      && (leb c.event_count (length log)
          && is_id parse_parts render (id_at parse_parts render log c.event_count) c.last_event_id)

  build_same :
      (c : MessageCache parse_parts render) (log : List Event) (e : Event)
      → last log ≡ some e
      → (c.last_event_id == e.id) ≡ true
      → build_with_cache parse_parts render (some c) log ≡ (c.messages, some c)
  unfolding build_with_cache
  build_same c log e h t = rw (h, build_with_cache) (rw t refl)

  build_extended :
      (c : MessageCache parse_parts render) (log : List Event) (e : Event)
      → last log ≡ some e
      → (c.last_event_id == e.id) ≡ false
      → guard c log ≡ true
      → build_with_cache parse_parts render (some c) log ≡ extended parse_parts render c log e.id
  unfolding build_with_cache
  build_extended c log e h t g = rw (h, build_with_cache) (rw t (rw g refl))

  same-Serves :
      (c : MessageCache parse_parts render) (log : List Event)
      → IsCacheOf log c
      → Serves log (build_with_cache parse_parts render (some c) log)
  same-Serves c log v =
      rw (build_same c log v.newest v.ends (ground (arith, v.marked))) (v.holds, (c, refl, v))

  guard_holds :
      (c : MessageCache parse_parts render) (x : Event) (xs more : List Event)
      → IsCacheOf (x ∷ xs) c
      → guard c ((x ∷ xs) ++ more) ≡ true
  guard_holds c x xs more v =
      subst
        (λ k.
          (ltb 0 k
            && (leb k (length ((x ∷ xs) ++ more))
                && is_id parse_parts render (id_at parse_parts render ((x ∷ xs) ++ more) k)
                    c.last_event_id))
          ≡ true)
        (sym v.counted)
        (rw (get_elem?-last x xs more ∙ v.ends)
          (ground (arith, v.marked, length-append (x ∷ xs) more)))

  grown-Serves :
      (c : MessageCache parse_parts render) (old : List Event) (more : List Event) (e : Event)
      → IsCacheOf old c
      → Settled (events_to_messages_raw parse_parts render old)
      → NewCalls
          (answered_ids (events_to_messages_raw parse_parts render old))
          (events_to_messages_raw parse_parts render more)
      → last (old ++ more) ≡ some e
      → Serves (old ++ more) (extended parse_parts render c (old ++ more) e.id)
  unfolding events_to_messages
  grown-Serves c old more e v s n h =
      let rest : drop c.event_count (old ++ more) ≡ more =
        ap (λ k. drop k (old ++ more)) v.counted ∙ drop-length old more in
      let whole : c.messages
            ++ events_to_messages parse_parts render (drop c.event_count (old ++ more))
          ≡ events_to_messages parse_parts render (old ++ more) =
        ap₂ ◌++◌ v.holds (ap (events_to_messages parse_parts render) rest)
        ∙ sym (
            ap repair_tool_results (events_to_messages_raw-append old more)
            ∙ repair-append _ _ s n) in
      (
        whole,
        (_, refl, record { counted = refl; newest = e; ends = h; marked = refl; holds = whole }),
      )

  -- The cache of a log, asked for the log with more events at its end: if every call of the old
  -- log is answered in it, the new events call no id that the old log answers, and all event ids are
  -- distinct, then the messages are those of the whole log computed afresh, and so is the new cache.
  pub build_with_cache-whole :
      (c : MessageCache parse_parts render) (old more : List Event)
      → IsCacheOf old c
      → Settled (events_to_messages_raw parse_parts render old)
      → NewCalls
          (answered_ids (events_to_messages_raw parse_parts render old))
          (events_to_messages_raw parse_parts render more)
      → Distinct (ids_of (old ++ more))
      → ((build_with_cache parse_parts render (some c) (old ++ more)).0
          ≡ events_to_messages parse_parts render (old ++ more))
        × ((c' : MessageCache parse_parts render) × ((build_with_cache parse_parts render
                (some c)
                (old ++ more)).1
              ≡ some c')
            × IsCacheOf (old ++ more) c')
  build_with_cache-whole c [] more v s n d = absurd (none-some _ v.ends)
  build_with_cache-whole c (x ∷ xs) [] v s n d =
      subst (λ l. Serves l (build_with_cache parse_parts render (some c) l))
        (sym (append-nil (x ∷ xs))) (same-Serves c (x ∷ xs) v)
  build_with_cache-whole c (x ∷ xs) (y ∷ ys) v s n d = elim (Option-cases (last (y ∷ ys))) [
    | inl nothing ↦ absurd (last-cons y ys nothing)
    | inr (e, ends) ↦
        let end : last ((x ∷ xs) ++ y ∷ ys) ≡ some e = last-append_cons (x ∷ xs) y ys ∙ ends in
        rw
          (build_extended c ((x ∷ xs) ++ y ∷ ys) e end
            (ground (arith, v.marked, Distinct-ends x xs y ys v.newest e d v.ends ends))
            (guard_holds c x xs (y ∷ ys) v))
          (grown-Serves c (x ∷ xs) (y ∷ ys) e v s n end)
  ]
