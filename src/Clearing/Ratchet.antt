-- ===== src/Clearing/Ratchet.antt =====
-- src/agent/context_edit.rs: what clearing leaves as it is.
use mathlib.Core.List.{append-nil}
use eventage_rs.Prelude.{
  ℕ, zero, suc, ◌+◌, ◌-◌, ◌≤◌, ◌<◌, ◌≡◌, refl, sym, subst, ◌∙◌, ap, Bool, true, false, ◌&&◌, inl,
  inr, List, [], ◌∷◌, ◌++◌, leb, ltb, length, take, contains, contains-append, is_empty, All, arith,
  Bool-cases, if◌then◌else◌,
}
use eventage_rs.Event.{Event}
use eventage_rs.Message.{tool, is_role, ChatMessage}
use eventage_rs.Truncate.{Texts}
use eventage_rs.Clearing.{
  ToolResultClearingAssembler, Candidate, insert_candidate, sort_candidates, pick, already_cleared,
  clear_content, apply_clearing, candidates, tool_results, select_for_clearing, clear_more,
  assemble,
}

-- A message of which at most the content is replaced, and that only if it is the tool result with
-- an ordinal of the set.
abbrev pub Touched : List ℕ → ℕ → ChatMessage → ChatMessage → Type 0
Touched cleared i m n =
    (record n { content = m.content } ≡ m)
    × ((is_role m.role tool && contains cleared i) ≡ false → n ≡ m)

abbrev pub next : ℕ → ChatMessage → ℕ
next i m = if is_role m.role tool then suc i else i

-- Two lists of messages that differ in nothing else, with tool results numbered from `i`.
abbrev pub OnlyCleared : List ℕ → ℕ → List ChatMessage → List ChatMessage → Type 0
OnlyCleared cleared i [] [] = Unit
OnlyCleared cleared i [] (n ∷ ns) = ⊥
OnlyCleared cleared i (m ∷ ms) [] = ⊥
OnlyCleared cleared i (m ∷ ms) (n ∷ ns) =
    Touched cleared i m n × OnlyCleared cleared (next i m) ms ns

true-false : true ≡ false → ⊥
true-false e = cc

Touched-role :
    (cleared : List ℕ) (i : ℕ) (m n : ChatMessage) → Touched cleared i m n → n.role ≡ m.role
Touched-role cleared i m n h = ap (λ (x : ChatMessage). x.role) h.0

Touched-trans :
    (cleared more : List ℕ) (i : ℕ) (m n o : ChatMessage)
    → Touched cleared i m n
    → Touched (cleared ++ more) i n o
    → Touched (cleared ++ more) i m o
Touched-trans cleared more i m n o (h, h') (k, k') = (
  ap (λ (x : ChatMessage). record x { content = m.content }) k ∙ h,
  λ e.
      let same : n ≡ m = h' (ground (arith, e, contains-append cleared more i)) in
      k' (ap (λ (x : ChatMessage). is_role x.role tool && contains (cleared ++ more) i) same ∙ e)
      ∙ same,
)

OnlyCleared-trans :
    (cleared more : List ℕ) (i : ℕ) (ms ns os : List ChatMessage)
    → OnlyCleared cleared i ms ns
    → OnlyCleared (cleared ++ more) i ns os
    → OnlyCleared (cleared ++ more) i ms os
OnlyCleared-trans cleared more i [] [] [] h k = tt
OnlyCleared-trans cleared more i [] [] (o ∷ os) h k = k
OnlyCleared-trans cleared more i [] (n ∷ ns) os h k = absurd h
OnlyCleared-trans cleared more i (m ∷ ms) [] os h k = absurd h
OnlyCleared-trans cleared more i (m ∷ ms) (n ∷ ns) [] h k = k
OnlyCleared-trans cleared more i (m ∷ ms) (n ∷ ns) (o ∷ os) (h, hs) (k, ks) = (
  Touched-trans cleared more i m n o h k,
  OnlyCleared-trans cleared more (next i m) ms ns os hs (
      subst (λ r. OnlyCleared (cleared ++ more) (if is_role r tool then suc i else i) ns os)
        (Touched-role cleared i m n h) ks),
)

same_count :
    (n m : ChatMessage) (ns ms : List ChatMessage)
    → n.role ≡ m.role
    → length (tool_results ns) ≡ length (tool_results ms)
    → length (tool_results (n ∷ ns)) ≡ length (tool_results (m ∷ ms))
same_count n m ns ms e h = elim (Bool-cases (is_role m.role tool)) [
  | inl result ↦ rw (ap (λ r. is_role r tool) e) (rw result (ap suc h))
  | inr other ↦ rw (ap (λ r. is_role r tool) e) (rw other h)
]

-- As many tool results as before.
results-OnlyCleared :
    (cleared : List ℕ) (i : ℕ) (ms ns : List ChatMessage)
    → OnlyCleared cleared i ms ns
    → length (tool_results ns) ≡ length (tool_results ms)
results-OnlyCleared cleared i [] [] h = refl
results-OnlyCleared cleared i [] (n ∷ ns) h = absurd h
results-OnlyCleared cleared i (m ∷ ms) [] h = absurd h
results-OnlyCleared cleared i (m ∷ ms) (n ∷ ns) (h, hs) =
    same_count n m ns ms (Touched-role cleared i m n h)
      (results-OnlyCleared cleared (next i m) ms ns hs)

-- The ordinals that a selection may pick.
abbrev pub MayPick : ToolResultClearingAssembler → ℕ → ℕ → Type 0
MayPick a total i = (contains a.cleared i ≡ false) × (i < total - a.keep_recent)

All-insert_candidate :
    (P : ℕ → Type 0) (c : Candidate) (cs : List Candidate)
    → P c.ordinal
    → All (λ (d : Candidate). P d.ordinal) cs
    → All (λ (d : Candidate). P d.ordinal) (insert_candidate c cs)
All-insert_candidate P c [] h k = (h, tt)
All-insert_candidate P c (d ∷ ds) h k = elim (Bool-cases (leb d.weight c.weight)) [
  | inl lighter ↦ rw lighter (h, (k.0, k.1))
  | inr heavier ↦ rw heavier (k.0, All-insert_candidate P c ds h k.1)
]

All-sort_candidates :
    (P : ℕ → Type 0) (cs : List Candidate)
    → All (λ (d : Candidate). P d.ordinal) cs
    → All (λ (d : Candidate). P d.ordinal) (sort_candidates cs)
All-sort_candidates P [] h = tt
All-sort_candidates P (c ∷ cs) h =
    All-insert_candidate P c (sort_candidates cs) h.0 (All-sort_candidates P cs h.1)

All-pick :
    (P : ℕ → Type 0) (need reclaimed : ℕ) (cs : List Candidate)
    → All (λ (d : Candidate). P d.ordinal) cs
    → All P (pick need reclaimed cs)
All-pick P need reclaimed [] h = tt
All-pick P need reclaimed (c ∷ cs) h = elim (Bool-cases (leb need reclaimed)) [
  | inl enough ↦ rw enough tt
  | inr more ↦ rw more (h.0, All-pick P need (reclaimed + c.tokens) cs h.1)
]

if_cons {ℓ κ} :
    {A : Type ℓ} (P : A → Type κ) (b : Bool) (x : A) (xs : List A)
    → P x
    → All P xs
    → All P (if b then x ∷ xs else xs)
if_cons P true x xs h k = (h, k)
if_cons P false x xs h k = k

length-take {ℓ} : {A : Type ℓ} (n : ℕ) (xs : List A) → length (take n xs) ≤ n
length-take zero xs = omega arith
length-take (suc n) [] = omega arith
length-take (suc n) (x ∷ xs) = omega (arith, length-take n xs)

module _ (texts : Texts) (count : List Event → List ChatMessage → ℕ) (weigh : ℕ → ℕ → ℕ → ℕ) where
  candidates-MayPick :
      (a : ToolResultClearingAssembler) (events : List Event) (total i bound : ℕ)
      (results : List ChatMessage)
      → i + length results ≤ bound
      → All
          (λ (d : Candidate). (contains a.cleared d.ordinal ≡ false) × (d.ordinal < bound))
          (candidates texts count weigh a events total i results)
  unfolding candidates
  candidates-MayPick a events total i bound [] h = tt
  candidates-MayPick a events total i bound (m ∷ results) h =
      let rest : All
          (λ (d : Candidate). (contains a.cleared d.ordinal ≡ false) × (d.ordinal < bound))
          (candidates texts count weigh a events total (suc i) results) =
        candidates-MayPick a events total (suc i) bound results (omega arith) in
      elim (Bool-cases (contains a.cleared i)) [
        | inl old ↦ rw old rest
        | inr new ↦ rw new (if_cons _ _ _ _ (new, omega arith) rest)
      ]

  pub select-MayPick :
      (a : ToolResultClearingAssembler) (events : List Event) (messages : List ChatMessage)
      (need : ℕ)
      → All
          (MayPick a (length (tool_results messages)))
          (select_for_clearing texts count weigh a events messages need)
  unfolding select_for_clearing
  select-MayPick a events messages need =
      All-pick (MayPick a (length (tool_results messages))) need 0 _ (
        All-sort_candidates (MayPick a (length (tool_results messages)))
          (candidates texts count weigh a events (length (tool_results messages)) 0
            (take (length (tool_results messages) - a.keep_recent) (tool_results messages)))
          (candidates-MayPick a events (length (tool_results messages)) 0
            (length (tool_results messages) - a.keep_recent)
            (take (length (tool_results messages) - a.keep_recent) (tool_results messages))
            (omega (
              arith,
              length-take (length (tool_results messages) - a.keep_recent) (tool_results messages),
            ))))

  clear_content-same :
      (m : ChatMessage) → record (clear_content texts count weigh m) { content = m.content } ≡ m
  unfolding clear_content
  clear_content-same m = elim (Bool-cases (already_cleared texts count weigh m.content)) [
    | inl before ↦ rw (before, clear_content) refl
    | inr now ↦ rw (now, clear_content) refl
  ]

  clear-Touched :
      (cleared : List ℕ) (i : ℕ) (m : ChatMessage) (b : Bool)
      → (is_role m.role tool && contains cleared i) ≡ b
      → Touched cleared i m (if b then clear_content texts count weigh m else m)
  clear-Touched cleared i m true e = (clear_content-same m, λ f. absurd (true-false (sym e ∙ f)))
  clear-Touched cleared i m false e = (refl, λ f. refl)

  apply_clearing-OnlyCleared :
      (cleared : List ℕ) (i : ℕ) (ms : List ChatMessage)
      → OnlyCleared cleared i ms (apply_clearing texts count weigh cleared i ms)
  unfolding apply_clearing
  apply_clearing-OnlyCleared cleared i [] = tt
  apply_clearing-OnlyCleared cleared i (m ∷ ms) = (
    clear-Touched cleared i m (is_role m.role tool && contains cleared i) refl,
    apply_clearing-OnlyCleared cleared (next i m) ms,
  )

  -- What an assembly promises of the messages of its inner assembler.
  abbrev pub Kept :
      ToolResultClearingAssembler
      → List ChatMessage
      → List ChatMessage × ToolResultClearingAssembler
      → Type 0
  Kept a inner r =
      OnlyCleared (r.1).cleared 0 inner (r.0)
      × ((picked : List ℕ) × ((r.1).cleared ≡ a.cleared ++ picked)
          × All (MayPick a (length (tool_results inner))) picked)

  pick_or_not :
      (a : ToolResultClearingAssembler) (inner messages : List ChatMessage) (picked : List ℕ)
      → OnlyCleared a.cleared 0 inner messages
      → All (MayPick a (length (tool_results inner))) picked
      → Kept a inner (
          if is_empty picked then (messages, a) else (
            apply_clearing texts count weigh (a.cleared ++ picked) 0 messages,
            record a { cleared = a.cleared ++ picked },
          ))
  pick_or_not a inner messages [] h k = (h, ([], sym (append-nil a.cleared), tt))
  pick_or_not a inner messages (i ∷ picked) h k = (
    OnlyCleared-trans a.cleared (i ∷ picked) 0 inner messages _ h
        (apply_clearing-OnlyCleared (a.cleared ++ i ∷ picked) 0 messages),
    (i ∷ picked, refl, k),
  )

  clear_more-Kept :
      (a : ToolResultClearingAssembler) (events : List Event) (inner : List ChatMessage)
      → Kept a inner (
          clear_more texts count weigh a events
            (apply_clearing texts count weigh a.cleared 0 inner))
  unfolding clear_more
  clear_more-Kept a events inner =
      pick_or_not a inner messages picked (apply_clearing-OnlyCleared a.cleared 0 inner) (
        subst (λ n. All (MayPick a n) picked)
          (results-OnlyCleared a.cleared 0 inner messages
            (apply_clearing-OnlyCleared a.cleared 0 inner))
          (select-MayPick a events messages (count events messages - a.low_water)))
    where
      messages : List ChatMessage
      messages = apply_clearing texts count weigh a.cleared 0 inner

      picked : List ℕ
      picked =
          select_for_clearing texts count weigh a events messages
            (count events messages - a.low_water)

  -- Whatever the log, the counts and the weights: an assembly replaces at most the contents of tool
  -- results, and only of those whose ordinals are in its set; the set only grows, by ordinals that
  -- were not in it and that lie before the newest `keep_recent` results.
  pub assemble-Kept :
      (a : ToolResultClearingAssembler) (events : List Event) (inner : List ChatMessage)
      → OnlyCleared
          (assemble texts count weigh a events inner).1.cleared
          0
          inner
          (assemble texts count weigh a events inner).0
        × ((picked : List ℕ) × ((assemble texts count weigh a events inner).1.cleared
              ≡ a.cleared ++ picked)
            × All (MayPick a (length (tool_results inner))) picked)
  unfolding assemble
  assemble-Kept a events inner =
      elim (Bool-cases (
        ltb a.trigger_tokens (count events (apply_clearing texts count weigh a.cleared 0 inner)))) [
          | inl over ↦ rw (over, assemble) (clear_more-Kept a events inner)
          | inr under ↦
              rw (under, assemble)
                (apply_clearing-OnlyCleared a.cleared 0 inner, ([], sym (append-nil a.cleared), tt))
        ]
