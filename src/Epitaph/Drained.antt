-- ===== src/Epitaph/Drained.antt =====
-- src/eviction.rs: no accepted branch is forgotten.
use eventage_rs.Prelude.{
  ℕ, ◌≡◌, ◌<◌, ◌==◌, refl, sym, ◌∙◌, ap, subst, String, some, List, [], ◌∷◌, ◌++◌, length, insert,
  lookup, lookup-insert, inl, inr, ◌⊎◌, Option-cases, Bool-cases, arith,
}
use eventage_rs.Json.{Value}
use eventage_rs.Event.{EventId}
use eventage_rs.Runtime.{Runtime}
use eventage_rs.Store.{BranchId, BranchData}
use eventage_rs.Bus.{Bus}
use eventage_rs.Strategy.React.{AgentError, LlmProvider}
use eventage_rs.Epitaph.{
  EpitaphQueue, EpitaphStrategy, epitaph_queue_depth, new, publish_to, on_evict, publish_epitaph,
  bury, epitaph_task, Happening, evicts, attaches, rounds, happen, run, drain,
}

abbrev pub HasEpitaph : BranchId → List (BranchId × String) → Type 0
HasEpitaph i store = (epitaph : String) × (lookup i store ≡ some epitaph)

abbrev Waits : BranchId → List BranchData → Type 0
Waits i [] = ⊥
Waits i (b ∷ bs) = (b.id ≡ i) ⊎ Waits i bs

HasEpitaph-insert :
    (i j : BranchId) (t : String) (store : List (BranchId × String))
    → HasEpitaph i store
    → HasEpitaph i (insert j t store)
HasEpitaph-insert i j t store (e, h) = elim (Bool-cases (j == i)) [
  | inl same ↦ (t, lookup-insert j i t store ∙ rw same refl)
  | inr other ↦ (e, lookup-insert j i t store ∙ rw other h)
]

HasEpitaph-inserted :
    (i j : BranchId) (t : String) (store : List (BranchId × String))
    → j ≡ i
    → HasEpitaph i (insert j t store)
HasEpitaph-inserted i j t store e = (t, ground (arith, lookup-insert j i t store, e))

Waits-append :
    (i : BranchId) (bs : List BranchData) (b : BranchData) → Waits i bs → Waits i (bs ++ b ∷ [])
Waits-append i [] b w = absurd w
Waits-append i (c ∷ bs) b (inl e) = inl e
Waits-append i (c ∷ bs) b (inr w) = inr (Waits-append i bs b w)

Waits-last : (bs : List BranchData) (b : BranchData) → Waits b.id (bs ++ b ∷ [])
Waits-last [] b = inl refl
Waits-last (c ∷ bs) b = inr (Waits-last bs b)

module _ (rt : Runtime) (eq : EpitaphQueue) (H : Type 0) (draw : ℕ → EventId) (now : ℕ)
    (render : Value → String) (trim : String → String) (error_text : AgentError → String)
    (llm : LlmProvider H) where
  open eq use {
    waiting, capacity, try_send, recv, channel_empty, channel_capacity, try_send_room,
    try_send_some, recv_none, recv_some,
  }

  abbrev Strategy : Type 0
  Strategy = EpitaphStrategy rt eq H draw now render trim error_text llm

  abbrev Owed : BranchId → Strategy → Type 0
  Owed i s = HasEpitaph i s.store ⊎ Waits i (waiting s.queue)

  -- What a step leaves: the room of the queue, and every epitaph and waiting branch.
  abbrev Keeps : Strategy → Strategy → Type 0
  Keeps s s' = (capacity s'.queue ≡ capacity s.queue) × ((i : BranchId) → Owed i s → Owed i s')

  publish-queue :
      (b : BranchData) (t : String) (s : Strategy)
      → (publish_epitaph rt eq H draw now render trim error_text llm b t s).queue ≡ s.queue
  publish-queue b t s = elim (Option-cases s.bus) [ inl h ↦ rw h refl | inr (bus, h) ↦ rw h refl ]

  publish-store :
      (b : BranchData) (t : String) (s : Strategy)
      → (publish_epitaph rt eq H draw now render trim error_text llm b t s).store ≡ s.store
  publish-store b t s = elim (Option-cases s.bus) [ inl h ↦ rw h refl | inr (bus, h) ↦ rw h refl ]

  bury-queue :
      (b : BranchData) (s : Strategy)
      → (bury rt eq H draw now render trim error_text llm b s).queue ≡ s.queue
  unfolding bury
  bury-queue b s = publish-queue b _ _

  bury-store :
      (b : BranchData) (s : Strategy)
      → (t : String) × ((bury rt eq H draw now render trim error_text llm b s).store
          ≡ insert b.id t s.store)
  unfolding bury
  bury-store b s = (_, ap (insert b.id _) (publish-store b _ _))

  Keeps-refl : (s : Strategy) → Keeps s s
  Keeps-refl s = (refl, λ i o. o)

  Keeps-on_evict :
      (b : BranchData) (s : Strategy)
      → Keeps s (on_evict rt eq H draw now render trim error_text llm b s)
  unfolding on_evict
  Keeps-on_evict b s = elim (Option-cases (try_send s.queue b)) [
    | inl full ↦ rw (full, on_evict) (Keeps-refl s)
    | inr (q, sent) ↦ rw (sent, on_evict) (sent_keeps q sent)
  ]
    where
      sent_keeps : (q : eq.Queue) → try_send s.queue b ≡ some q → Keeps s (record s { queue = q })
      sent_keeps q sent = (
        (try_send_some s.queue q b sent).1,
        λ i o. elim o [
          | inl has ↦ inl has
          | inr waits ↦ inr (
              subst (Waits i) (sym (try_send_some s.queue q b sent).0)
                (Waits-append i (waiting s.queue) b waits))
        ],
      )

  Keeps-publish_to :
      (b : Bus rt) (s : Strategy)
      → Keeps s (publish_to rt eq H draw now render trim error_text llm b s)
  unfolding publish_to
  Keeps-publish_to b s = elim (Option-cases s.bus) [
    | inl h ↦ rw h (Keeps-refl s)
    | inr (first, h) ↦ rw h (Keeps-refl s)
  ]

  -- The first waiting branch, if there is one, is taken and gets an epitaph.
  round_of :
      (b : BranchData) (q : eq.Queue) (s : Strategy)
      → recv s.queue ≡ some (b, q)
      → (epitaph_task rt eq H draw now render trim error_text llm s
          ≡ bury rt eq H draw now render trim error_text llm b (record s { queue = q }))
  unfolding epitaph_task
  round_of b q s e = rw (e, epitaph_task) refl

  bury-Owed :
      (b : BranchData) (q : eq.Queue) (s : Strategy) (i : BranchId)
      → recv s.queue ≡ some (b, q)
      → Owed i s
      → Owed i (bury rt eq H draw now render trim error_text llm b (record s { queue = q }))
  bury-Owed b q s i e o =
      let (t, stored) = bury-store b (record s { queue = q }) in
      let kept = bury-queue b (record s { queue = q }) in
      elim o [
        | inl has ↦ inl (subst (HasEpitaph i) (sym stored) (HasEpitaph-insert i b.id t s.store has))
        | inr waits ↦ elim (subst (Waits i) (recv_some s.queue q b e).0 waits) [
          | inl same ↦
              inl (subst (HasEpitaph i) (sym stored) (HasEpitaph-inserted i b.id t s.store same))
          | inr later ↦ inr (subst (λ r. Waits i (waiting r)) (sym kept) later)
        ]
      ]

  Keeps-epitaph_task :
      (s : Strategy) → Keeps s (epitaph_task rt eq H draw now render trim error_text llm s)
  unfolding epitaph_task
  Keeps-epitaph_task s = elim (Option-cases (recv s.queue)) [
    | inl idle ↦ rw (idle, epitaph_task) (Keeps-refl s)
    | inr ((b, q), e) ↦
        rw (e, epitaph_task)
          (
            ap capacity (bury-queue b (record s { queue = q })) ∙ (recv_some s.queue q b e).1,
            λ i o. bury-Owed b q s i e o,
          )
  ]

  Keeps-run :
      (hs : List (Happening rt eq H draw now render trim error_text llm)) (s : Strategy)
      → Keeps s (run rt eq H draw now render trim error_text llm hs s)
  Keeps-run [] s = Keeps-refl s
  Keeps-run (h ∷ hs) s =
      let (c, o) = Keeps-happen h s in
      let (c', o') = Keeps-run hs (happen rt eq H draw now render trim error_text llm h s) in
      (c' ∙ c, λ i w. o' i (o i w))
    where
      Keeps-happen :
          (h : Happening rt eq H draw now render trim error_text llm) (s : Strategy)
          → Keeps s (happen rt eq H draw now render trim error_text llm h s)
      Keeps-happen (evicts b) s = Keeps-on_evict b s
      Keeps-happen (attaches b) s = Keeps-publish_to b s
      Keeps-happen rounds s = Keeps-epitaph_task s

  -- As many rounds as branches wait empty the queue.
  drain-empty :
      (bs : List BranchData) (s : Strategy)
      → waiting s.queue ≡ bs
      → (waiting (drain rt eq H draw now render trim error_text llm (length bs) s).queue ≡ [])
        × ((i : BranchId)
            → Owed i s
            → HasEpitaph i (drain rt eq H draw now render trim error_text llm (length bs) s).store)
  drain-empty [] s e =
      (e, λ i o. elim o [ inl has ↦ has | inr waits ↦ absurd (subst (Waits i) e waits) ])
  drain-empty (b ∷ bs) s e =
      let (left, all) =
        drain-empty bs (epitaph_task rt eq H draw now render trim error_text llm s) next in
      (left, λ i o. all i ((Keeps-epitaph_task s).1 i o))
    where
      next : waiting (epitaph_task rt eq H draw now render trim error_text llm s).queue ≡ bs
      next = elim (Option-cases (recv s.queue)) [
        | inl idle ↦ absurd (cons-nil (sym e ∙ recv_none s.queue idle))
        | inr ((c, q), taken) ↦
            ap (λ (r : Strategy). waiting r.queue) (round_of c q s taken)
            ∙ ap waiting (bury-queue c (record s { queue = q }))
            ∙ tail_of (sym (recv_some s.queue q c taken).0 ∙ e)
      ]
        where
          cons-nil : (b ∷ bs) ≡ [] → ⊥
          cons-nil h = cc

          tail_of : {c : BranchData} {cs : List BranchData} → (c ∷ cs) ≡ (b ∷ bs) → cs ≡ bs
          tail_of h = cc

  run-append :
      (hs ks : List (Happening rt eq H draw now render trim error_text llm)) (s : Strategy)
      → run rt eq H draw now render trim error_text llm (hs ++ ks) s
        ≡ run rt eq H draw now render trim error_text llm ks
            (run rt eq H draw now render trim error_text llm hs s)
  run-append [] ks s = refl
  run-append (h ∷ hs) ks s = run-append hs ks _

  -- An accepted branch waits at once.
  on_evict-Owed :
      (b : BranchData) (s : Strategy)
      → length (waiting s.queue) < capacity s.queue
      → Owed b.id (on_evict rt eq H draw now render trim error_text llm b s)
  unfolding on_evict
  on_evict-Owed b s room =
      let (q, sent) = try_send_room s.queue b room in
      rw (sent, on_evict)
        (inr (
          subst (Waits b.id) (sym (try_send_some s.queue q b sent).0)
            (Waits-last (waiting s.queue) b)))

  -- A branch that is evicted while fewer than 256 branches wait has an epitaph once the task has
  -- made as many rounds as branches wait, and then none waits; whatever was evicted, attached or
  -- handled before and after the eviction, and whatever the provider answers.
  pub evicted-drained :
      (shared : H) (branch : BranchData)
      (earlier later : List (Happening rt eq H draw now render trim error_text llm))
      → length (
          waiting
            (run rt eq H draw now render trim error_text llm earlier
              (new rt eq H draw now render trim error_text llm shared)).queue)
        < epitaph_queue_depth
      → let s =
          run rt eq H draw now render trim error_text llm
            (earlier ++ evicts branch ∷ later)
            (new rt eq H draw now render trim error_text llm shared) in
        let s' = drain rt eq H draw now render trim error_text llm (length (waiting s.queue)) s in
        HasEpitaph branch.id s'.store × (waiting s'.queue ≡ [])
  evicted-drained shared branch earlier later room =
      let start : Strategy = new rt eq H draw now render trim error_text llm shared in
      let before : Strategy = run rt eq H draw now render trim error_text llm earlier start in
      let depth : capacity before.queue ≡ epitaph_queue_depth =
        (Keeps-run earlier start).0 ∙ channel_capacity epitaph_queue_depth in
      let owed = (Keeps-run later _).1 branch.id (
        on_evict-Owed branch before
          (subst (λ n. length (waiting before.queue) < n) (sym depth) room)) in
      let (left, all) = drain-empty _ _ refl in
      (
        all branch.id
            (subst (Owed branch.id) (sym (run-append earlier (evicts branch ∷ later) start)) owed),
        left,
      )
