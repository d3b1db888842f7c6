-- ===== src/Restore/Mirror.antt =====
-- A session's operations on a bus with an exporter subscribed (src/bus.rs), and the lemmas by which
-- the exporter's stream follows the store.
use eventage_rs.Prelude.{
  ℕ, ◌≤◌, ◌≡◌, refl, ap, ◌∙◌, Bool, true, false, List, [], ◌∷◌, ◌++◌, length, if◌then◌else◌, str_eq,
  le→leb, subst,
}
use eventage_rs.Event.{Event, EventId}
use eventage_rs.Event.Kinds
use eventage_rs.Runtime.{Runtime}
use eventage_rs.Store.{DagStore, BranchId, RejectedBranch, evict_excess_branches}
use eventage_rs.Store
use eventage_rs.Channel.{keep_delivered, SenderInner, unbounded, fan_out, try_deliver}
use eventage_rs.Bus.{
  Bus, Fresh, Result, ok, err, append, link, evict, publish, broadcast, checkpoint, rollback,
  transform,
}
use eventage_rs.Restore.{is_ephemeral, restore_event, restore_events}

-- What a session does with its bus.
pub data Op : Type 0 where
  publishes broadcasts : Event → Op
  checkpoints : EventId → ℕ → Op
  rollbacks : EventId → Fresh → Op

-- The identifiers that the operations put into the log, in order.
abbrev pub ids : List Op → List EventId
ids [] = []
ids (publishes e ∷ ops) = e.id ∷ ids ops
ids (broadcasts e ∷ ops) = ids ops
ids (checkpoints id now ∷ ops) = id ∷ ids ops
ids (rollbacks cp fresh ∷ ops) = fresh.tombstone_id ∷ ids ops

-- A published event is neither marked as ephemeral nor of a kind that the bus itself writes.
abbrev pub IsDurable : Op → Type 0
IsDurable (publishes e) = (is_ephemeral e ≡ false) × (str_eq e.kind Kinds.system_rollback ≡ false)
IsDurable (broadcasts e) = Unit
IsDurable (checkpoints id now) = Unit
IsDurable (rollbacks cp fresh) = Unit

module _ (rt : Runtime) where
  open rt use {Sender, is_open, queued, send_open}

  unfoldable pub after_rollback : Bus rt → Result (Bus rt × BranchId) → Bus rt
  after_rollback b (ok (b', branch)) = b'
  after_rollback b (err e) = b

  -- A rollback that fails leaves the bus as it was.
  unfoldable pub apply : Bus rt → Op → Bus rt
  apply b (publishes e) = publish rt b e
  apply b (broadcasts e) = broadcast rt b e
  apply b (checkpoints id now) = (checkpoint rt b id now).0
  apply b (rollbacks cp fresh) = after_rollback b (rollback rt b cp fresh)

  unfoldable pub apply_all : Bus rt → List Op → Bus rt
  apply_all b [] = b
  apply_all b (op ∷ ops) = apply_all (apply b op) ops

  restore_events-append :
      (s : DagStore) (es ds : List Event) (fallback : EventId → BranchId)
      → restore_events rt s (es ++ ds) fallback
        ≡ restore_events rt (restore_events rt s es fallback) ds fallback
  unfolding restore_events
  restore_events-append s [] ds fallback = refl
  restore_events-append s (e ∷ es) ds fallback =
      restore_events-append (restore_event rt s e (fallback e.id)) es ds fallback

  module _ (fallback : EventId → BranchId) where
    -- The exporter's channel is the only subscription, it is open, and what it was handed restores
    -- to `s`.
    abbrev pub Mirrors : List (SenderInner Sender) → DagStore → Type 0
    Mirrors subs s =
        (tx : Sender) × (subs ≡ unbounded tx ∷ [])
        × (is_open tx ≡ true)
        × (restore_events rt Store.new (queued tx) fallback ≡ s)

    -- One more event fanned out is one more round of the restore.
    fan_out-Mirrors :
        (subs : List (SenderInner Sender)) (s : DagStore) (e : Event)
        → Mirrors subs s
        → Mirrors (fan_out rt subs e) (restore_event rt s e (fallback e.id))
    unfolding fan_out restore_events try_deliver keep_delivered
    fan_out-Mirrors subs s e (tx, only, opened, same) =
        let (tx', sent_to, opened', handed) = send_open tx e opened in
        (
          tx',
          rw only (rw (sent_to, try_deliver) refl),
          opened',
          rw handed (
              restore_events-append Store.new (queued tx) (e ∷ []) fallback
              ∙ ap (λ (t : DagStore). restore_event rt t e (fallback e.id)) same),
        )

    -- An ephemeral event leaves the restored store as it was.
    pub skipped-Mirrors :
        (subs : List (SenderInner Sender)) (s : DagStore) (e : Event)
        → is_ephemeral e ≡ true
        → Mirrors subs s
        → Mirrors (fan_out rt subs e) s
    unfolding restore_event
    skipped-Mirrors subs s e skipped m =
        subst (Mirrors (fan_out rt subs e)) (rw skipped refl) (fan_out-Mirrors subs s e m)

    pub skipped_if-Mirrors :
        (c : Bool) (subs : List (SenderInner Sender)) (s : DagStore) (e : Event)
        → is_ephemeral e ≡ true
        → Mirrors subs s
        → Mirrors (if c then fan_out rt subs e else subs) s
    skipped_if-Mirrors true subs s e skipped m = skipped-Mirrors subs s e skipped m
    skipped_if-Mirrors false subs s e skipped m = m

    transform-none : (b : Bus rt) (e : Event) → b.transforms ≡ [] → transform b.transforms e ≡ e
    transform-none b e h = rw h refl

    pub publish-Mirrors :
        (b : Bus rt) (e : Event) (s : DagStore)
        → b.transforms ≡ []
        → restore_event rt s (link b.store e) (fallback e.id) ≡ append b.store e
        → Mirrors b.subs s
        → Mirrors (publish rt b e).subs (publish rt b e).store
    unfolding publish
    publish-Mirrors b e s plain round m = rw (transform-none b e plain) (
        subst (Mirrors (fan_out rt b.subs (link b.store e))) round
          (fan_out-Mirrors b.subs s (link b.store e) m))

    -- A durable event is restored as it was published.
    pub restore-append :
        (s : DagStore) (e : Event) (fb : BranchId)
        → is_ephemeral e ≡ false
        → str_eq e.kind Kinds.system_rollback ≡ false
        → restore_event rt s (link s e) fb ≡ append s e
    unfolding restore_event is_ephemeral append
    restore-append s e fb kept plain = rw (kept, plain) refl

    pub evict-store :
        (b : Bus rt)
        → length b.store.rejected_branches ≤ b.config.max_retained_branches
        → ((evict b).0.store ≡ b.store) × ((evict b).1 ≡ 0)
    unfolding evict evict_excess_branches
    evict-store b h = rw (le→leb _ _ h) (refl, refl)
