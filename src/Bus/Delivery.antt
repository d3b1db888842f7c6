-- ===== src/Bus/Delivery.antt =====
-- What a subscriber receives is what the log gains (src/bus.rs, `publish` and `fan_out`).
use eventage_rs.Prelude.{
  ℕ, zero, suc, leb→le, ◌≡◌, refl, ap, sym, ◌∙◌, Bool, true, false, List, [], ◌∷◌, ◌++◌, map,
  contains, Distinct, All, contains-append, length, drop, min, arith, inl, inr, leb, Bool-cases,
  ◌≤◌,
}
use mathlib.Core.List.{append_assoc, append-nil}
use eventage_rs.Event.{Event, EventId}
use eventage_rs.Runtime.{Runtime}
use eventage_rs.Store.{resolve}
use eventage_rs.Store.Soundness.{IsSound}
use eventage_rs.Store.Reading.{resolve-drop}
use eventage_rs.Channel.{SenderInner, unbounded, fan_out, try_deliver, keep_delivered}
use eventage_rs.Bus.{Bus, append, link, transform, publish, log, log_since}
use eventage_rs.Bus.Rollback.{log-publish}

-- The ids under which the bus stores a list of events.
abbrev pub stored_ids : List (Event → Event) → List Event → List EventId
stored_ids ts es = map (λ e. (transform ts e).id) es

module _ (rt : Runtime) where
  open rt use {Sender, is_open, queued, send_open}

  unfoldable pub publish_all : Bus rt → List Event → Bus rt
  publish_all b [] = b
  publish_all b (e ∷ es) = publish_all (publish rt b e) es

  keep_delivered-append :
      (d : Bool × SenderInner Sender) (xs ys : List (SenderInner Sender))
      → keep_delivered rt d (xs ++ ys) ≡ keep_delivered rt d xs ++ ys
  unfolding keep_delivered
  keep_delivered-append (true, tx) xs ys = refl
  keep_delivered-append (false, tx) xs ys = refl

  fan_out-append :
      (xs ys : List (SenderInner Sender)) (e : Event)
      → fan_out rt (xs ++ ys) e ≡ fan_out rt xs e ++ fan_out rt ys e
  unfolding fan_out
  fan_out-append [] ys e = refl
  fan_out-append (x ∷ xs) ys e =
      ap (keep_delivered rt (try_deliver rt x e)) (fan_out-append xs ys e)
      ∙ keep_delivered-append (try_deliver rt x e) (fan_out rt xs e) (fan_out rt ys e)

  -- The bus with other subscriptions.
  abbrev pub with_subs : Bus rt → List (SenderInner Sender) → Bus rt
  with_subs b subs = record b { subs = subs }

  -- Between the subscriptions `earlier` and `later`, which develop as if they were alone, stands the
  -- open and unbounded `tx`; of what it was handed, `got` came after `had`, and the log is `old` and
  -- `got`.
  abbrev Follows :
      Bus rt
      → List Event
      → List Event
      → List (SenderInner Sender)
      → List (SenderInner Sender)
      → Type 0
  Follows b old had earlier later =
      (tx : Sender) × (b.subs ≡ earlier ++ unbounded tx ∷ later)
      × (is_open tx ≡ true)
      × ((got : List Event) × (queued tx ≡ had ++ got) × (log b ≡ old ++ got))

  publish-Follows :
      (b : Bus rt) (e : Event) (old had : List Event) (earlier later : List (SenderInner Sender))
      → contains b.store.active_path (transform b.transforms e).id ≡ false
      → Follows b old had earlier later
      → Follows
          (publish rt b e)
          old
          had
          (publish rt (with_subs b earlier) e).subs
          (publish rt (with_subs b later) e).subs
  unfolding publish fan_out try_deliver keep_delivered
  publish-Follows b e old had earlier later new_id (tx, stands, opened, (got, held, same)) =
      let stored : Event = link b.store (transform b.transforms e) in
      let (tx', sent_to, opened', handed) = send_open tx stored opened in
      (
        tx',
        ap (λ subs. fan_out rt subs stored) stands
            ∙ fan_out-append earlier (unbounded tx ∷ later) stored
            ∙ ap (◌++◌ (fan_out rt earlier stored)) (rw (sent_to, try_deliver) refl),
        opened',
        (
          got ++ stored ∷ [],
          handed ∙ ap (λ l. l ++ stored ∷ []) held ∙ append_assoc had got (stored ∷ []),
          log-publish rt b e new_id
              ∙ ap (λ l. l ++ stored ∷ []) same
              ∙ append_assoc old got (stored ∷ []),
        ),
      )

  pub apart-snoc :
      (path : List EventId) (i : EventId) (is : List EventId)
      → contains is i ≡ false
      → All (λ j. contains path j ≡ false) is
      → All (λ j. contains (path ++ i ∷ []) j ≡ false) is
  apart-snoc path i [] new_id h = tt
  apart-snoc path i (j ∷ is) new_id h = (
    ground (arith, contains-append path (i ∷ []) j, h.0),
    apart-snoc path i is (ground arith) h.1,
  )

  publish_all-Follows :
      (b : Bus rt) (es old had : List Event) (earlier later : List (SenderInner Sender))
      → Distinct (stored_ids b.transforms es)
      → All (λ i. contains b.store.active_path i ≡ false) (stored_ids b.transforms es)
      → Follows b old had earlier later
      → Follows
          (publish_all b es)
          old
          had
          (publish_all (with_subs b earlier) es).subs
          (publish_all (with_subs b later) es).subs
  unfolding publish_all publish append
  publish_all-Follows b [] old had earlier later d apart f = f
  publish_all-Follows b (e ∷ es) old had earlier later d apart f =
      publish_all-Follows (publish rt b e) es old had _ _ d.1
        (apart-snoc b.store.active_path (transform b.transforms e).id (stored_ids b.transforms es)
          d.0 apart.1)
        (publish-Follows b e old had earlier later apart.0 f)

-- A live subscriber with an unbounded queue, wherever it stands among the subscriptions: whatever
-- the other subscribers and the transforms are, after publishing events under distinct new ids it
-- stands between what the earlier and the later subscriptions have become, each as if they were the
-- only ones, and it was handed, after what it had before, exactly what the log has gained, in the
-- same order.
pub log-publish_all :
    (rt : Runtime) (b : Bus rt) (tx : rt.Sender) (earlier later : List (SenderInner rt.Sender))
    (es : List Event)
    → b.subs ≡ earlier ++ unbounded tx ∷ later
    → rt.is_open tx ≡ true
    → Distinct (stored_ids b.transforms es)
    → All (λ i. contains b.store.active_path i ≡ false) (stored_ids b.transforms es)
    → (tx' : rt.Sender) × ((publish_all rt b es).subs
        ≡ (publish_all rt (with_subs rt b earlier) es).subs
          ++ unbounded tx' ∷ (publish_all rt (with_subs rt b later) es).subs)
      × ((got : List Event) × (rt.queued tx' ≡ rt.queued tx ++ got)
          × (log (publish_all rt b es) ≡ log b ++ got))
log-publish_all rt b tx earlier later es stands opened d apart =
    let (tx', now_stands, _, gained) =
      publish_all-Follows rt b es (log b) (rt.queued tx) earlier later d apart
        (tx, stands, opened, ([], sym (append-nil (rt.queued tx)), sym (append-nil (log b)))) in
    (tx', now_stands, gained)

pub drop-past {ℓ} : {A : Type ℓ} (n : ℕ) (xs : List A) → length xs ≤ n → drop n xs ≡ []
drop-past zero [] h = refl
drop-past zero (x ∷ xs) h = absurd (omega arith)
drop-past (suc n) [] h = refl
drop-past (suc n) (x ∷ xs) h = drop-past n xs (omega arith)

pub drop-min {ℓ} : {A : Type ℓ} (n : ℕ) (xs : List A) → drop (min n (length xs)) xs ≡ drop n xs
drop-min n xs = elim (Bool-cases (leb n (length xs))) [
  | inl within ↦
      let e : min n (length xs) ≡ n = omega (arith, leb→le n (length xs) within) in rw e refl
  | inr beyond ↦
      let past : length xs ≤ n = ground arith in
      let e : min n (length xs) ≡ length xs = omega (arith, past) in
      rw e (drop-past (length xs) xs (omega arith) ∙ sym (drop-past n xs past))
]

-- In a sound store, `log_since` is the log without its first `index` events, also past the end.
pub log_since-drop :
    (rt : Runtime) (b : Bus rt) (index : ℕ)
    → IsSound b.store
    → log_since b index ≡ drop index (log b)
unfolding log_since log
log_since-drop rt b index v =
    ap (resolve b.store.nodes) (drop-min index b.store.active_path)
    ∙ resolve-drop b.store.nodes index b.store.active_path v.path
