-- ===== src/Scheduler/Idle.antt =====
-- When a tick stays silent (src/scheduler.rs, `run` with `skip_when_idle`).
use eventage_rs.Prelude.{
  ℕ, zero, suc, ◌+◌, ◌≤◌, ◌≡◌, refl, ap, ap₂, ◌∙◌, String, Bool, true, false, not, ◌||◌, List, [],
  ◌∷◌, ◌++◌, length, length-append, any, drop, contains, contains-drop, Distinct, All, arith,
}
use eventage_rs.Event.{Event, EventId}
use eventage_rs.Runtime.{Runtime}
use eventage_rs.Store.{resolve}
use eventage_rs.Store.Reading.{resolve-append, resolve-insert, resolve-insert_self}
use eventage_rs.Bus.{Bus, publish, append, link, transform, log_since, log_len}
use eventage_rs.Bus.Delivery.{publish_all, stored_ids, drop-min, drop-past, apart-snoc}
use eventage_rs.Scheduler.{HeartbeatScheduler, is_activity, heartbeat, is_idle, tick}

drop-append {ℓ} :
    {A : Type ℓ} → (n : ℕ) (xs ys : List A) → n ≤ length xs → drop n (xs ++ ys) ≡ drop n xs ++ ys
drop-append zero xs ys h = refl
drop-append (suc n) [] ys h = absurd (omega arith)
drop-append (suc n) (x ∷ xs) ys h = drop-append n xs ys (omega arith)

any-append {ℓ} :
    {A : Type ℓ} → (p : A → Bool) (xs ys : List A) → any p (xs ++ ys) ≡ (any p xs || any p ys)
any-append p [] ys = refl
any-append p (x ∷ xs) ys = ground (arith, any-append p xs ys)

module _ (rt : Runtime) where
  abbrev since : Bus rt → ℕ → List Event
  since b k = resolve b.store.nodes (drop k b.store.active_path)

  log_since-since : (b : Bus rt) (k : ℕ) → log_since b k ≡ since b k
  unfolding log_since
  log_since-since b k = ap (resolve b.store.nodes) (drop-min k b.store.active_path)

  since-publish :
      (b : Bus rt) (e : Event) (k : ℕ)
      → k ≤ log_len b
      → contains b.store.active_path (transform b.transforms e).id ≡ false
      → since (publish rt b e) k ≡ since b k ++ link b.store (transform b.transforms e) ∷ []
  unfolding publish append log_len
  since-publish b e k within new =
      let stored : Event = transform b.transforms e in
      rw (drop-append k b.store.active_path (stored.id ∷ []) within) (
        resolve-append _ (drop k b.store.active_path) (stored.id ∷ [])
        ∙ ap₂ ◌++◌
            (resolve-insert b.store.nodes stored.id (link b.store stored)
              (drop k b.store.active_path) (contains-drop k b.store.active_path stored.id new))
            (resolve-insert_self b.store.nodes stored.id (link b.store stored)))

  log_len-publish : (b : Bus rt) (e : Event) → log_len (publish rt b e) ≡ suc (log_len b)
  unfolding log_len publish append
  log_len-publish b e = length-append b.store.active_path _ ∙ omega arith

  activity-publish :
      (b : Bus rt) (e : Event) (k : ℕ)
      → k ≤ log_len b
      → contains b.store.active_path (transform b.transforms e).id ≡ false
      → any is_activity (since (publish rt b e) k)
        ≡ (any is_activity (since b k) || is_activity (transform b.transforms e))
  unfolding is_activity
  activity-publish b e k within new =
      ap (any is_activity) (since-publish b e k within new)
      ∙ any-append is_activity (since b k) _
      ∙ ground arith

  activity-publish_all :
      (b : Bus rt) (es : List Event) (k : ℕ)
      → k ≤ log_len b
      → Distinct (stored_ids b.transforms es)
      → All (λ i. contains b.store.active_path i ≡ false) (stored_ids b.transforms es)
      → any is_activity (since (publish_all rt b es) k)
        ≡ (any is_activity (since b k) || any (λ e. is_activity (transform b.transforms e)) es)
  unfolding publish_all publish append
  activity-publish_all b [] k within d apart = ground arith
  activity-publish_all b (e ∷ es) k within d apart =
      activity-publish_all (publish rt b e) es k (omega (arith, log_len-publish b e)) d.1 (
        apart-snoc rt b.store.active_path (transform b.transforms e).id (stored_ids b.transforms es)
          d.0 apart.1)
      ∙ ground (arith, activity-publish b e k within apart.0)

  since-past : (b : Bus rt) (k : ℕ) → log_len b ≤ k → since b k ≡ []
  unfolding log_len
  since-past b k past = ap (resolve b.store.nodes) (drop-past k b.store.active_path past)

  log_len-publish_all :
      (b : Bus rt) (es : List Event) → log_len (publish_all rt b es) ≡ log_len b + length es
  unfolding publish_all
  log_len-publish_all b [] = omega arith
  log_len-publish_all b (e ∷ es) =
      omega (arith, log_len-publish_all (publish rt b e) es, log_len-publish b e)

  -- With `skip_when_idle`: after a tick that emits a heartbeat, whatever events are published
  -- under distinct new ids, the next tick is silent exactly when none of them, as transformed, is
  -- an activity event, where the transforms do not make the heartbeat itself one. So the
  -- heartbeat and the replies that it causes do not keep the scheduler awake.
  pub tick-next_is_idle :
      (s : HeartbeatScheduler rt) (id : EventId) (now : ℕ) (timestamp : String) (es : List Event)
      → s.skip_when_idle ≡ true
      → is_idle rt s ≡ false
      → is_activity (transform s.bus.transforms (heartbeat id now timestamp)) ≡ false
      → Distinct (stored_ids s.bus.transforms (heartbeat id now timestamp ∷ es))
      → All
          (λ i. contains s.bus.store.active_path i ≡ false)
          (stored_ids s.bus.transforms (heartbeat id now timestamp ∷ es))
      → is_idle rt (record (tick rt s id now timestamp) {
        bus = publish_all rt (tick rt s id now timestamp).bus es;
      })
        ≡ not (any (λ e. is_activity (transform s.bus.transforms e)) es)
  unfolding is_idle tick publish_all log_len
  tick-next_is_idle s id now timestamp es skips wakes quiet d apart =
      let hb : Event = heartbeat id now timestamp in
      let fresh_start : since s.bus (log_len s.bus) ≡ [] =
        since-past s.bus (log_len s.bus) (omega arith) in
      let all_events = log_since-since (publish_all rt s.bus (hb ∷ es)) (log_len s.bus) in
      let seen = activity-publish_all s.bus (hb ∷ es) (log_len s.bus) (omega arith) d apart in
      let nothing : any is_activity (since s.bus (log_len s.bus)) ≡ false =
        ap (any is_activity) fresh_start in
      rw (wakes, skips) (ap not (ap (any is_activity) all_events ∙ seen ∙ rw (nothing, quiet) refl))

  -- With `skip_when_idle`: while the log is no longer than the bookmark, which happens after a
  -- rollback, a tick is silent whatever was published, activity events included.
  pub is_idle-behind_bookmark :
      (s : HeartbeatScheduler rt) (es : List Event)
      → s.skip_when_idle ≡ true
      → log_len s.bus + length es ≤ s.last_len
      → is_idle rt (record s { bus = publish_all rt s.bus es }) ≡ true
  unfolding is_idle
  is_idle-behind_bookmark s es skips behind =
      let b : Bus rt = publish_all rt s.bus es in
      let nothing : log_since b s.last_len ≡ [] =
        log_since-since b s.last_len
        ∙ since-past b s.last_len (omega (arith, log_len-publish_all s.bus es)) in
      rw (skips, nothing) refl
