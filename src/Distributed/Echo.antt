-- ===== src/Distributed/Echo.antt =====
-- An event from a peer is not sent out again (src/distributed.rs, `run`).
use eventage_rs.Prelude.{
  ℕ, suc, ◌+◌, ◌<◌, ◌≡◌, refl, ap, sym, subst, Bool, false, List, [], ◌∷◌, length, contains, arith,
  inl, inr, Bool-cases,
}
use eventage_rs.Event.{Event, EventId}
use eventage_rs.Runtime.{Runtime}
use eventage_rs.Distributed.{
  DistributedBus, seen_capacity, insert, inbound, outbound, should_forward, is_foreign,
}
use eventage_rs.Distributed.Memory.{
  IsBounded, Remembers, insert-Remembers, step-Remembers, new-Remembers, relax-Remembers,
}

-- A round of one of a node's two loops: an event comes from a peer, or one comes from the node's
-- own bus, with whether the transport accepts it.
pub data Round : Type 0 where
  arrives : Event → Round
  hands_out : Event → Bool → Round

module _ (rt : Runtime) where
  unfoldable pub round : DistributedBus rt → Round → DistributedBus rt
  round n (arrives e) = inbound rt n e
  round n (hands_out e accepted) = outbound rt n e accepted

  unfoldable pub rounds : DistributedBus rt → List Round → DistributedBus rt
  rounds n [] = n
  rounds n (r ∷ rs) = rounds (round n r) rs

  inbound-seen :
      (n : DistributedBus rt) (e : Event) → (inbound rt n e).seen ≡ (insert n.seen e.id).0
  unfolding inbound
  inbound-seen n e = elim (Bool-cases (insert n.seen e.id).1) [
    | inl new ↦ rw new refl
    | inr known ↦ rw known refl
  ]

  outbound-Remembers :
      (n : DistributedBus rt) (e : Event) (accepted : Bool) (i : EventId) (k : ℕ)
      → Remembers n.seen i k
      → suc k < seen_capacity
      → Remembers (outbound rt n e accepted).seen i (suc k)
  unfolding outbound
  outbound-Remembers n e accepted i k h room =
      let kept : Remembers n.seen i (suc k) = relax-Remembers n.seen i k h in
      let stepped : Remembers (insert n.seen e.id).0 i (suc k) =
        step-Remembers n.seen i e.id k h room in
      elim (Bool-cases (should_forward rt n e)) [
        | inr local ↦ rw local kept
        | inl shared ↦ elim (Bool-cases (is_foreign rt n e)) [
          | inl foreign ↦ rw (shared, foreign) kept
          | inr own ↦ elim (Bool-cases (insert n.seen e.id).1) [
            | inl new ↦ rw (shared, own, new) stepped
            | inr known ↦ rw (shared, own, known) stepped
          ]
        ]
      ]

  round-Remembers :
      (n : DistributedBus rt) (r : Round) (i : EventId) (k : ℕ)
      → Remembers n.seen i k
      → suc k < seen_capacity
      → Remembers (round n r).seen i (suc k)
  unfolding round
  round-Remembers n (arrives e) i k h room =
      subst (λ s. Remembers s i (suc k)) (sym (inbound-seen n e))
        (step-Remembers n.seen i e.id k h room)
  round-Remembers n (hands_out e accepted) i k h room = outbound-Remembers n e accepted i k h room

  rounds-Remembers :
      (n : DistributedBus rt) (rs : List Round) (i : EventId) (k : ℕ)
      → Remembers n.seen i k
      → k + length rs < seen_capacity
      → Remembers (rounds n rs).seen i (k + length rs)
  unfolding rounds
  rounds-Remembers n [] i k h room = subst (Remembers n.seen i) (omega arith) h
  rounds-Remembers n (r ∷ rs) i k h room =
      subst (Remembers (rounds (round n r) rs).seen i) (omega arith) (
        rounds-Remembers (round n r) rs i (suc k) (round-Remembers n r i k h (omega arith))
          (omega arith))

  outbound-known :
      (n : DistributedBus rt) (e : Event) (accepted : Bool) (k : ℕ)
      → Remembers n.seen e.id k
      → (outbound rt n e accepted).sent ≡ n.sent
  unfolding outbound
  outbound-known n e accepted k h =
      let known : (insert n.seen e.id).1 ≡ false =
        ap (λ p. p.1) (insert-Remembers n.seen e.id k h) in
      elim (Bool-cases (should_forward rt n e)) [
        | inr local ↦ rw local refl
        | inl shared ↦ elim (Bool-cases (is_foreign rt n e)) [
          | inl foreign ↦ rw (shared, foreign) refl
          | inr own ↦ rw (shared, own, known) refl
        ]
      ]

  -- A node whose memory is well formed receives an event that it does not know from a peer. After
  -- any fewer than 8192 further rounds of its loops, when its own bus hands out an event with that
  -- id, nothing is sent to the peers, whether the transport would accept it or not.
  pub outbound-inbound_silent :
      (n : DistributedBus rt) (e copy : Event) (rs : List Round) (accepted : Bool)
      → IsBounded n.seen
      → contains n.seen.ids e.id ≡ false
      → length rs < seen_capacity
      → copy.id ≡ e.id
      → (outbound rt (rounds (inbound rt n e) rs) copy accepted).sent
        ≡ (rounds (inbound rt n e) rs).sent
  outbound-inbound_silent n e copy rs accepted v new few same =
      let recorded : Remembers (inbound rt n e).seen e.id 0 =
        subst (λ s. Remembers s e.id 0) (sym (inbound-seen n e))
          (new-Remembers n.seen e.id v new) in
      let later : Remembers (rounds (inbound rt n e) rs).seen e.id (length rs) =
        subst (Remembers (rounds (inbound rt n e) rs).seen e.id) (omega arith)
          (rounds-Remembers (inbound rt n e) rs e.id 0 recorded (omega arith)) in
      outbound-known (rounds (inbound rt n e) rs) copy accepted (length rs)
        (subst (λ i. Remembers (rounds (inbound rt n e) rs).seen i (length rs)) (sym same) later)
