-- ===== src/Examples/Burials.antt =====
-- A branch that is evicted and gets its epitaph, with a queue that is a list.
use eventage_rs.Prelude.{
  ℕ, ◌≡◌, ◌<◌, refl, ap, true, false, Option, none, some, List, [], ◌∷◌, ◌++◌, length, ltb, inl,
  inr, Bool-cases, arith, if◌then◌else◌,
}
use eventage_rs.Store.{BranchData}
use eventage_rs.Epitaph.{
  on_evict, epitaph_task, bury, generate_epitaph, EpitaphQueue, new, evicts, rounds, run, drain,
}
use eventage_rs.Epitaph.Drained.{HasEpitaph, evicted-drained}
use eventage_rs.Examples.{queues}
use eventage_rs.Examples.Cycles.{provider}

abbrev send_to : ℕ × List BranchData → BranchData → Option (ℕ × List BranchData)
send_to (n, bs) b = if ltb (length bs) n then some (n, bs ++ b ∷ []) else none

abbrev recv_from : ℕ × List BranchData → Option (BranchData × (ℕ × List BranchData))
recv_from (n, []) = none
recv_from (n, b ∷ bs) = some (b, (n, bs))

send_to-room :
    (q : ℕ × List BranchData) (b : BranchData)
    → length q.1 < q.0
    → (q' : ℕ × List BranchData) × (send_to q b ≡ some q')
send_to-room (n, bs) b room = ((n, bs ++ b ∷ []), ground (arith, room))

send_to-some :
    (q q' : ℕ × List BranchData) (b : BranchData)
    → send_to q b ≡ some q'
    → (q'.1 ≡ q.1 ++ b ∷ []) × (q'.0 ≡ q.0)
send_to-some (n, bs) q' b e = elim (Bool-cases (ltb (length bs) n)) [
  | inl room ↦ cut room
  | inr full ↦ absurd (nothing full)
]
  where
    cut : ltb (length bs) n ≡ true → (q'.1 ≡ bs ++ b ∷ []) × (q'.0 ≡ n)
    cut room =
        let sent : send_to (n, bs) b ≡ some (n, bs ++ b ∷ []) = rw room refl in
        let same : q' ≡ (n, bs ++ b ∷ []) = cc in
        (ap (λ (p : ℕ × List BranchData). p.1) same, ap (λ (p : ℕ × List BranchData). p.0) same)

    nothing : ltb (length bs) n ≡ false → ⊥
    nothing full = let refused : send_to (n, bs) b ≡ none = rw full refl in cc

recv_from-none : (q : ℕ × List BranchData) → recv_from q ≡ none → q.1 ≡ []
recv_from-none (n, []) e = refl
recv_from-none (n, b ∷ bs) e = cc

recv_from-some :
    (q q' : ℕ × List BranchData) (b : BranchData)
    → recv_from q ≡ some (b, q')
    → (q.1 ≡ b ∷ q'.1) × (q'.0 ≡ q.0)
recv_from-some (n, []) q' b e = absurd (cc)
recv_from-some (n, c ∷ bs) q' b e =
    let first : c ≡ b = cc in
    let rest : q' ≡ (n, bs) = cc in
    (rw (first, rest) refl, ap (λ (p : ℕ × List BranchData). p.0) rest)

abbrev listed : EpitaphQueue
listed = record {
  Queue = ℕ × List BranchData;
  channel = λ n. (n, []);
  try_send = send_to;
  recv = recv_from;
  waiting = λ q. q.1;
  capacity = λ q. q.0;
  channel_empty = λ n. refl;
  channel_capacity = λ n. refl;
  try_send_room = send_to-room;
  try_send_some = send_to-some;
  recv_none = recv_from-none;
  recv_some = recv_from-some;
}

abbrev branch : ℕ → BranchData
branch i = record { id = i; parent_event_id = none; events = [] }

evicted-drained_example :
    HasEpitaph 1
      (drain queues listed ℕ
        (λ n. n)
        0
        (λ v. "value")
        (λ s. s)
        (λ e. "error")
        provider
        2
        (run queues listed ℕ
          (λ n. n)
          0
          (λ v. "value")
          (λ s. s)
          (λ e. "error")
          provider
          (evicts (branch 0) ∷ rounds ∷ evicts (branch 1) ∷ evicts (branch 2) ∷ [])
          (new queues listed ℕ (λ n. n) 0 (λ v. "value") (λ s. s) (λ e. "error") provider 0))).store
    × ((drain queues listed ℕ
          (λ n. n)
          0
          (λ v. "value")
          (λ s. s)
          (λ e. "error")
          provider
          2
          (run queues listed ℕ
            (λ n. n)
            0
            (λ v. "value")
            (λ s. s)
            (λ e. "error")
            provider
            (evicts (branch 0) ∷ rounds ∷ evicts (branch 1) ∷ evicts (branch 2) ∷ [])
            (new queues listed ℕ
              (λ n. n)
              0
              (λ v. "value")
              (λ s. s)
              (λ e. "error")
              provider
              0))).queue.1
        ≡ [])
unfolding on_evict epitaph_task bury generate_epitaph
evicted-drained_example =
    evicted-drained queues listed ℕ (λ n. n) 0 (λ v. "value") (λ s. s) (λ e. "error") provider 0
      (branch 1) (evicts (branch 0) ∷ rounds ∷ []) (evicts (branch 2) ∷ []) (omega arith)
