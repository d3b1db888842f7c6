-- ===== src/Retry/Attempts.antt =====
-- How often a provider is called, and whose result comes back.
use eventage_rs.Prelude.{
  ℕ, zero, suc, ◌+◌, ◌*◌, ◌^◌, ◌≤◌, ◌<◌, ◌≡◌, ◌⊎◌, inl, inr, refl, sym, ◌∙◌, true, false, List, [],
  ◌∷◌, ◌++◌, length, length-append, min, arith, Bool-cases, ℕ_discrete,
}
use native.Mathlib.Nat.{pow-suc}
use eventage_rs.Retry.{
  LlmError, Outcome, ok, err, is_transient, RetryProvider, backoff, backoff_base, Run, retries,
  complete_loop, complete,
}

abbrev pub IsTransient : {A : Type 0} → Outcome A → Type 0
IsTransient o = (e : LlmError) × (o ≡ err e) × (is_transient e ≡ true)

outcome-cases :
    {A : Type 0} (o : Outcome A) → ((a : A) × (o ≡ ok a)) ⊎ ((e : LlmError) × (o ≡ err e))
outcome-cases (ok a) = inl (a, refl)
outcome-cases (err e) = inr (e, refl)

ok-ne-err : {A : Type 0} {a : A} {e : LlmError} → ok a ≡ err e → ⊥
ok-ne-err q = cc

hard-not-IsTransient :
    {A : Type 0} (o : Outcome A) (e : LlmError)
    → o ≡ err e
    → is_transient e ≡ false
    → ¬ IsTransient o
hard-not-IsTransient (ok a) e q hard (d, r, soft) = ok-ne-err r
hard-not-IsTransient (err c) e q hard (d, r, soft) = ground arith

module _ {A : Type 0} (jitter : ℕ → ℕ) (p : RetryProvider) (inner : ℕ → Outcome A) where
  -- The run ended with call `k`: all calls before it, from `start` on, failed transiently.
  abbrev pub EndsAt : ℕ → Run A → ℕ → Type 0
  EndsAt start r k =
      (start ≤ k)
      × (k ≤ p.max_retries)
      × (r.result ≡ inner k)
      × (r.calls ≡ suc k)
      × (length r.sleeps ≡ k)
      × ((j : ℕ) → start ≤ j → j < k → IsTransient (inner j))
      × ((k ≡ p.max_retries) ⊎ (¬ IsTransient (inner k)))

  stop :
      (attempt : ℕ) (sleeps : List ℕ) (o : Outcome A)
      → attempt ≤ p.max_retries
      → length sleeps ≡ attempt
      → inner attempt ≡ o
      → ((attempt ≡ p.max_retries) ⊎ (¬ IsTransient (inner attempt)))
      → (k : ℕ) × EndsAt attempt (record { result = o; calls = suc attempt; sleeps = sleeps }) k
  stop attempt sleeps o within slept q why =
      (attempt, (omega arith, within, sym q, refl, slept, λ j h k. absurd (omega arith), why))

  widen :
      (attempt : ℕ) (r : Run A)
      → IsTransient (inner attempt)
      → (k : ℕ) × EndsAt (suc attempt) r k
      → (k : ℕ) × EndsAt attempt r k
  widen attempt r soft (k, (low, high, result, calls, slept, before, why)) = (
    k,
    (
      omega arith,
      high,
      result,
      calls,
      slept,
      λ j h less. elim (ℕ_discrete j attempt) [
        | yes same ↦ rw same soft
        | no other ↦ before j (omega arith) less
      ],
      why,
    ),
  )

  loop-EndsAt :
      (fuel attempt : ℕ) (sleeps : List ℕ) (last_error : LlmError)
      → attempt + fuel ≡ suc p.max_retries
      → 0 < fuel
      → length sleeps ≡ attempt
      → (k : ℕ) × EndsAt attempt (complete_loop jitter p inner fuel attempt sleeps last_error) k
  unfolding complete_loop
  loop-EndsAt zero attempt sleeps e enough some_left slept = elim some_left [ ]
  loop-EndsAt (suc fuel) attempt sleeps last_error enough some_left slept =
      elim (outcome-cases (inner attempt)) [
        | inl (a, done) ↦
            rw (done, complete_loop)
              (stop attempt sleeps (ok a) (omega arith) slept done
                (inr λ (e, q, t). ok-ne-err (sym done ∙ q)))
        | inr (e, failed) ↦ elim (Bool-cases (retries jitter p inner attempt e)) [
          | inr last_one ↦
              rw (failed, complete_loop)
                (rw last_one (
                  stop attempt sleeps (err e) (omega arith) slept failed
                    (elim (Bool-cases (is_transient e)) [
                      | inl soft ↦ inl (ground arith)
                      | inr hard ↦ inr (hard-not-IsTransient (inner attempt) e failed hard)
                    ])))
          | inl again ↦
              rw (failed, complete_loop)
                (rw again (
                  widen attempt _ (e, failed, ground arith)
                    (loop-EndsAt fuel (suc attempt) (sleeps ++ backoff jitter p attempt ∷ []) e
                      (omega arith) (ground arith)
                      (omega
                        (arith, length-append sleeps (backoff jitter p attempt ∷ []), slept)))))
        ]
      ]

  -- The loop ends for every provider. It makes between one and `max_retries + 1` calls, its result
  -- is that of its last call, every call before that failed transiently, with one sleep after each,
  -- and it ended there because the retries were used up or because the result is a success or an
  -- error that is not transient.
  pub complete-EndsAt : (k : ℕ) × EndsAt 0 (complete jitter p inner) k
  unfolding complete
  complete-EndsAt = loop-EndsAt (suc p.max_retries) 0 [] _ (omega arith) (omega arith) refl

mul_mono : (b x y : ℕ) → x ≤ y → b * x ≤ b * y
mul_mono b x y h = grind arith

-- The backoff before jitter never exceeds `max_delay`, and never falls from one attempt to the next.
pub backoff_base_bounds :
    (p : RetryProvider) (attempt : ℕ)
    → (backoff_base p attempt ≤ p.max_delay)
      × (backoff_base p attempt ≤ backoff_base p (suc attempt))
unfolding backoff_base
backoff_base_bounds p attempt = (
  omega arith,
  omega (
    arith,
    mul_mono p.base_delay (min (2 ^ attempt) 0xffff_ffff) (min (2 ^ suc attempt) 0xffff_ffff)
        (omega (arith, pow-suc 2 attempt)),
  ),
)
