-- ===== src/Retry.antt =====
-- src/llm/retry.rs: retrying a provider on transient errors. The inner provider is an argument, by
-- its outcome at each call; `complete_stream` is the same loop over the streaming call. Durations
-- are nanoseconds, and the jitter, a float product, is an argument.
pub mod Attempts
use eventage_rs.Prelude.{
  ℕ, zero, suc, ◌+◌, ◌*◌, ◌^◌, ◌==◌, ltb, leb, String, Bool, true, false, ◌&&◌, ◌||◌, List, [], ◌∷◌,
  ◌++◌, min, if◌then◌else◌,
}

-- src/llm/error.rs. Of a `reqwest::Error` only the three tests are asked.
pub record HttpError : Type 0 where
  pub is_timeout : Bool
  pub is_connect : Bool
  pub is_request : Bool

pub data LlmError : Type 0 where
  http : HttpError → LlmError
  api : ℕ → String → LlmError
  empty_response : LlmError
  serde structured : String → LlmError

pub data Outcome (A : Type 0) : Type 0 where
  ok : A → Outcome A
  err : LlmError → Outcome A

unfoldable pub is_transient : LlmError → Bool
is_transient (http e) = e.is_timeout || (e.is_connect || e.is_request)
is_transient (api status message) =
    (status == 408 || (status == 429 || status == 529)) || (leb 500 status && ltb status 600)
is_transient empty_response = false
is_transient _ = false

pub record RetryProvider : Type 0 where
  pub max_retries : ℕ
  pub base_delay : ℕ
  pub max_delay : ℕ

abbrev pub default_provider : RetryProvider
default_provider = record {
  max_retries = 4;
  base_delay = 1_000_000_000;
  max_delay = 30_000_000_000;
}

abbrev pub u32_max : ℕ
u32_max = 0xffff_ffff

-- `Duration::MAX` in nanoseconds.
abbrev pub duration_max : ℕ
duration_max = 0xffff_ffff_ffff_ffff * 1_000_000_000 + 999_999_999

-- The backoff before the jitter.
unfoldable pub backoff_base : RetryProvider → ℕ → ℕ
backoff_base p attempt =
    min (min (p.base_delay * min (2 ^ attempt) u32_max) duration_max) p.max_delay

unfoldable pub backoff : (ℕ → ℕ) → RetryProvider → ℕ → ℕ
backoff jitter p attempt = backoff_base p attempt + jitter (backoff_base p attempt)

-- The result of the loop, the number of calls made and the sleeps in order.
pub record Run (A : Type 0) : Type 0 where
  pub result : Outcome A
  pub calls : ℕ
  pub sleeps : List ℕ

module _ {A : Type 0} (jitter : ℕ → ℕ) (p : RetryProvider) (inner : ℕ → Outcome A) where
  abbrev retries : ℕ → LlmError → Bool
  retries attempt e = ltb attempt p.max_retries && is_transient e

  -- `fuel` bounds the calls left; `attempt` counts the retries made. Without fuel no call is made,
  -- and the last error is kept.
  unfoldable pub complete_loop : ℕ → ℕ → List ℕ → LlmError → Run A
  complete_loop zero attempt sleeps e = record { result = err e; calls = attempt; sleeps = sleeps }
  complete_loop (suc fuel) attempt sleeps last_error = elim (inner attempt) [
    | ok a ↦ record { result = ok a; calls = suc attempt; sleeps = sleeps }
    | err e ↦ elim (retries attempt e) [
      | true ↦ complete_loop fuel (suc attempt) (sleeps ++ backoff jitter p attempt ∷ []) e
      | false ↦ record { result = err e; calls = suc attempt; sleeps = sleeps }
    ]
  ]

  unfoldable pub complete : Run A
  complete = complete_loop (suc p.max_retries) 0 [] empty_response
