-- ===== src/Client/Retry.antt =====
-- sdk/node/src/retry-logic.ts. The errors of a call are of the forms that `isRetryable` tells apart. The factor of the
-- delays is a number of thousandths. `Math.random()` is a number of thousandths below 1000, which the environment draws
-- for each attempt, and a delay is rounded down to whole milliseconds. The messages are left out.
use Prim.Native.String.{String}
use workersql.Base.{
  ℕ, zero, suc, ◌+◌, ◌-◌, ◌*◌, ◌/◌, ◌^◌, Bool, false, List, [], ◌∷◌, ◌==◌, if◌then◌else◌, any,
  includes, min, is_some, string_eq, nat_eq,
}
use text.Mathlib.Text.{find?}

pub data Failure : Type 0 where
  -- a `ValidationError`, or another error with a code that is not empty
  coded : String → Failure
  -- an error with a message that is not empty and no code
  with_message : String → Failure
  other_value : Failure
  -- the error that `execute` makes after the last attempt, with its `attempts`
  exhausted : ℕ → Failure
  -- `undefined`, which is thrown when there was no attempt
  no_error : Failure

pub record RetryOptions : Type 0 where
  pub max_attempts : ℕ
  pub initial_delay : ℕ
  pub max_delay : ℕ
  -- in thousandths
  pub backoff_multiplier : ℕ
  pub retryable_errors : List String

abbrev pub default_retryable_errors : List String
default_retryable_errors =
    "CONNECTION_ERROR" ∷ "TIMEOUT_ERROR" ∷ "RESOURCE_LIMIT" ∷ "ECONNREFUSED" ∷ "ECONNRESET"
    ∷ "ETIMEDOUT" ∷ "ENETUNREACH" ∷ []

abbrev pub default_options : RetryOptions
default_options = record {
  max_attempts = 3;
  initial_delay = 1000;
  max_delay = 30000;
  backoff_multiplier = 2000;
  retryable_errors = default_retryable_errors;
}

unfoldable pub is_retryable : RetryOptions → Failure → Bool
is_retryable o (coded code) = includes code o.retryable_errors
is_retryable o (with_message message) =
    any (λ code. is_some (find? message code)) o.retryable_errors
is_retryable o (exhausted attempts) = includes "CONNECTION_ERROR" o.retryable_errors
is_retryable o other_value = false
is_retryable o no_error = false

unfoldable pub calculate_delay : RetryOptions → ℕ → ℕ
calculate_delay o attempt =
    min (o.initial_delay * o.backoff_multiplier ^ attempt / 1000 ^ attempt) o.max_delay

-- The delay with up to 30 per cent more, for a drawn number of thousandths.
unfoldable pub add_jitter : ℕ → ℕ → ℕ
add_jitter random delay = delay + random * 3 * delay / 10000

pub data Outcome {ℓ} (A : Type ℓ) : Type ℓ where
  returned : A → Outcome A
  threw : Failure → Outcome A

-- What `execute` comes to, how often it called the function, and the delays between the calls.
pub record Execution {ℓ} (A : Type ℓ) : Type ℓ where
  pub outcome : Outcome A
  pub calls : ℕ
  pub delays : List ℕ

-- The function, by the number of its call, and what is drawn after each.
module _ {ℓ} {A : Type ℓ} (o : RetryOptions) (call : ℕ → Outcome A) (random : ℕ → ℕ) where
  -- The rounds of the loop from `attempt` on.
  unfoldable pub attempts_from : ℕ → ℕ → Execution A
  unfolding is_retryable calculate_delay add_jitter
  attempts_from zero attempt = record { outcome = threw no_error; calls = attempt; delays = [] }
  attempts_from (suc rounds) attempt =
      let rest = attempts_from rounds (attempt + 1) in
      elim (call attempt) [
        | returned a ↦ record { outcome = returned a; calls = attempt + 1; delays = [] }
        | threw e ↦
            if is_retryable o e
            then (if attempt == o.max_attempts - 1
                then record {
                  outcome = threw (exhausted (attempt + 1));
                  calls = attempt + 1;
                  delays = [];
                }
                else record rest {
                  delays = add_jitter (random attempt) (calculate_delay o attempt) ∷ rest.delays;
                })
            else record { outcome = threw e; calls = attempt + 1; delays = [] }
      ]

  unfoldable pub execute : Execution A
  unfolding attempts_from
  execute = attempts_from o.max_attempts 0
