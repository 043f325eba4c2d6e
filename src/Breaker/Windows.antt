-- ===== src/Breaker/Windows.antt =====
-- When a breaker of src/services/CircuitBreakerService.ts opens, refuses and closes.
use workersql.Base.{
  ap, ◌∙◌, ℕ, ◌+◌, ◌<◌, ◌≤◌, ◌≡◌, refl, ◌⊎◌, ◌≢◌, Bool, true, false, List, [], ◌∷◌, some, arith,
  string_eq, nat_eq, length, length-append, All,
}
use workersql.Breaker.{
  closed, opened, half_open, BreakerStats, CircuitBreakerOptions, is_open, record_failure,
  record_success, recent, execute, step, begins,
}

module _ (opts : CircuitBreakerOptions) (b : BreakerStats) where
  -- A failure opens the breaker exactly if it was half open, was open already, or has, with this one,
  -- at least the threshold's number of failures inside the window; otherwise it stays closed.
  pub record_failure_lem :
      (now : ℕ)
      → (((b.state ≢ closed) ⊎ (opts.failure_threshold ≤ length (recent opts b.failures now) + 1))
          × ((record_failure opts b now).state ≡ opened))
        ⊎ ((b.state ≡ closed)
            × (length (recent opts b.failures now) + 1 < opts.failure_threshold)
            × ((record_failure opts b now).state ≡ closed)
            × ((record_failure opts b now).last_opened_at ≡ b.last_opened_at))
  unfolding record_failure
  record_failure_lem now = ground (arith, length-append (recent opts b.failures now) (now ∷ []))

  -- An open breaker refuses every call until its cooldown is over, and stays as it is; the first call
  -- after that is let through, with the breaker half open and its failures forgotten.
  pub is_open_lem :
      (t now : ℕ)
      → b.state ≡ opened
      → b.last_opened_at ≡ some t
      → 0 < t
      → ((now ≤ t + opts.cooldown_ms) × (is_open opts b now ≡ (true, b)))
        ⊎ ((t + opts.cooldown_ms < now)
            × (is_open opts b now ≡ (false, record b { state = half_open; failures = [] })))
  unfolding is_open
  is_open_lem t now e f pos = ground arith

  -- A trial call after the cooldown decides: if its function succeeds the breaker is closed with no
  -- failure on record, and if it fails the breaker is open again, from the time of that failure.
  pub execute_trial :
      (t now later : ℕ) (succeeded : Bool)
      → b.state ≡ opened
      → b.last_opened_at ≡ some t
      → 0 < t
      → t + opts.cooldown_ms < now
      → ((execute opts b now later succeeded).0 ≡ some succeeded)
        × (succeeded ≡ true
            → ((execute opts b now later succeeded).1.state ≡ closed)
              × ((execute opts b now later succeeded).1.failures ≡ []))
        × (succeeded ≡ false
            → ((execute opts b now later succeeded).1.state ≡ opened)
              × ((execute opts b now later succeeded).1.last_opened_at ≡ some later))
  unfolding execute is_open record_failure record_success
  execute_trial t now later succeeded e f pos late =
      (ground arith, (λ h. ground arith), (λ h. ground arith))

let_through :
    (opts : CircuitBreakerOptions) (b : BreakerStats) (now : ℕ)
    → b.state ≡ half_open
    → is_open opts b now ≡ (false, b)
unfolding is_open
let_through opts b now e = ground arith

-- The breaker after calls that begin one after another.
pub run_begins : CircuitBreakerOptions → BreakerStats → List ℕ → BreakerStats
run_begins opts b [] = b
run_begins opts b (now ∷ times) = run_begins opts (step opts b (begins now)) times

-- While a breaker is half open every call is let through, however many there were before it and
-- whatever `halfOpenMaxAttempts` says.
pub half_open_unlimited :
    (opts : CircuitBreakerOptions) (b : BreakerStats) (times : List ℕ)
    → b.state ≡ half_open
    → (run_begins opts b times ≡ b) × All (λ now. (is_open opts b now).0 ≡ false) times
unfolding run_begins step
half_open_unlimited opts b [] e = (refl, tt)
half_open_unlimited opts b (now ∷ times) e =
    let (same, through) = half_open_unlimited opts b times e in
    (
      ap (λ r. run_begins opts r.1 times) (let_through opts b now e) ∙ same,
      (ap (λ r. r.0) (let_through opts b now e), through),
    )
