-- ===== src/Breaker/Tests.antt =====
-- Tests of src/services/CircuitBreakerService.ts, and its theorems at concrete breakers.
use workersql.Base.{◌+◌, ◌<◌, ◌≤◌, ◌≡◌, refl, ◌⊎◌, ◌≢◌, List, [], ◌∷◌, some, String, length}
use workersql.Dict
use workersql.Dict.{Dict}
use workersql.Breaker.{
  closed, opened, half_open, BreakerStats, default_opts, ensure, get_state, record_failure, recent,
  Event, fails, step, run,
}
use workersql.Breaker.Windows.{record_failure_lem}

abbrev tripped : BreakerStats
tripped = record {
  state = opened;
  failures = 100 ∷ 200 ∷ 300 ∷ 400 ∷ 500 ∷ [];
  last_opened_at = some 500;
}

abbrev trial : BreakerStats
trial = record { state = half_open; failures = []; last_opened_at = some 500 }

abbrev five_failures : List (String × Event)
five_failures =
    ("s0", fails 100)
    ∷ ("s0", fails 200)
    ∷ ("s1", fails 250)
    ∷ ("s0", fails 300)
    ∷ ("s0", fails 400)
    ∷ ("s0", fails 500)
    ∷ []

trips : ensure (run default_opts [] five_failures) "s0" ≡ tripped
unfolding ensure run step record_failure Dict.get Dict.put
trips = refl

old_failures_expire :
    get_state (run default_opts [] (("s0", fails 60_000) ∷ five_failures)) "s1" ≡ closed
unfolding ensure run step record_failure Dict.get Dict.put
old_failures_expire = refl

record_failure_example :
    ((((trial.state ≢ closed)
          ⊎ (default_opts.failure_threshold ≤ length (recent default_opts trial.failures 600) + 1))
        × ((record_failure default_opts trial 600).state ≡ opened))
      ⊎ ((trial.state ≡ closed)
          × (length (recent default_opts trial.failures 600) + 1 < default_opts.failure_threshold)
          × ((record_failure default_opts trial 600).state ≡ closed)
          × ((record_failure default_opts trial 600).last_opened_at ≡ trial.last_opened_at)))
record_failure_example = record_failure_lem default_opts trial 600
