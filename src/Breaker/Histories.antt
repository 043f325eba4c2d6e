-- ===== src/Breaker/Histories.antt =====
-- The breakers of src/services/CircuitBreakerService.ts over any history of calls.
use workersql.Base.{
  ◌<◌, ◌≡◌, ◌≢◌, List, [], ◌∷◌, ◌++◌, none, String, ◌==◌, string_eq, nat_eq, if◌then◌else◌, length,
}
use workersql.Dict
use workersql.Dict.{Dict}
use workersql.Breaker.{closed, opened, BreakerStats, CircuitBreakerOptions, Event, step}

-- A closed breaker has fewer failures on record than the threshold, and an open one knows since when.
pub record IsSound (opts : CircuitBreakerOptions) (b : BreakerStats) : Type 0 where
  pub below : b.state ≡ closed → length b.failures < opts.failure_threshold
  pub timed : b.state ≡ opened → b.last_opened_at ≢ none

-- The events of one key, in order.
abbrev events_of : String → List (String × Event) → List Event
events_of key [] = []
events_of key ((k, e) ∷ events) = (if k == key then e ∷ [] else []) ++ events_of key events

abbrev steps : CircuitBreakerOptions → BreakerStats → List Event → BreakerStats
steps opts b [] = b
steps opts b (e ∷ events) = steps opts (step opts b e) events
