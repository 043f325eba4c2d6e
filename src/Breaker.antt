-- ===== src/Breaker.antt =====
-- src/services/CircuitBreakerService.ts: a circuit breaker for each shard. `execute` is two steps, the
-- one before the caller's function is awaited and the one after it, since calls for one key overlap.
-- `Date.now()` is the argument `now`; `now - t` of the source may be negative, so the comparisons are
-- written as sums. The state `open` is spelled `opened`.
pub mod Windows
pub mod Histories
pub mod Tests
use workersql.Base.{
  ℕ, ◌+◌, ◌≡◌, refl, Bool, true, false, not, ◌&&◌, ◌||◌, List, [], ◌∷◌, ◌++◌, Option, none, some,
  String, arith, ◌==◌, string_eq, nat_eq, Eq, if◌then◌else◌, length, ltb, leb, filter,
}
use workersql.Dict
use workersql.Dict.{Dict}

pub data BreakerState : Type 0 where
  closed opened half_open : BreakerState

pub record BreakerStats : Type 0 where
  pub state : BreakerState
  pub failures : List ℕ
  pub last_opened_at : Option ℕ

pub record CircuitBreakerOptions : Type 0 where
  pub failure_threshold : ℕ
  pub window_ms : ℕ
  pub cooldown_ms : ℕ
  pub half_open_max_attempts : ℕ

abbrev pub default_opts : CircuitBreakerOptions
default_opts = record {
  failure_threshold = 5;
  window_ms = 30_000;
  cooldown_ms = 15_000;
  half_open_max_attempts = 1;
}

abbrev pub Breakers : Type 0
Breakers = Dict String BreakerStats

abbrev pub fresh_stats : BreakerStats
fresh_stats = record { state = closed; failures = []; last_opened_at = none }

stats_or_fresh : Option BreakerStats → BreakerStats
stats_or_fresh none = fresh_stats
stats_or_fresh (some b) = b

-- The breaker of a key, `closed` if there is none yet. `ensure` of the source also stores the new one,
-- which no later call can tell apart.
unfoldable pub ensure : Breakers → String → BreakerStats
unfolding stats_or_fresh
ensure breakers key = stats_or_fresh (Dict.get breakers key)

abbrev pub get_state : Breakers → String → BreakerState
get_state breakers key = (ensure breakers key).state

-- `b.lastOpenedAt && Date.now() - b.lastOpenedAt > cooldownMs`
cooled_down : CircuitBreakerOptions → Option ℕ → ℕ → Bool
cooled_down opts none now = false
cooled_down opts (some t) now = not (t == 0) && ltb (t + opts.cooldown_ms) now

open_check : CircuitBreakerOptions → BreakerState → BreakerStats → ℕ → Bool × BreakerStats
unfolding cooled_down
open_check opts opened b now =
    if cooled_down opts b.last_opened_at now
    then (false, record b { state = half_open; failures = [] })
    else (true, b)
open_check opts _ b now = (false, b)

-- `isOpen`, with the breaker as it leaves it.
unfoldable pub is_open : CircuitBreakerOptions → BreakerStats → ℕ → Bool × BreakerStats
unfolding open_check
is_open opts b now = open_check opts b.state b now

after_failure : CircuitBreakerOptions → BreakerState → BreakerStats → List ℕ → ℕ → BreakerStats
after_failure opts half_open b failures now = record b {
  state = opened;
  failures = failures;
  last_opened_at = some now;
}
after_failure opts state b failures now =
    if leb opts.failure_threshold (length failures)
    then record b { state = opened; failures = failures; last_opened_at = some now }
    else record b { failures = failures }

-- The failures that are still inside the window, and the new one.
abbrev pub recent : CircuitBreakerOptions → List ℕ → ℕ → List ℕ
recent opts failures now = filter (λ t. leb now (t + opts.window_ms)) failures

unfoldable pub record_failure : CircuitBreakerOptions → BreakerStats → ℕ → BreakerStats
unfolding after_failure
record_failure opts b now =
    after_failure opts b.state b (recent opts b.failures now ++ now ∷ []) now

after_success : BreakerState → BreakerStats → BreakerStats
after_success half_open b = record b { state = closed; failures = [] }
after_success _ b = b

-- The part of `execute` after the function succeeded.
unfoldable pub record_success : BreakerStats → BreakerStats
unfolding after_success
record_success b = after_success b.state b

-- What happens to the breaker of a key: a call asks to run, or its function ends.
pub data Event : Type 0 where
  begins : ℕ → Event
  succeeds : Event
  fails : ℕ → Event

unfoldable pub step : CircuitBreakerOptions → BreakerStats → Event → BreakerStats
step opts b (begins now) = (is_open opts b now).1
step opts b succeeds = record_success b
step opts b (fails now) = record_failure opts b now

unfoldable pub handle : CircuitBreakerOptions → Breakers → String × Event → Breakers
unfolding step
handle opts breakers (key, e) = Dict.put breakers key (step opts (ensure breakers key) e)

unfoldable pub run : CircuitBreakerOptions → Breakers → List (String × Event) → Breakers
unfolding handle
run opts breakers [] = breakers
run opts breakers (e ∷ events) = run opts (handle opts breakers e) events

-- `execute` with no other call in between: `none` is the refusal, and the function ends at `later` with
-- the given outcome.
unfoldable pub execute :
    CircuitBreakerOptions → BreakerStats → ℕ → ℕ → Bool → Option Bool × BreakerStats
execute opts b now later succeeded =
    let (refused, b') = is_open opts b now in
    if refused
    then (none, b')
    else (some succeeded, if succeeded then record_success b' else record_failure opts b' later)
