-- ===== src/Client/Tests.antt =====
-- Tests of the Node client, and its theorems at concrete inputs.
use workersql.Base.{
  ℕ, zero, suc, ap, ◌≤◌, ◌≡◌, refl, false, ◌&&◌, List, [], ◌∷◌, none, some, String, arith, max, ltb,
  length, if◌then◌else◌, includes, string_eq, nat_eq,
}
use workersql.Dict
use workersql.Client.Pool.{
  PooledConnection, ConnectionPoolOptions, Pool, acquired, acquire, check_waiting, is_expired,
  new_pool, create_each, create_connection, take_connection, perform_health_check,
}
use workersql.Client.Leases.{Reachable, made, acquires, acquire-exclusive}
use workersql.Client.Exclusive.{leased}
use workersql.Client.Health.{get-perform_health_check}
use workersql.Client.Retry.{
  coded, default_options, Outcome, returned, threw, is_retryable, calculate_delay, add_jitter,
  attempts_from, execute,
}
use workersql.Client.Attempts.{Ends, execute-Ends}

abbrev options : ConnectionPoolOptions
options = record { min_connections = some 1; max_connections = some 2; idle_timeout = none }

abbrev names : ℕ → List String
names zero = []
names (suc n) = "c0" ∷ names n

length-names : (n : ℕ) → length (names n) ≡ n
length-names zero = refl
length-names (suc n) = ap suc (length-names n)

abbrev start : Pool
start = new_pool options names 5

started : Reachable options start []
started = made names 5 length-names

abbrev one_out : Pool
one_out = (acquire start "c1" 6).1

held : Reachable options one_out (leased (acquire start "c1" 6).0 [])
held = acquires start [] "c1" 6 started refl

acquire-exclusive_example :
    (length one_out.connections ≤ max one_out.min_connections one_out.max_connections)
    × ((acquire one_out "c2" 7).0 ≡ acquired "c2" → includes {A = String} "c2" ("c0" ∷ []) ≡ false)
    × ((check_waiting one_out 7).0 ≡ acquired "c2" → includes {A = String} "c2" ("c0" ∷ []) ≡ false)
unfolding new_pool create_each create_connection acquire take_connection Dict.get Dict.put
acquire-exclusive_example = acquire-exclusive options one_out ("c0" ∷ []) "c2" "c2" 7 held refl

abbrev idle_connection : PooledConnection
idle_connection = record {
  id = "c0";
  in_use = false;
  created_at = 0;
  last_used = 10;
  use_count = 1;
}

abbrev two_idle : Pool
two_idle = record {
  connections = ("c0", idle_connection) ∷ ("c1", idle_connection) ∷ [];
  min_connections = 1;
  max_connections = 10;
  idle_timeout = 300000;
  closed = false;
}

-- The lower limit of the pool is 1.
nothing_left_test : (perform_health_check two_idle 400000).connections ≡ []
unfolding perform_health_check Dict.get Dict.delete
nothing_left_test = refl

get-perform_health_check_example :
    Dict.get (perform_health_check two_idle 400000).connections "c1" ≡ (
      if is_expired two_idle 400000 (Dict.get two_idle.connections "c1") && ltb 1 2
      then none
      else Dict.get two_idle.connections "c1")
get-perform_health_check_example = get-perform_health_check two_idle 400000 "c1"

abbrev third_time : ℕ → Outcome ℕ
third_time n = if ltb n 2 then threw (coded "TIMEOUT_ERROR") else returned 9

-- What is drawn after the attempts, in thousandths.
abbrev half : ℕ → ℕ
half attempt = 500

third_test :
    execute default_options third_time half
    ≡ record { outcome = returned 9; calls = 3; delays = 1150 ∷ 2300 ∷ [] }
unfolding execute attempts_from is_retryable calculate_delay add_jitter
third_test = refl

execute-Ends_example :
    Ends default_options third_time half 0 (execute default_options third_time half)
execute-Ends_example = execute-Ends default_options third_time half (λ k. omega arith) (omega arith)
