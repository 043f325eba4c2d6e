-- ===== src/Connection/Tests.antt =====
-- The theorems on src/services/ConnectionManager.ts at concrete inputs.
use workersql.Base.{◌≡◌, refl, inl, true, false, List, [], ◌∷◌, none, some, arith, string_eq}
use workersql.Dict
use workersql.Connection.Pools.{
  ConnectionPool, new_pool, pop, release_connection, return_connection_to_pool, hand_over,
  handle_connection_close, acquire_connection,
}
use workersql.Connection.Sessions.{Manager, get_shard_connections}
use workersql.Connection.Counts.{
  IsCounted, sessions_on, Request, bind, get, release, finish, clean, serve, serve-IsCounted,
}
use workersql.Connection.Waiting
use workersql.Connection.Waiting.{
  Event, IsBalanced, happen_all, happen_all-IsBalanced, close_starves, acquire, close, shut,
}
use workersql.Connection.Capacity.{IsWithin, is_paired, failed_socket_exceeds}
use workersql.Connection.Pools.{
  created, handle_connection_close, handle_connection_error, acquire_connection,
}

abbrev no_sessions : Manager
no_sessions = record {
  sessions = [];
  shard_connection_counts = [];
  connection_pools = [];
  ttl_ms = 1000;
  max_connections_per_shard = 2;
}

no_sessions-IsCounted : IsCounted no_sessions
unfolding IsCounted get_shard_connections sessions_on Dict.get
no_sessions-IsCounted = (tt, λ shard. refl)

abbrev requests : List Request
requests =
    bind "s1" "t1" "shard_a" none 5
    ∷ bind "s2" "t1" "shard_a" (some "tx") 6
    ∷ bind "s1" "t1" "shard_b" none 7
    ∷ get "s2" 8
    ∷ release "s2" 9
    ∷ finish "s2" 10
    ∷ release "s1" 11
    ∷ clean (λ conn. true) 5000
    ∷ []

serve-IsCounted_example : IsCounted (serve no_sessions requests)
serve-IsCounted_example = serve-IsCounted no_sessions requests no_sessions-IsCounted

abbrev events : List Event
events =
    acquire 1 10
    ∷ acquire 2 11
    ∷ acquire 3 12
    ∷ Waiting.release 10 true
    ∷ close 11
    ∷ Waiting.release 10 false
    ∷ Waiting.clean (λ conn. true)
    ∷ shut
    ∷ []

fresh-IsBalanced : IsBalanced (new_pool "shard_a" 2)
unfolding IsBalanced new_pool
fresh-IsBalanced = inl refl

happen_all-IsBalanced_example : IsBalanced (happen_all (new_pool "shard_a" 2) events)
happen_all-IsBalanced_example = happen_all-IsBalanced (new_pool "shard_a" 2) events fresh-IsBalanced

events_paired : is_paired (new_pool "shard_a" 2) events ≡ true
unfolding is_paired new_pool Waiting.happen acquire_connection pop handle_connection_close
    release_connection return_connection_to_pool hand_over
events_paired = refl

fresh-IsWithin : IsWithin (new_pool "shard_a" 2)
unfolding IsWithin new_pool
fresh-IsWithin = omega arith

-- Both sockets are in use, and one request waits.
abbrev busy : ConnectionPool
busy = record {
  shard_id = "shard_a";
  max_connections = 2;
  active_connections = 2;
  idle_connections = [];
  waiting_queue = 3 ∷ [];
}

failed_socket_exceeds_example :
    let failed = (handle_connection_close (handle_connection_error busy 10).1 10).1 in
    let (first, t) = acquire_connection failed 4 12 in
    let (second, u) = acquire_connection t 5 13 in
    (first ≡ created 12) × (second ≡ created 13) × (u.active_connections ≡ 2)
failed_socket_exceeds_example = failed_socket_exceeds busy 10 4 12 5 13 refl refl (omega arith)
