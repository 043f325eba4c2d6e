-- ===== src/Connection/Pools.antt =====
-- The connection pools of src/services/ConnectionManager.ts. A socket is a number, and so is a waiting
-- request, which stands for its `resolve` callback; an operation returns the requests that it resolves
-- with their sockets. Whether a socket is in the state `OPEN` is the argument `is_open`. The socket that
-- `socketFactory` makes is the argument `fresh`; closing one comes back as the event `close`.
use workersql.Base.{
  ℕ, ◌+◌, ◌-◌, Bool, List, [], ◌∷◌, ◌++◌, Option, none, some, String, ◌==◌, string_eq, nat_eq,
  if◌then◌else◌, length, ltb, filter, includes,
}

pub record ConnectionPool : Type 0 where
  pub shard_id : String
  pub max_connections : ℕ
  pub active_connections : ℕ
  pub idle_connections : List ℕ
  pub waiting_queue : List ℕ

unfoldable pub new_pool : String → ℕ → ConnectionPool
new_pool shard_id max_connections = record {
  shard_id = shard_id;
  max_connections = max_connections;
  active_connections = 0;
  idle_connections = [];
  waiting_queue = [];
}

-- `Array.prototype.pop`: the last entry, and the entries before it.
unfoldable pub pop : List ℕ → Option (ℕ × List ℕ)
pop [] = none
pop (x ∷ xs) = elim (pop xs) [ none ↦ some (x, []) | some (y, ys) ↦ some (y, x ∷ ys) ]

-- The list without the first occurrence of a value, `splice(indexOf(value), 1)`.
unfoldable pub splice_out : ℕ → List ℕ → List ℕ
splice_out a [] = []
splice_out a (x ∷ xs) = if x == a then xs else x ∷ splice_out a xs

pub data Acquired : Type 0 where
  no_pool : Acquired
  reused created : ℕ → Acquired
  waits : Acquired

-- What a resolved request receives.
abbrev pub Resolved : Type 0
Resolved = List (ℕ × ℕ)

unfoldable pub acquire_connection : ConnectionPool → ℕ → ℕ → Acquired × ConnectionPool
acquire_connection pool request fresh = elim (pop pool.idle_connections) [
  | some (conn, idle) ↦ (
    reused conn,
    record pool { idle_connections = idle; active_connections = pool.active_connections + 1 },
  )
  | none ↦
      if ltb pool.active_connections pool.max_connections
      then (created fresh, record pool { active_connections = pool.active_connections + 1 })
      else (waits, record pool { waiting_queue = pool.waiting_queue ++ request ∷ [] })
]

-- The oldest request gets the socket that became idle last.
unfoldable pub hand_over : ConnectionPool → List ℕ → Option (ℕ × List ℕ) → Resolved × ConnectionPool
hand_over pool [] popped = ([], pool)
hand_over pool (request ∷ queue) none = ([], pool)
hand_over pool (request ∷ queue) (some (conn, idle)) = (
  (request, conn) ∷ [],
  record pool {
    waiting_queue = queue;
    idle_connections = idle;
    active_connections = pool.active_connections + 1;
  },
)

unfoldable pub return_connection_to_pool : ConnectionPool → Resolved × ConnectionPool
unfolding hand_over
return_connection_to_pool pool = hand_over pool pool.waiting_queue (pop pool.idle_connections)

-- A socket that is still open goes to the idle ones, and from there to a waiting request.
unfoldable pub release_connection : ConnectionPool → ℕ → Bool → Resolved × ConnectionPool
release_connection pool connection is_valid =
    let released = record pool { active_connections = pool.active_connections - 1 } in
    if is_valid
    then return_connection_to_pool
        (record released { idle_connections = pool.idle_connections ++ connection ∷ [] })
    else return_connection_to_pool released

unfoldable pub handle_connection_close : ConnectionPool → ℕ → Resolved × ConnectionPool
handle_connection_close pool connection =
    if includes connection pool.idle_connections
    then return_connection_to_pool
        (record pool { idle_connections = splice_out connection pool.idle_connections })
    else return_connection_to_pool
        (record pool { active_connections = pool.active_connections - 1 })

unfoldable pub handle_connection_error : ConnectionPool → ℕ → Resolved × ConnectionPool
handle_connection_error pool connection = handle_connection_close pool connection

-- One idle socket for each that is not open is taken off the count of active ones.
unfoldable pub drop_closed : (ℕ → Bool) → ℕ → List ℕ → ℕ
drop_closed is_open active [] = active
drop_closed is_open active (conn ∷ conns) =
    drop_closed is_open (if is_open conn then active else active - 1) conns

-- The part of `cleanup` for one pool, with the sockets that it closes.
unfoldable pub cleanup_pool : ConnectionPool → (ℕ → Bool) → List ℕ × ConnectionPool
unfolding drop_closed
cleanup_pool pool is_open = (
  filter is_open pool.idle_connections,
  record pool {
    idle_connections = [];
    active_connections = drop_closed is_open pool.active_connections pool.idle_connections;
  },
)

unfoldable pub close_shard_connections : ConnectionPool → List ℕ × ConnectionPool
close_shard_connections pool = (
  pool.idle_connections,
  record pool { idle_connections = []; active_connections = 0; waiting_queue = [] },
)

pub record PoolStats : Type 0 where
  pub active : ℕ
  pub idle : ℕ
  pub waiting : ℕ
  pub max : ℕ

unfoldable pub get_pool_stats : ConnectionPool → PoolStats
get_pool_stats pool = record {
  active = pool.active_connections;
  idle = length pool.idle_connections;
  waiting = length pool.waiting_queue;
  max = pool.max_connections;
}
