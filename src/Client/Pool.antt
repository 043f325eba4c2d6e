-- ===== src/Client/Pool.antt =====
-- sdk/node/src/connection-pool.ts. The identifier of a new connection, made of the time and a random number, is an
-- argument. The requests themselves, their settings and the timers are left out: a tick of the interval of a waiting
-- `acquire`, of the health check and of the loop of `close` is an operation.
use workersql.Base.{
  ℕ, ◌+◌, ◌-◌, Bool, true, false, not, ◌&&◌, ◌||◌, List, [], ◌∷◌, Option, none, some, String, ◌==◌,
  if◌then◌else◌, ltb, filter, find, length, count, string_eq, nat_eq,
}
use workersql.Dict
use workersql.Dict.{Dict}

pub record PooledConnection : Type 0 where
  pub id : String
  pub in_use : Bool
  pub created_at : ℕ
  pub last_used : ℕ
  pub use_count : ℕ

pub record ConnectionPoolOptions : Type 0 where
  pub min_connections : Option ℕ
  pub max_connections : Option ℕ
  pub idle_timeout : Option ℕ

pub record Pool : Type 0 where
  pub connections : Dict String PooledConnection
  pub min_connections : ℕ
  pub max_connections : ℕ
  pub idle_timeout : ℕ
  pub closed : Bool

abbrev or_else : Option ℕ → ℕ → ℕ
or_else none n = n
or_else (some n) _ = n

unfoldable pub create_connection : Pool → String → ℕ → Pool
create_connection p id now = record p {
  connections =
      Dict.put p.connections id
        (record { id = id; in_use = false; created_at = now; last_used = now; use_count = 0 });
}

-- The constructor: one identifier for each of the first connections.
unfoldable pub create_each : Pool → List String → ℕ → Pool
unfolding create_connection
create_each p [] now = p
create_each p (id ∷ ids) now = create_each (create_connection p id now) ids now

unfoldable pub new_pool : ConnectionPoolOptions → (ℕ → List String) → ℕ → Pool
unfolding create_each
new_pool options new_ids now =
    let least = or_else options.min_connections 1 in
    create_each
      (record {
        connections = [];
        min_connections = least;
        max_connections = or_else options.max_connections 10;
        idle_timeout = or_else options.idle_timeout 300000;
        closed = false;
      })
      (new_ids least) now

abbrev pub is_idle : Option PooledConnection → Bool
is_idle none = false
is_idle (some c) = not c.in_use

abbrev pub is_in_use : Option PooledConnection → Bool
is_in_use none = false
is_in_use (some c) = c.in_use

-- The first connection of the map that is not in use.
abbrev pub first_idle : Pool → Option String
first_idle p = find (λ id. is_idle (Dict.get p.connections id)) (Dict.keys p.connections)

abbrev taken : PooledConnection → ℕ → PooledConnection
taken c now = record c { in_use = true; last_used = now; use_count = c.use_count + 1 }

abbrev change :
    Pool → String → (PooledConnection → PooledConnection) → Option PooledConnection → Pool
change p id f none = p
change p id f (some c) = record p { connections = Dict.put p.connections id (f c) }

-- `conn.inUse = true; conn.lastUsed = new Date(); conn.useCount++`
unfoldable pub take_connection : Pool → String → ℕ → Pool
take_connection p id now = change p id (λ c. taken c now) (Dict.get p.connections id)

pub data Acquired : Type 0 where
  acquired : String → Acquired
  pool_closed waiting : Acquired

unfoldable pub acquire : Pool → String → ℕ → Acquired × Pool
unfolding create_connection take_connection
acquire p new_id now = if p.closed then (pool_closed, p) else (elim (first_idle p) [
  | some id ↦ (acquired id, take_connection p id now)
  | none ↦
      if ltb (length p.connections) p.max_connections
      then (acquired new_id, take_connection (create_connection p new_id now) new_id now)
      else (waiting, p)
])

-- A tick of the interval of an `acquire` that waits.
unfoldable pub check_waiting : Pool → ℕ → Acquired × Pool
unfolding take_connection
check_waiting p now = elim (first_idle p) [
  | some id ↦ (acquired id, take_connection p id now)
  | none ↦ (waiting, p)
]

unfoldable pub release : Pool → String → ℕ → Pool
release p id now =
    change p id (λ c. record c { in_use = false; last_used = now }) (Dict.get p.connections id)

abbrev pub is_expired : Pool → ℕ → Option PooledConnection → Bool
is_expired p now none = false
is_expired p now (some c) = not c.in_use && ltb p.idle_timeout (now - c.last_used)

-- The first loop of `performHealthCheck`; the map has its full size all through it.
abbrev pub connections_to_remove : Pool → ℕ → List String
connections_to_remove p now =
    filter
      (λ id.
        is_expired p now (Dict.get p.connections id)
        && ltb p.min_connections (length p.connections))
      (Dict.keys p.connections)

abbrev pub delete_all : Dict String PooledConnection → List String → Dict String PooledConnection
delete_all m [] = m
delete_all m (id ∷ ids) = delete_all (Dict.delete m id) ids

unfoldable pub perform_health_check : Pool → ℕ → Pool
perform_health_check p now = record p {
  connections = delete_all p.connections (connections_to_remove p now);
}

pub record Stats : Type 0 where
  pub total : ℕ
  pub active : ℕ
  pub idle : ℕ
  pub min_connections : ℕ
  pub max_connections : ℕ

abbrev pub active_count : Pool → ℕ
active_count p = count (λ c. c.in_use) (Dict.values p.connections)

unfoldable pub get_stats : Pool → Stats
get_stats p = record {
  total = length p.connections;
  active = active_count p;
  idle = length p.connections - active_count p;
  min_connections = p.min_connections;
  max_connections = p.max_connections;
}

-- `close` up to its loop, and a round of the loop at a time after its start.
unfoldable pub close : Pool → Pool
close p = record p { closed = true }

unfoldable pub close_round : Pool → ℕ → Pool
close_round p waited =
    if active_count p == 0 || not (ltb waited 5000) then record p { connections = [] } else p
