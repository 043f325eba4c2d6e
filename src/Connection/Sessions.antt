-- ===== src/Connection/Sessions.antt =====
-- The sessions of src/services/ConnectionManager.ts, with the count of sessions for each shard.
-- `Date.now()` is the argument `now`.
use workersql.Base.{
  is_some, ℕ, ◌+◌, ◌-◌, Bool, true, false, not, ◌&&◌, List, [], ◌∷◌, Option, none, some, String,
  ◌==◌, string_eq, nat_eq, if◌then◌else◌, ltb, filter,
}
use workersql.Dict
use workersql.Dict.{Dict}
use workersql.Connection.Pools.{
  ConnectionPool, Resolved, new_pool, return_connection_to_pool, cleanup_pool,
}

pub data ConnectionState : Type 0 where
  active idle closing : ConnectionState

pub record SessionInfo : Type 0 where
  pub tenant_id : String
  pub shard_id : String
  pub last_seen : ℕ
  pub transaction_id : Option String
  pub is_in_transaction : Bool
  pub connection_state : ConnectionState

pub record Manager : Type 0 where
  pub sessions : Dict String SessionInfo
  pub shard_connection_counts : Dict String ℕ
  pub connection_pools : Dict String ConnectionPool
  pub ttl_ms : ℕ
  pub max_connections_per_shard : ℕ

-- An empty transaction id counts as none.
abbrev pub truthy : Option String → Option String
truthy none = none
truthy (some t) = if t == "" then none else some t

-- `counts.get(shardId) || other`
abbrev pub count_or : Option ℕ → ℕ → ℕ
count_or none other = other
count_or (some n) other = if n == 0 then other else n

unfoldable pub get_shard_connections : Manager → String → ℕ
get_shard_connections m shard_id = count_or (Dict.get m.shard_connection_counts shard_id) 0

unfoldable pub new_session : String → String → Option String → ℕ → SessionInfo
new_session tenant_id shard_id transaction_id now = record {
  tenant_id = tenant_id;
  shard_id = shard_id;
  last_seen = now;
  transaction_id = truthy transaction_id;
  is_in_transaction = is_some (truthy transaction_id);
  connection_state = active;
}

unfoldable pub rebound : SessionInfo → Option String → ℕ → SessionInfo
rebound existing transaction_id now = record existing {
  last_seen = now;
  transaction_id = truthy transaction_id;
  is_in_transaction = is_some (truthy transaction_id);
  connection_state = active;
}

unfoldable pub bind_session : Manager → String → String → String → Option String → ℕ → Manager
bind_session m session_id tenant_id shard_id transaction_id now =
    elim (Dict.get m.sessions session_id) [
      | some existing ↦ record m {
        sessions = Dict.put m.sessions session_id (rebound existing transaction_id now);
      }
      | none ↦ record m {
        sessions =
            Dict.put m.sessions session_id (new_session tenant_id shard_id transaction_id now);
        shard_connection_counts =
            Dict.put m.shard_connection_counts shard_id
              (count_or (Dict.get m.shard_connection_counts shard_id) 0 + 1);
        connection_pools =
            if Dict.has m.connection_pools shard_id
            then m.connection_pools
            else Dict.put m.connection_pools shard_id
                (new_pool shard_id m.max_connections_per_shard);
      }
    ]

unfoldable pub get_session : Manager → String → ℕ → Option SessionInfo × Manager
get_session m session_id now = elim (Dict.get m.sessions session_id) [
  | none ↦ (none, m)
  | some info ↦ (
    some (record info { last_seen = now }),
    record m { sessions = Dict.put m.sessions session_id (record info { last_seen = now }) },
  )
]

-- `returnConnectionToPool` for the pool of a shard, if there is one.
unfoldable pub return_to_shard :
    Dict String ConnectionPool → String → Resolved × Dict String ConnectionPool
return_to_shard pools shard_id = elim (Dict.get pools shard_id) [
  | none ↦ ([], pools)
  | some pool ↦ (
    (return_connection_to_pool pool).0,
    Dict.put pools shard_id (return_connection_to_pool pool).1,
  )
]

unfoldable pub removed_session : Manager → String → String → Manager
unfolding return_to_shard
removed_session m session_id shard_id = record m {
  sessions = Dict.delete m.sessions session_id;
  shard_connection_counts =
      Dict.put m.shard_connection_counts shard_id
        (count_or (Dict.get m.shard_connection_counts shard_id) 1 - 1);
  connection_pools = (return_to_shard m.connection_pools shard_id).1;
}

-- A session in a transaction is kept, as idle.
unfoldable pub release_session : Manager → String → Manager
unfolding removed_session
release_session m session_id = elim (Dict.get m.sessions session_id) [
  | none ↦ m
  | some info ↦
      if info.is_in_transaction
      then record m {
        sessions = Dict.put m.sessions session_id (record info { connection_state = idle });
      }
      else removed_session m session_id info.shard_id
]

unfoldable pub start_transaction : Manager → String → String → ℕ → Bool × Manager
start_transaction m session_id transaction_id now = elim (Dict.get m.sessions session_id) [
  | none ↦ (false, m)
  | some info ↦ (
    true,
    record m {
      sessions = Dict.put m.sessions session_id (record info {
        transaction_id = truthy (some transaction_id);
        is_in_transaction = true;
        connection_state = active;
        last_seen = now;
      });
    },
  )
]

unfoldable pub end_transaction : Manager → String → ℕ → Bool × Manager
end_transaction m session_id now = elim (Dict.get m.sessions session_id) [
  | none ↦ (false, m)
  | some info ↦ if not info.is_in_transaction then (false, m) else (
    true,
    record m {
      sessions = Dict.put m.sessions session_id (record info {
        transaction_id = none;
        is_in_transaction = false;
        connection_state = idle;
        last_seen = now;
      });
    },
  )
]

-- `info.lastSeen < Date.now() - ttlMs && !info.isInTransaction`, with the difference as a sum.
abbrev pub is_stale : ℕ → ℕ → SessionInfo → Bool
is_stale now ttl_ms info = ltb (info.last_seen + ttl_ms) now && not info.is_in_transaction

-- The loop of `cleanup` over the entries of the session map.
unfoldable pub cleanup_sessions : Manager → ℕ → Dict String SessionInfo → Manager
cleanup_sessions m now [] = m
cleanup_sessions m now ((id, info) ∷ entries) =
    cleanup_sessions (if is_stale now m.ttl_ms info then release_session m id else m) now entries

cleanup_pools : (ℕ → Bool) → Dict String ConnectionPool → Dict String ConnectionPool
cleanup_pools is_open [] = []
cleanup_pools is_open ((shard, pool) ∷ pools) =
    (shard, (cleanup_pool pool is_open).1) ∷ cleanup_pools is_open pools

unfoldable pub cleanup : Manager → (ℕ → Bool) → ℕ → Manager
unfolding cleanup_pools
cleanup m is_open now =
    let cleaned = cleanup_sessions m now m.sessions in
    record cleaned { connection_pools = cleanup_pools is_open cleaned.connection_pools }

unfoldable pub get_active_sessions : Manager → List SessionInfo
get_active_sessions m =
    filter (λ info. elim info.connection_state [ active ↦ true | _ ↦ false ])
      (Dict.values m.sessions)

unfoldable pub get_transaction_sessions : Manager → List SessionInfo
get_transaction_sessions m = filter (λ info. info.is_in_transaction) (Dict.values m.sessions)

unfoldable pub destroy : Manager → Manager
destroy m = record m { sessions = []; shard_connection_counts = []; connection_pools = [] }
