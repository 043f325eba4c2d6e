-- ===== src/Connection/Counts.antt =====
-- The count of sessions that ConnectionManager (src/services/ConnectionManager.ts) keeps for each shard,
-- against the sessions of that shard.
use workersql.Base.{
  ℕ, ◌≤◌, ◌+◌, ◌-◌, ◌≡◌, refl, ap, Bool, List, [], ◌∷◌, Option, none, some, String, arith, ◌==◌,
  string_eq, nat_eq, if◌then◌else◌, count, Bool-cases, Option-cases, inl, inr, beq_refl, beq_cases,
}
use workersql.Dict
use workersql.Dict.{Dict, IsMap, get-put}
use workersql.Dict.Counting.{count-put_new, count-put_old, count-delete, put-IsMap, delete-IsMap}
use workersql.Connection.Sessions.{
  SessionInfo, Manager, count_or, get_shard_connections, new_session, rebound, bind_session,
  get_session, release_session, removed_session, start_transaction, end_transaction,
  cleanup_sessions, cleanup, is_stale,
}

abbrev on_shard : String → SessionInfo → Bool
on_shard shard info = info.shard_id == shard

-- The sessions of a shard.
unfoldable pub sessions_on : Manager → String → ℕ
sessions_on m shard = count (on_shard shard) (Dict.values m.sessions)

-- The counter of each shard is the number of its sessions, and no session is stored twice.
unfoldable pub IsCounted : Manager → Type 0
IsCounted m =
    IsMap m.sessions × ((shard : String) → get_shard_connections m shard ≡ sessions_on m shard)

-- Replacing the record of a session by one for the same shard.
replace-IsCounted :
    (m : Manager) (id : String) (old new : SessionInfo)
    → Dict.get m.sessions id ≡ some old
    → new.shard_id ≡ old.shard_id
    → IsCounted m
    → IsCounted (record m { sessions = Dict.put m.sessions id new })
unfolding IsCounted sessions_on get_shard_connections
replace-IsCounted m id old new found same h = (
  put-IsMap m.sessions id new h.0,
  λ shard. ground (
    arith,
    h.1 shard,
    count-put_old (on_shard shard) m.sessions id new old found,
    ap (λ s. s == shard) same,
  ),
)

get-put_or :
    (d : Dict String ℕ) (k j : String) (n : ℕ)
    → count_or (Dict.get (Dict.put d k n) j) 0 ≡ (if k == j then n else count_or (Dict.get d j) 0)
get-put_or d k j n = elim (Bool-cases (k == j)) [
  | inl e ↦ rw (get-put d k j n, e) (ground arith)
  | inr e ↦ rw (get-put d k j n, e) refl
]

count_or_one : (o : Option ℕ) → 1 ≤ count_or o 0 → count_or o 1 ≡ count_or o 0
count_or_one none h = absurd (omega (arith, h))
count_or_one (some n) h = elim (Bool-cases (n == 0)) [
  | inl e ↦ absurd (ground (arith, h, e))
  | inr e ↦ rw e refl
]

pub bind_session-IsCounted :
    (m : Manager) (id tenant shard : String) (transaction : Option String) (now : ℕ)
    → IsCounted m
    → IsCounted (bind_session m id tenant shard transaction now)
unfolding bind_session rebound new_session IsCounted sessions_on get_shard_connections
bind_session-IsCounted m id tenant shard transaction now h =
    elim (Option-cases (Dict.get m.sessions id)) [
      | inr (old, found) ↦
          rw (found, bind_session)
            (replace-IsCounted m id old (rebound old transaction now) found refl h)
      | inl fresh ↦
          rw (fresh, bind_session)
            (
              put-IsMap m.sessions id (new_session tenant shard transaction now) h.0,
              λ other. ground (
                arith,
                h.1 other,
                h.1 shard,
                get-put_or m.shard_connection_counts shard other
                    (get_shard_connections m shard + 1),
                beq_cases shard other,
                count-put_new (on_shard other) m.sessions id
                    (new_session tenant shard transaction now) fresh,
              ),
            )
    ]

pub get_session-IsCounted :
    (m : Manager) (id : String) (now : ℕ) → IsCounted m → IsCounted (get_session m id now).1
unfolding get_session
get_session-IsCounted m id now h = elim (Option-cases (Dict.get m.sessions id)) [
  | inl e ↦ rw (e, get_session) h
  | inr (old, found) ↦
      rw (found, get_session)
        (replace-IsCounted m id old (record old { last_seen = now }) found refl h)
]

removed_session-IsCounted :
    (m : Manager) (id : String) (old : SessionInfo)
    → Dict.get m.sessions id ≡ some old
    → IsCounted m
    → IsCounted (removed_session m id old.shard_id)
unfolding removed_session IsCounted sessions_on get_shard_connections
removed_session-IsCounted m id old found h = (
  delete-IsMap m.sessions id h.0,
  λ shard. ground (
    arith,
    h.1 shard,
    h.1 old.shard_id,
    get-put_or m.shard_connection_counts old.shard_id shard
        (count_or (Dict.get m.shard_connection_counts old.shard_id) 1 - 1),
    count_or_one (Dict.get m.shard_connection_counts old.shard_id),
    beq_cases old.shard_id shard,
    beq_refl old.shard_id,
    count-delete (on_shard shard) m.sessions id old h.0 found,
  ),
)

pub release_session-IsCounted :
    (m : Manager) (id : String) → IsCounted m → IsCounted (release_session m id)
unfolding release_session
release_session-IsCounted m id h = elim (Option-cases (Dict.get m.sessions id)) [
  | inl e ↦ rw (e, release_session) h
  | inr (old, found) ↦ elim (Bool-cases old.is_in_transaction) [
    | inl e ↦ rw (found, e, release_session) (replace-IsCounted m id old _ found refl h)
    | inr e ↦ rw (found, e, release_session) (removed_session-IsCounted m id old found h)
  ]
]

pub start_transaction-IsCounted :
    (m : Manager) (id transaction : String) (now : ℕ)
    → IsCounted m
    → IsCounted (start_transaction m id transaction now).1
unfolding start_transaction
start_transaction-IsCounted m id transaction now h = elim (Option-cases (Dict.get m.sessions id)) [
  | inl e ↦ rw (e, start_transaction) h
  | inr (old, found) ↦ rw (found, start_transaction) (replace-IsCounted m id old _ found refl h)
]

pub end_transaction-IsCounted :
    (m : Manager) (id : String) (now : ℕ) → IsCounted m → IsCounted (end_transaction m id now).1
unfolding end_transaction
end_transaction-IsCounted m id now h = elim (Option-cases (Dict.get m.sessions id)) [
  | inl e ↦ rw (e, end_transaction) h
  | inr (old, found) ↦ elim (Bool-cases old.is_in_transaction) [
    | inl e ↦ rw (found, e, end_transaction) (replace-IsCounted m id old _ found refl h)
    | inr e ↦ rw (found, e, end_transaction) h
  ]
]

cleanup_sessions-IsCounted :
    (m : Manager) (now : ℕ) (entries : Dict String SessionInfo)
    → IsCounted m
    → IsCounted (cleanup_sessions m now entries)
unfolding cleanup_sessions
cleanup_sessions-IsCounted m now [] h = h
cleanup_sessions-IsCounted m now ((id, info) ∷ entries) h =
    elim (Bool-cases (is_stale now m.ttl_ms info)) [
      | inl e ↦
          rw (e, cleanup_sessions)
            (cleanup_sessions-IsCounted (release_session m id) now entries
              (release_session-IsCounted m id h))
      | inr e ↦ rw (e, cleanup_sessions) (cleanup_sessions-IsCounted m now entries h)
    ]

cleanup-IsCounted :
    (m : Manager) (is_open : ℕ → Bool) (now : ℕ) → IsCounted m → IsCounted (cleanup m is_open now)
unfolding cleanup IsCounted sessions_on get_shard_connections
cleanup-IsCounted m is_open now h = cleanup_sessions-IsCounted m now m.sessions h

-- What a client does with the connection manager.
pub data Request : Type 0 where
  bind : String → String → String → Option String → ℕ → Request
  get release : String → ℕ → Request
  begin : String → String → ℕ → Request
  finish : String → ℕ → Request
  clean : (ℕ → Bool) → ℕ → Request

unfoldable pub serve : Manager → List Request → Manager
serve m [] = m
serve m (bind id tenant shard transaction now ∷ requests) =
    serve (bind_session m id tenant shard transaction now) requests
serve m (get id now ∷ requests) = serve (get_session m id now).1 requests
serve m (release id now ∷ requests) = serve (release_session m id) requests
serve m (begin id transaction now ∷ requests) =
    serve (start_transaction m id transaction now).1 requests
serve m (finish id now ∷ requests) = serve (end_transaction m id now).1 requests
serve m (clean is_open now ∷ requests) = serve (cleanup m is_open now) requests

-- After any sequence of binds, lookups, releases, transaction starts and ends and cleanups, from a state
-- where it holds, the counter of every shard is the number of the sessions bound to it.
pub serve-IsCounted :
    (m : Manager) (requests : List Request) → IsCounted m → IsCounted (serve m requests)
unfolding serve
serve-IsCounted m [] h = h
serve-IsCounted m (bind id tenant shard transaction now ∷ requests) h =
    serve-IsCounted (bind_session m id tenant shard transaction now) requests
      (bind_session-IsCounted m id tenant shard transaction now h)
serve-IsCounted m (get id now ∷ requests) h =
    serve-IsCounted (get_session m id now).1 requests (get_session-IsCounted m id now h)
serve-IsCounted m (release id now ∷ requests) h =
    serve-IsCounted (release_session m id) requests (release_session-IsCounted m id h)
serve-IsCounted m (begin id transaction now ∷ requests) h =
    serve-IsCounted (start_transaction m id transaction now).1 requests
      (start_transaction-IsCounted m id transaction now h)
serve-IsCounted m (finish id now ∷ requests) h =
    serve-IsCounted (end_transaction m id now).1 requests (end_transaction-IsCounted m id now h)
serve-IsCounted m (clean is_open now ∷ requests) h =
    serve-IsCounted (cleanup m is_open now) requests (cleanup-IsCounted m is_open now h)
