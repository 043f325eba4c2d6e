-- ===== src/Connection/Capacity.antt =====
-- The limit on the sockets of a pool of src/services/ConnectionManager.ts.
use workersql.Base.{
  ℕ, ◌+◌, ◌-◌, ◌≤◌, ◌≡◌, ap, refl, inl, inr, Bool, true, false, ◌&&◌, List, [], ◌∷◌, ◌++◌, arith,
  string_eq, nat_eq, length, length-append, ltb, includes, Bool-cases,
}
use workersql.Connection.Pools.{
  ConnectionPool, created, pop, splice_out, acquire_connection, hand_over,
  return_connection_to_pool, release_connection, handle_connection_close, handle_connection_error,
  drop_closed, cleanup_pool, close_shard_connections,
}
use workersql.Connection.Waiting.{
  Event, acquire, release, close, clean, shut, happen, happen_all, pop-length, splice_out-length,
  close_empty,
}

-- The counter of active sockets and the idle ones are within the limit.
unfoldable pub IsWithin : ConnectionPool → Type 0
IsWithin pool = pool.active_connections + length pool.idle_connections ≤ pool.max_connections

acquire_connection-IsWithin :
    (pool : ConnectionPool) (request fresh : ℕ)
    → IsWithin pool
    → IsWithin (acquire_connection pool request fresh).1
unfolding acquire_connection IsWithin
acquire_connection-IsWithin pool request fresh h = elim (pop-length pool.idle_connections) [
  | inr (y, ys, e, size) ↦ rw (e, acquire_connection) (omega (arith, size, h))
  | inl (e, empty) ↦ elim (Bool-cases (ltb pool.active_connections pool.max_connections)) [
    | inl room ↦ rw (e, room, acquire_connection) (ground (arith, room, empty, ap length empty, h))
    | inr full ↦ rw (e, full, acquire_connection) h
  ]
]

hand_over-IsWithin :
    (pool : ConnectionPool) (queue : List ℕ)
    → IsWithin pool
    → IsWithin (hand_over pool queue (pop pool.idle_connections)).1
unfolding hand_over IsWithin
hand_over-IsWithin pool [] h = h
hand_over-IsWithin pool (request ∷ queue) h = elim (pop-length pool.idle_connections) [
  | inl (e, empty) ↦ rw (e, hand_over) h
  | inr (y, ys, e, size) ↦ rw (e, hand_over) (omega (arith, size, h))
]

-- Each release in a sequence is made while a socket is counted as in use.
abbrev counted_as_active : ConnectionPool → Event → Bool
counted_as_active pool (release conn is_valid) = ltb 0 pool.active_connections
counted_as_active pool event = true

unfoldable pub is_paired : ConnectionPool → List Event → Bool
is_paired pool [] = true
is_paired pool (event ∷ events) =
    counted_as_active pool event && is_paired (happen pool event) events

release_connection-IsWithin :
    (pool : ConnectionPool) (conn : ℕ) (is_valid : Bool)
    → ltb 0 pool.active_connections ≡ true
    → IsWithin pool
    → IsWithin (release_connection pool conn is_valid).1
unfolding release_connection return_connection_to_pool
release_connection-IsWithin pool conn true used h =
    hand_over-IsWithin
      (record pool {
        active_connections = pool.active_connections - 1;
        idle_connections = pool.idle_connections ++ conn ∷ [];
      })
      pool.waiting_queue
      (unfold IsWithin in ground (arith, used, h, length-append pool.idle_connections (conn ∷ [])))
release_connection-IsWithin pool conn false used h =
    hand_over-IsWithin (record pool { active_connections = pool.active_connections - 1 })
      pool.waiting_queue (unfold IsWithin in ground (arith, used, h))

handle_connection_close-IsWithin :
    (pool : ConnectionPool) (conn : ℕ)
    → IsWithin pool
    → IsWithin (handle_connection_close pool conn).1
unfolding handle_connection_close return_connection_to_pool
handle_connection_close-IsWithin pool conn h =
    elim (Bool-cases (includes conn pool.idle_connections)) [
      | inl e ↦
          rw (e, handle_connection_close)
            (hand_over-IsWithin
              (record pool { idle_connections = splice_out conn pool.idle_connections })
              pool.waiting_queue
              (unfold IsWithin in
                ground (arith, h, splice_out-length conn pool.idle_connections e)))
      | inr e ↦
          rw (e, handle_connection_close)
            (hand_over-IsWithin (record pool { active_connections = pool.active_connections - 1 })
              pool.waiting_queue (unfold IsWithin in ground (arith, h)))
    ]

drop_closed_le : (is_open : ℕ → Bool) (n : ℕ) (conns : List ℕ) → drop_closed is_open n conns ≤ n
unfolding drop_closed
drop_closed_le is_open n [] = omega arith
drop_closed_le is_open n (conn ∷ conns) =
    ground (arith, drop_closed_le is_open n conns, drop_closed_le is_open (n - 1) conns)

happen-IsWithin :
    (pool : ConnectionPool) (event : Event)
    → counted_as_active pool event ≡ true
    → IsWithin pool
    → IsWithin (happen pool event)
unfolding happen cleanup_pool close_shard_connections
happen-IsWithin pool (acquire request fresh) used h =
    acquire_connection-IsWithin pool request fresh h
happen-IsWithin pool (release conn is_valid) used h =
    release_connection-IsWithin pool conn is_valid used h
happen-IsWithin pool (close conn) used h = handle_connection_close-IsWithin pool conn h
happen-IsWithin pool (clean is_open) used h =
    unfold IsWithin in
    omega (arith, h, drop_closed_le is_open pool.active_connections pool.idle_connections)
happen-IsWithin pool shut used h = unfold IsWithin in omega (arith, h)

-- The counter `active_connections` and the number of idle sockets together stay within the limit of a pool through any
-- sequence of events in which every release is made while the counter is above 0. The counter is not the number
-- of sockets in use where sockets fail.
pub happen_all-IsWithin :
    (pool : ConnectionPool) (events : List Event)
    → is_paired pool events ≡ true
    → IsWithin pool
    → IsWithin (happen_all pool events)
unfolding happen_all is_paired
happen_all-IsWithin pool [] paired h = h
happen_all-IsWithin pool (event ∷ events) paired h =
    happen_all-IsWithin (happen pool event) events (ground (arith, paired))
      (happen-IsWithin pool event (ground (arith, paired)) h)

-- A socket that fails while it is in use is taken off the count of active sockets twice, once for its event
-- `error` and once for its event `close`: with no socket idle, the count drops by 2, and stops at 0.
pub failure_counts_twice :
    (pool : ConnectionPool) (conn : ℕ)
    → pool.idle_connections ≡ []
    → (handle_connection_close (handle_connection_error pool conn).1 conn).1.active_connections
      ≡ pool.active_connections - 2
unfolding handle_connection_error
failure_counts_twice pool conn empty = rw (close_empty pool conn empty) (
    rw (close_empty (record pool { active_connections = pool.active_connections - 1 }) conn empty)
      (omega arith))

close_twice :
    (pool : ConnectionPool) (conn : ℕ)
    → pool.idle_connections ≡ []
    → handle_connection_close (handle_connection_error pool conn).1 conn
      ≡ ([], record pool { active_connections = pool.active_connections - 1 - 1 })
unfolding handle_connection_error
close_twice pool conn empty =
    rw (close_empty pool conn empty)
      (close_empty (record pool { active_connections = pool.active_connections - 1 }) conn empty)

acquire_new :
    (pool : ConnectionPool) (request fresh : ℕ)
    → pool.idle_connections ≡ []
    → ltb pool.active_connections pool.max_connections ≡ true
    → acquire_connection pool request fresh
      ≡ (created fresh, record pool { active_connections = pool.active_connections + 1 })
unfolding acquire_connection pop
acquire_new pool request fresh empty room = rw (ap pop empty, acquire_connection) (rw room refl)

-- In a pool whose limit, of at least 2, is reached by its counter of active sockets, with none idle, a socket that fails
-- makes room for two: after its events `error` and `close` the next two requests, whatever others wait, are both given
-- new sockets, although one was lost, and the counter is at the limit again.
pub failed_socket_exceeds :
    (pool : ConnectionPool) (conn request fresh request' fresh' : ℕ)
    → pool.idle_connections ≡ []
    → pool.active_connections ≡ pool.max_connections
    → 2 ≤ pool.max_connections
    → let failed = (handle_connection_close (handle_connection_error pool conn).1 conn).1 in
      let (first, t) = acquire_connection failed request fresh in
      let (second, u) = acquire_connection t request' fresh' in
      (first ≡ created fresh)
      × (second ≡ created fresh')
      × (u.active_connections ≡ pool.max_connections)
failed_socket_exceeds pool conn request fresh request' fresh' empty full two =
    let n = pool.active_connections - 1 - 1 in
    rw
      (
        close_twice pool conn empty,
        acquire_new (record pool { active_connections = n }) request fresh empty
            (ground (arith, full, two)),
        acquire_new (record pool { active_connections = n + 1 }) request' fresh' empty
            (ground (arith, full, two)),
      )
      (refl, refl, omega (arith, full, two))
