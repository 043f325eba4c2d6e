-- ===== src/Connection/Waiting.antt =====
-- The waiting requests and the idle sockets of a pool of src/services/ConnectionManager.ts.
use workersql.Base.{
  ℕ, ◌+◌, ◌-◌, ◌≤◌, ◌≡◌, refl, ap, ◌⊎◌, inl, inr, Bool, true, false, List, [], ◌∷◌, ◌++◌, none,
  some, arith, ◌==◌, string_eq, nat_eq, length, length-append, ltb, includes, Bool-cases,
}
use workersql.Connection.Pools.{
  ConnectionPool, pop, splice_out, acquire_connection, hand_over, return_connection_to_pool,
  release_connection, handle_connection_close, cleanup_pool, close_shard_connections,
}

-- A request waits only while no socket is idle.
unfoldable pub IsBalanced : ConnectionPool → Type 0
IsBalanced pool = (pool.idle_connections ≡ []) ⊎ (pool.waiting_queue ≡ [])

pub pop-length :
    (xs : List ℕ)
    → ((pop xs ≡ none) × (xs ≡ []))
      ⊎ ((y : ℕ) × (ys : List ℕ) × (pop xs ≡ some (y, ys)) × (length xs ≡ length ys + 1))
unfolding pop
pop-length [] = inl (refl, refl)
pop-length (x ∷ xs) = elim (pop-length xs) [
  | inl (e, empty) ↦ inr (x, [], rw e refl, ground (arith, empty))
  | inr (y, ys, e, size) ↦ inr (y, x ∷ ys, rw e refl, ground (arith, size))
]

pub splice_out-length :
    (a : ℕ) (xs : List ℕ) → includes a xs ≡ true → length (splice_out a xs) + 1 ≡ length xs
unfolding splice_out
splice_out-length a [] h = absurd (ground (arith, h))
splice_out-length a (x ∷ xs) h = elim (Bool-cases (x == a)) [
  | inl e ↦ rw (e, splice_out) (ground arith)
  | inr e ↦ rw (e, splice_out) (ground (arith, h, e, splice_out-length a xs))
]

-- What a request or a socket does to the pool; a socket that closes or fails is one case.
pub data Event : Type 0 where
  acquire : ℕ → ℕ → Event
  release : ℕ → Bool → Event
  close : ℕ → Event
  clean : (ℕ → Bool) → Event
  shut : Event

unfoldable pub happen : ConnectionPool → Event → ConnectionPool
happen pool (acquire request fresh) = (acquire_connection pool request fresh).1
happen pool (release conn is_valid) = (release_connection pool conn is_valid).1
happen pool (close conn) = (handle_connection_close pool conn).1
happen pool (clean is_open) = (cleanup_pool pool is_open).1
happen pool shut = (close_shard_connections pool).1

unfoldable pub happen_all : ConnectionPool → List Event → ConnectionPool
happen_all pool [] = pool
happen_all pool (event ∷ events) = happen_all (happen pool event) events

empty_length : (xs : List ℕ) → length xs ≤ 0 → xs ≡ []
empty_length [] h = refl
empty_length (x ∷ xs) h = absurd (omega (arith, h))

-- One idle socket at most can be handed over at a time.
hand_over-IsBalanced :
    (pool : ConnectionPool) (queue : List ℕ)
    → pool.waiting_queue ≡ queue
    → (length pool.idle_connections ≤ 1) ⊎ (queue ≡ [])
    → IsBalanced (hand_over pool queue (pop pool.idle_connections)).1
unfolding hand_over IsBalanced
hand_over-IsBalanced pool [] same h = inr same
hand_over-IsBalanced pool (request ∷ queue) same (inr none_left) =
    absurd (ground (arith, none_left))
hand_over-IsBalanced pool (request ∷ queue) same (inl few) =
    elim (pop-length pool.idle_connections) [
      | inl (e, empty) ↦ rw (e, hand_over) (inl empty)
      | inr (y, ys, e, size) ↦ rw (e, hand_over) (inl (empty_length ys (omega (arith, size, few))))
    ]

few_or_none :
    (pool : ConnectionPool)
    → IsBalanced pool
    → (length pool.idle_connections ≤ 0) ⊎ (pool.waiting_queue ≡ [])
unfolding IsBalanced
few_or_none pool (inl empty) = inl (ground (arith, ap length empty))
few_or_none pool (inr none_left) = inr none_left

acquire_connection-IsBalanced :
    (pool : ConnectionPool) (request fresh : ℕ)
    → IsBalanced pool
    → IsBalanced (acquire_connection pool request fresh).1
unfolding acquire_connection IsBalanced
acquire_connection-IsBalanced pool request fresh h = elim (pop-length pool.idle_connections) [
  | inr (y, ys, e, size) ↦ elim h [
    | inl empty ↦ absurd (ground (arith, size, ap length empty))
    | inr none_left ↦ rw (e, acquire_connection) (inr none_left)
  ]
  | inl (e, empty) ↦ elim (Bool-cases (ltb pool.active_connections pool.max_connections)) [
    | inl room ↦ rw (e, room, acquire_connection) (inl empty)
    | inr full ↦ rw (e, full, acquire_connection) (inl empty)
  ]
]

release_connection-IsBalanced :
    (pool : ConnectionPool) (conn : ℕ) (is_valid : Bool)
    → IsBalanced pool
    → IsBalanced (release_connection pool conn is_valid).1
unfolding release_connection return_connection_to_pool
release_connection-IsBalanced pool conn true h =
    hand_over-IsBalanced
      (record pool {
        active_connections = pool.active_connections - 1;
        idle_connections = pool.idle_connections ++ conn ∷ [];
      })
      pool.waiting_queue refl
      (elim (few_or_none pool h) [
        | inl few ↦ inl (ground (arith, length-append pool.idle_connections (conn ∷ []), few))
        | inr none_left ↦ inr none_left
      ])
release_connection-IsBalanced pool conn false h =
    hand_over-IsBalanced (record pool { active_connections = pool.active_connections - 1 })
      pool.waiting_queue refl
      (elim (few_or_none pool h) [
        | inl few ↦ inl (ground (arith, few))
        | inr none_left ↦ inr none_left
      ])

handle_connection_close-IsBalanced :
    (pool : ConnectionPool) (conn : ℕ)
    → IsBalanced pool
    → IsBalanced (handle_connection_close pool conn).1
unfolding handle_connection_close return_connection_to_pool
handle_connection_close-IsBalanced pool conn h =
    elim (Bool-cases (includes conn pool.idle_connections)) [
      | inl e ↦
          rw (e, handle_connection_close)
            (hand_over-IsBalanced
              (record pool { idle_connections = splice_out conn pool.idle_connections })
              pool.waiting_queue refl
              (elim (few_or_none pool h) [
                | inl few ↦
                    inl (ground (arith, few, splice_out-length conn pool.idle_connections e))
                | inr none_left ↦ inr none_left
              ]))
      | inr e ↦
          rw (e, handle_connection_close)
            (hand_over-IsBalanced (record pool { active_connections = pool.active_connections - 1 })
              pool.waiting_queue refl
              (elim (few_or_none pool h) [
                | inl few ↦ inl (ground (arith, few))
                | inr none_left ↦ inr none_left
              ]))
    ]

happen-IsBalanced :
    (pool : ConnectionPool) (event : Event) → IsBalanced pool → IsBalanced (happen pool event)
unfolding happen cleanup_pool close_shard_connections
happen-IsBalanced pool (acquire request fresh) h =
    acquire_connection-IsBalanced pool request fresh h
happen-IsBalanced pool (release conn is_valid) h =
    release_connection-IsBalanced pool conn is_valid h
happen-IsBalanced pool (close conn) h = handle_connection_close-IsBalanced pool conn h
happen-IsBalanced pool (clean is_open) h = unfold IsBalanced in inl refl
happen-IsBalanced pool shut h = unfold IsBalanced in inl refl

-- Whatever requests, releases, closing sockets, cleanups and shutdowns happen to a pool in which a request
-- waits only while no socket is idle, that is so again afterwards.
pub happen_all-IsBalanced :
    (pool : ConnectionPool) (events : List Event)
    → IsBalanced pool
    → IsBalanced (happen_all pool events)
unfolding happen_all
happen_all-IsBalanced pool [] h = h
happen_all-IsBalanced pool (event ∷ events) h =
    happen_all-IsBalanced (happen pool event) events (happen-IsBalanced pool event h)

hand_over-none : (pool : ConnectionPool) (queue : List ℕ) → hand_over pool queue none ≡ ([], pool)
unfolding hand_over
hand_over-none pool [] = refl
hand_over-none pool (request ∷ queue) = refl

pub close_empty :
    (pool : ConnectionPool) (conn : ℕ)
    → pool.idle_connections ≡ []
    → handle_connection_close pool conn
      ≡ ([], record pool { active_connections = pool.active_connections - 1 })
unfolding handle_connection_close return_connection_to_pool pop
close_empty pool conn empty =
    rw (ap (includes conn) empty, handle_connection_close)
      (rw (ap pop empty, return_connection_to_pool)
        (hand_over-none (record pool { active_connections = pool.active_connections - 1 })
          pool.waiting_queue))

-- When a socket in use closes while no socket is idle, every waiting request keeps waiting, also if that
-- makes room for a new socket: with a count of active sockets from 1 up to the limit, the pool could open
-- one afterwards and does not.
pub close_starves :
    (pool : ConnectionPool) (conn : ℕ)
    → pool.idle_connections ≡ []
    → 1 ≤ pool.active_connections
    → pool.active_connections ≤ pool.max_connections
    → ((handle_connection_close pool conn).0 ≡ [])
      × ((handle_connection_close pool conn).1.waiting_queue ≡ pool.waiting_queue)
      × (ltb (handle_connection_close pool conn).1.active_connections pool.max_connections ≡ true)
unfolding handle_connection_close return_connection_to_pool
close_starves pool conn empty some_in_use within =
    rw (close_empty pool conn empty) (refl, refl, ground (arith, some_in_use, within))
