-- ===== src/Client/Exclusive.antt =====
-- Taking connections from the pool of sdk/node/src/connection-pool.ts: nobody's connection is idle.
use workersql.Base.{
  ℕ, ◌+◌, ◌≤◌, ◌≡◌, refl, ap, ◌∙◌, sym, ◌⊎◌, inl, inr, true, false, not, ◌&&◌, ◌||◌, List, ◌∷◌,
  some, String, arith, ◌==◌, ltb, max, nat_eq, filter, find-some, length, includes, string_eq,
  Bool-cases, Option-cases, beq_cases, subst,
}
use workersql.Dict
use workersql.Dict.{Dict, get-put, get-delete}
use workersql.Dict.Counting.{length-put_old}
use workersql.Client.Pool.{
  PooledConnection, Pool, create_connection, is_idle, first_idle, take_connection, Acquired,
  acquired, pool_closed, waiting, acquire, check_waiting,
}

-- The identifiers of the connections that are handed out.
abbrev pub leased : Acquired → List String → List String
leased (acquired id) leases = id ∷ leases
leased pool_closed leases = leases
leased waiting leases = leases

abbrev pub returned : String → List String → List String
returned id leases = filter (λ other. not (other == id)) leases

-- No connection that is handed out is idle.
abbrev pub IsExclusive : Pool → List String → Type 0
IsExclusive p leases =
    (id : String) → includes id leases ≡ true → is_idle (Dict.get p.connections id) ≡ false

pub idle_first :
    (p : Pool) (id : String) → first_idle p ≡ some id → is_idle (Dict.get p.connections id) ≡ true
idle_first p id e =
    find-some (λ j. is_idle (Dict.get p.connections j)) (Dict.keys p.connections) id e

taken : PooledConnection → ℕ → PooledConnection
taken c now = record c { in_use = true; last_used = now; use_count = c.use_count + 1 }

take_found :
    (p : Pool) (id : String) (now : ℕ) (c : PooledConnection)
    → Dict.get p.connections id ≡ some c
    → take_connection p id now ≡ record p { connections = Dict.put p.connections id (taken c now) }
unfolding take_connection taken
take_found p id now c e = rw (e, take_connection)

-- A connection that was taken is idle no more, and the others are as they were.
idle-take :
    (p : Pool) (id j : String) (now : ℕ)
    → is_idle (Dict.get (take_connection p id now).connections j)
      ≡ (is_idle (Dict.get p.connections j) && not (id == j))
unfolding take_connection taken
idle-take p id j now = elim (Option-cases (Dict.get p.connections id)) [
  | inl e ↦
      rw (e, take_connection)
        (elim (beq_cases id j) [
          | inl (same, hit) ↦
              ground (arith, ap (λ x. is_idle x) (ap (Dict.get p.connections) (sym same) ∙ e), hit)
          | inr miss ↦ ground (arith, miss)
        ])
  | inr (c, e) ↦ rw (take_found p id now c e) (
      rw (get-put p.connections id j (taken c now)) (elim (Bool-cases (id == j)) [
        | inl hit ↦ rw hit (ground arith)
        | inr miss ↦ rw miss (ground arith)
      ]))
]

idle-create :
    (p : Pool) (id j : String) (now : ℕ)
    → is_idle (Dict.get (create_connection p id now).connections j)
      ≡ (id == j || is_idle (Dict.get p.connections j))
unfolding create_connection
idle-create p id j now =
    rw (get-put p.connections id j _)
      (elim (Bool-cases (id == j)) [ inl hit ↦ rw hit refl | inr miss ↦ rw miss refl ])

pub take-IsExclusive :
    (p : Pool) (leases : List String) (id : String) (now : ℕ)
    → IsExclusive p leases
    → IsExclusive (take_connection p id now) (id ∷ leases)
take-IsExclusive p leases id now held j member = elim (Bool-cases (id == j)) [
  | inl hit ↦ ground (arith, idle-take p id j now, hit)
  | inr miss ↦ ground (arith, idle-take p id j now, miss, member, held j)
]

pub create-IsExclusive :
    (p : Pool) (leases : List String) (id : String) (now : ℕ)
    → includes id leases ≡ false
    → IsExclusive p leases
    → IsExclusive (create_connection p id now) leases
create-IsExclusive p leases id now new held j member = elim (beq_cases id j) [
  | inl (same, hit) ↦
      absurd (ground (arith, subst (λ k. includes k leases ≡ false) same new, member))
  | inr miss ↦ ground (arith, idle-create p id j now, miss, held j)
]

-- As many connections as the options allow.
abbrev pub IsWithin : Pool → Type 0
IsWithin p = length p.connections ≤ max p.min_connections p.max_connections

abbrev pub IsSafe : Pool → List String → Type 0
IsSafe p leases = IsExclusive p leases × IsWithin p

pub take-IsWithin :
    (p : Pool) (id : String) (now : ℕ) → IsWithin p → IsWithin (take_connection p id now)
unfolding take_connection
take-IsWithin p id now le = elim (Option-cases (Dict.get p.connections id)) [
  | inl e ↦ rw (e, take_connection) le
  | inr (c, e) ↦
      rw (take_found p id now c e)
        (omega (arith, le, length-put_old p.connections id (taken c now) c e))
]

-- What `acquire` does, by cases.
pub acquire_cases :
    (p : Pool) (new_id : String) (now : ℕ)
    → ((id : String) × (first_idle p ≡ some id)
        × (acquire p new_id now ≡ (acquired id, take_connection p id now)))
      ⊎ ((length p.connections + 1 ≤ p.max_connections)
          × (acquire p new_id now
              ≡ (acquired new_id, take_connection (create_connection p new_id now) new_id now)))
      ⊎ (acquire p new_id now ≡ (waiting, p))
      ⊎ (acquire p new_id now ≡ (pool_closed, p))
unfolding acquire
acquire_cases p new_id now = elim (Bool-cases p.closed) [
  | inl c ↦ inr (inr (inr (simp (c, acquire))))
  | inr c ↦ elim (Option-cases (first_idle p)) [
    | inr (id, e) ↦ inl (id, e, simp (c, e, acquire))
    | inl e ↦ elim (Bool-cases (ltb (length p.connections) p.max_connections)) [
      | inl room ↦ inr (inl (ground (arith, room), simp (c, e, room, acquire)))
      | inr full ↦ inr (inr (inl (simp (c, e, full, acquire))))
    ]
  ]
]

pub check_cases :
    (p : Pool) (now : ℕ)
    → ((id : String) × (first_idle p ≡ some id)
        × (check_waiting p now ≡ (acquired id, take_connection p id now)))
      ⊎ (check_waiting p now ≡ (waiting, p))
unfolding check_waiting
check_cases p now = elim (Option-cases (first_idle p)) [
  | inr (id, e) ↦ inl (id, e, rw (e, check_waiting) refl)
  | inl e ↦ inr (rw (e, check_waiting) refl)
]
