-- ===== src/Client/Leases.antt =====
-- Who holds the connections of the pool of sdk/node/src/connection-pool.ts.
use workersql.Base.{
  ℕ, ◌+◌, ◌≤◌, ◌≡◌, refl, ap, ◌∙◌, sym, inl, inr, true, false, not, ◌||◌, List, [], ◌∷◌, some,
  String, arith, ◌==◌, ltb, max, nat_eq, length, includes, includes-filter, string_eq, Bool-cases,
  Option-cases, beq_comm, subst,
}
use workersql.Dict
use workersql.Dict.{Dict, get-put, get-delete}
use workersql.Dict.Counting.{length-put, length-put_old, length-delete}
use workersql.Client.Pool.{
  PooledConnection, ConnectionPoolOptions, Pool, create_connection, create_each, new_pool, is_idle,
  first_idle, Acquired, acquired, pool_closed, waiting, acquire, check_waiting, release,
  connections_to_remove, delete_all, perform_health_check, active_count, close, close_round,
}
use workersql.Client.Exclusive.{
  leased, returned, IsExclusive, IsWithin, IsSafe, take-IsExclusive, create-IsExclusive,
  take-IsWithin, acquire_cases, check_cases, idle_first,
}

-- The pools that calls and ticks lead to, each with the connections that are handed out. A new identifier is
-- that of no connection that is handed out.
pub data Reachable (options : ConnectionPoolOptions) : Pool → List String → Type 0 where
  made :
      (new_ids : ℕ → List String) (now : ℕ)
      → ((n : ℕ) → length (new_ids n) ≡ n)
      → Reachable options (new_pool options new_ids now) []
  acquires :
      (p : Pool) (leases : List String) (new_id : String) (now : ℕ)
      → Reachable options p leases
      → includes new_id leases ≡ false
      → Reachable options (acquire p new_id now).1 (leased (acquire p new_id now).0 leases)
  ticks :
      (p : Pool) (leases : List String) (now : ℕ)
      → Reachable options p leases
      → Reachable options (check_waiting p now).1 (leased (check_waiting p now).0 leases)
  releases :
      (p : Pool) (leases : List String) (id : String) (now : ℕ)
      → Reachable options p leases
      → Reachable options (release p id now) (returned id leases)
  checks :
      (p : Pool) (leases : List String) (now : ℕ)
      → Reachable options p leases
      → Reachable options (perform_health_check p now) leases
  closes :
      (p : Pool) (leases : List String)
      → Reachable options p leases
      → Reachable options (close p) leases
  waits_to_close :
      (p : Pool) (leases : List String) (waited : ℕ)
      → Reachable options p leases
      → Reachable options (close_round p waited) leases

acquire-IsSafe :
    (p : Pool) (leases : List String) (new_id : String) (now : ℕ)
    → includes new_id leases ≡ false
    → IsSafe p leases
    → IsSafe (acquire p new_id now).1 (leased (acquire p new_id now).0 leases)
acquire-IsSafe p leases new_id now new (held, within) = elim (acquire_cases p new_id now) [
  | inl (id, _, e) ↦ rw e (take-IsExclusive p leases id now held, take-IsWithin p id now within)
  | inr (inl (room, e)) ↦ rw e (
    take-IsExclusive (create_connection p new_id now) leases new_id now
        (create-IsExclusive p leases new_id now new held),
    take-IsWithin (create_connection p new_id now) new_id now
        (unfold create_connection in omega (arith, room, length-put p.connections new_id _)),
  )
  | inr (inr (inl e)) ↦ rw e (held, within)
  | inr (inr (inr e)) ↦ rw e (held, within)
]

check_waiting-IsSafe :
    (p : Pool) (leases : List String) (now : ℕ)
    → IsSafe p leases
    → IsSafe (check_waiting p now).1 (leased (check_waiting p now).0 leases)
check_waiting-IsSafe p leases now (held, within) = elim (check_cases p now) [
  | inl (id, _, e) ↦ rw e (take-IsExclusive p leases id now held, take-IsWithin p id now within)
  | inr e ↦ rw e (held, within)
]

still_leased :
    (id j : String) (leases : List String)
    → includes j (returned id leases) ≡ true
    → (includes j leases ≡ true) × ((id == j) ≡ false)
still_leased id j leases h =
    let both = sym (includes-filter j (λ other. not (other == id)) leases) ∙ h in
    (ground (arith, both), ground (arith, both, beq_comm id j))

release-IsSafe :
    (p : Pool) (leases : List String) (id : String) (now : ℕ)
    → IsSafe p leases
    → IsSafe (release p id now) (returned id leases)
unfolding release
release-IsSafe p leases id now (held, within) = elim (Option-cases (Dict.get p.connections id)) [
  | inl e ↦ rw (e, release) ((λ j member. held j (still_leased id j leases member).0), within)
  | inr (c, e) ↦
      rw (e, release)
        (
          λ j member.
              let (m, miss) = still_leased id j leases member in
              rw (get-put p.connections id j (record c { in_use = false; last_used = now }))
                (rw miss (held j m)),
          omega (
            arith,
            within,
            length-put_old p.connections id (record c { in_use = false; last_used = now }) c e,
          ),
        )
]

idle-delete_all :
    (m : Dict String PooledConnection) (ids : List String) (j : String)
    → is_idle (Dict.get m j) ≡ false
    → is_idle (Dict.get (delete_all m ids) j) ≡ false
idle-delete_all m [] j h = h
idle-delete_all m (id ∷ ids) j h =
    idle-delete_all (Dict.delete m id) ids j
      (rw (get-delete m id j) (elim (Bool-cases (id == j)) [ inl e ↦ rw e refl | inr e ↦ rw e h ]))

length-delete_all :
    (m : Dict String PooledConnection) (ids : List String) → length (delete_all m ids) ≤ length m
length-delete_all m [] = omega arith
length-delete_all m (id ∷ ids) =
    omega (arith, length-delete m id, length-delete_all (Dict.delete m id) ids)

check-IsSafe :
    (p : Pool) (leases : List String) (now : ℕ)
    → IsSafe p leases
    → IsSafe (perform_health_check p now) leases
unfolding perform_health_check
check-IsSafe p leases now (held, within) = (
  λ j member. idle-delete_all p.connections (connections_to_remove p now) j (held j member),
  omega (arith, within, length-delete_all p.connections (connections_to_remove p now)),
)

close_round-IsSafe :
    (p : Pool) (leases : List String) (waited : ℕ)
    → IsSafe p leases
    → IsSafe (close_round p waited) leases
unfolding close_round Dict.get
close_round-IsSafe p leases waited safe =
    elim (Bool-cases (active_count p == 0 || not (ltb waited 5000))) [
      | inl e ↦ rw e ((λ j member. refl), omega arith)
      | inr e ↦ rw e safe
    ]

-- A pool that only `create_each` has changed.
record Created (p : Pool) (n : ℕ) (q : Pool) : Type 0 where
  size : length q.connections ≤ length p.connections + n
  least : q.min_connections ≡ p.min_connections
  most : q.max_connections ≡ p.max_connections

create_each-Created :
    (p : Pool) (ids : List String) (now : ℕ) → Created p (length ids) (create_each p ids now)
unfolding create_each
create_each-Created p [] now = record { size = omega arith; least = refl; most = refl }
create_each-Created p (id ∷ ids) now =
    let rest = create_each-Created (create_connection p id now) ids now in
    record {
      size = unfold create_connection in omega (arith, rest.size, length-put p.connections id _);
      least = unfold create_connection in rest.least;
      most = unfold create_connection in rest.most;
    }

fresh-IsWithin :
    {p q : Pool} {n : ℕ}
    → Created p n q
    → length p.connections ≡ 0
    → n ≡ p.min_connections
    → IsWithin q
fresh-IsWithin c empty all = omega (arith, c.size, c.least, c.most, empty, all)

new_pool-IsWithin :
    (options : ConnectionPoolOptions) (new_ids : ℕ → List String) (now : ℕ)
    → ((n : ℕ) → length (new_ids n) ≡ n)
    → IsWithin (new_pool options new_ids now)
unfolding new_pool
new_pool-IsWithin options new_ids now sizes =
    fresh-IsWithin (create_each-Created _ (new_ids _) now) refl (sizes _)

close-IsSafe : (p : Pool) (leases : List String) → IsSafe p leases → IsSafe (close p) leases
unfolding close
close-IsSafe p leases safe = safe

Reachable-IsSafe :
    (options : ConnectionPoolOptions) (p : Pool) (leases : List String)
    → Reachable options p leases
    → IsSafe p leases
Reachable-IsSafe options _ _ (made new_ids now sizes) =
    ((λ j member. cc), new_pool-IsWithin options new_ids now sizes)
Reachable-IsSafe options _ _ (acquires p ls new_id now r new) =
    acquire-IsSafe p ls new_id now new (Reachable-IsSafe options p ls r)
Reachable-IsSafe options _ _ (ticks p ls now r) =
    check_waiting-IsSafe p ls now (Reachable-IsSafe options p ls r)
Reachable-IsSafe options _ _ (releases p ls id now r) =
    release-IsSafe p ls id now (Reachable-IsSafe options p ls r)
Reachable-IsSafe options _ _ (checks p ls now r) =
    check-IsSafe p ls now (Reachable-IsSafe options p ls r)
Reachable-IsSafe options _ _ (closes p ls r) = close-IsSafe p ls (Reachable-IsSafe options p ls r)
Reachable-IsSafe options _ _ (waits_to_close p ls waited r) =
    close_round-IsSafe p ls waited (Reachable-IsSafe options p ls r)

id_of : Acquired → String
id_of (acquired id) = id
id_of pool_closed = ""
id_of waiting = ""

acquired_same : {id got : String} → acquired id ≡ acquired got → id ≡ got
unfolding id_of
acquired_same e = ap id_of e

idle_unleased :
    (p : Pool) (leases : List String)
    → IsExclusive p leases
    → (id got : String) → first_idle p ≡ some id
    → acquired id ≡ acquired got
    → includes got leases ≡ false
idle_unleased p leases held id got first same = elim (Bool-cases (includes got leases)) [
  | inr free ↦ free
  | inl taken_by ↦
      absurd
        (ground (arith, held got taken_by, idle_first p got (first ∙ ap some (acquired_same same))))
]

-- In every pool that calls and ticks lead to there are at most as many connections as the larger one of the two limits,
-- and a connection that `acquire`, at once or after waiting, hands out is not one that somebody holds.
pub acquire-exclusive :
    (options : ConnectionPoolOptions) (p : Pool) (leases : List String) (new_id id : String)
    (now : ℕ)
    → Reachable options p leases
    → includes new_id leases ≡ false
    → (length p.connections ≤ max p.min_connections p.max_connections)
      × ((acquire p new_id now).0 ≡ acquired id → includes id leases ≡ false)
      × ((check_waiting p now).0 ≡ acquired id → includes id leases ≡ false)
acquire-exclusive options p leases new_id id now r new =
    let (held, within) = Reachable-IsSafe options p leases r in
    (
      within,
      λ got. elim (acquire_cases p new_id now) [
        | inl (other, first, e) ↦
            idle_unleased p leases held other id first (sym (ap (λ x. x.0) e) ∙ got)
        | inr (inl (_, e)) ↦
            subst (λ k. includes k leases ≡ false) (acquired_same (sym (ap (λ x. x.0) e) ∙ got)) new
        | inr (inr (inl e)) ↦ absurd (ground (arith, ap (λ x. x.0) e, got))
        | inr (inr (inr e)) ↦ absurd (ground (arith, ap (λ x. x.0) e, got))
      ],
      λ got. elim (check_cases p now) [
        | inl (other, first, e) ↦
            idle_unleased p leases held other id first (sym (ap (λ x. x.0) e) ∙ got)
        | inr e ↦ absurd (ground (arith, ap (λ x. x.0) e, got))
      ],
    )
