-- ===== src/Client/Health.antt =====
-- What the health check of sdk/node/src/connection-pool.ts removes.
use workersql.Base.{
  ℕ, ◌≡◌, refl, ◌∙◌, sym, inl, inr, Bool, false, ◌&&◌, List, [], ◌∷◌, none, String, arith, ◌==◌,
  if◌then◌else◌, ltb, length, includes, includes-filter, string_eq, Bool-cases,
}
use workersql.Dict
use workersql.Dict.{Dict, get-delete, includes-keys}
use workersql.Client.Pool.{
  PooledConnection, Pool, is_expired, delete_all, connections_to_remove, perform_health_check,
}

get-delete_all :
    (m : Dict String PooledConnection) (ids : List String) (j : String)
    → Dict.get (delete_all m ids) j ≡ (if includes j ids then none else Dict.get m j)
get-delete_all m [] j = refl
get-delete_all m (id ∷ ids) j =
    get-delete_all (Dict.delete m id) ids j
    ∙ rw (get-delete m id j) (elim (Bool-cases (id == j)) [
      | inl e ↦ rw e (elim (Bool-cases (includes j ids)) [ inl f ↦ rw f refl | inr f ↦ rw f refl ])
      | inr e ↦ rw e refl
    ])

abbrev is_removed : Pool → ℕ → String → Bool
is_removed p now id =
    is_expired p now (Dict.get p.connections id) && ltb p.min_connections (length p.connections)

get-has_not :
    (m : Dict String PooledConnection) (k : String) → Dict.has m k ≡ false → Dict.get m k ≡ none
unfolding Dict.has Dict.get
get-has_not [] k h = refl
get-has_not ((j, v) ∷ m) k h = ground (arith, get-has_not m k)

-- A health check of a pool that has more connections than its lower limit removes every connection that is idle for too
-- long, be there any left or not; it keeps the others, and of a pool that is not larger than the limit it keeps all.
pub get-perform_health_check :
    (p : Pool) (now : ℕ) (id : String)
    → Dict.get (perform_health_check p now).connections id ≡ (
        if is_expired p now (Dict.get p.connections id)
          && ltb p.min_connections (length p.connections)
        then none
        else Dict.get p.connections id)
unfolding perform_health_check
get-perform_health_check p now id =
    get-delete_all p.connections (connections_to_remove p now) id
    ∙ rw (includes-filter id (is_removed p now) (Dict.keys p.connections))
        (elim (Bool-cases (includes id (Dict.keys p.connections))) [
          | inl e ↦ rw e refl
          | inr e ↦
              rw (e, get-has_not p.connections id (sym (includes-keys p.connections id) ∙ e)) refl
        ])
