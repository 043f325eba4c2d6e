-- ===== src/Shard/Changes.antt =====
-- The log of changes of src/services/TableShard.ts and its pages.
use workersql.Base.{
  ℕ, ◌+◌, ◌<◌, Bool, ◌&&◌, List, [], ◌∷◌, ◌++◌, Option, String, arith, ltb, leb, max, filter,
  nat_eq, string_eq,
}
use workersql.Shard.Service.{
  Operation, Engine, Change, ChangeType, Shard, next_id, of_tenant, record_change_event,
}

module _ {P : Type 0} where
  -- Strictly rising identifiers above a bound.
  abbrev pub Rises : ℕ → List (Change P) → Type 0
  Rises n [] = Unit
  Rises n (c ∷ cs) = (n < c.id) × Rises c.id cs

  abbrev pub last_id : ℕ → List (Change P) → ℕ
  last_id n [] = n
  last_id n (c ∷ cs) = last_id c.id cs

  abbrev above : ℕ → List (Change P) → List (Change P)
  above n cs = filter (λ c. ltb n c.id) cs

  snoc-Rises :
      (n : ℕ) (cs : List (Change P)) (d : Change P)
      → last_id n cs < d.id
      → Rises n cs
      → Rises n (cs ++ d ∷ [])
  snoc-Rises n [] d lt r = (lt, tt)
  snoc-Rises n (c ∷ cs) d lt (h, r) = (h, snoc-Rises c.id cs d lt r)

  last_id-next_id : (n : ℕ) (cs : List (Change P)) → last_id n cs < max (n + 1) (next_id cs)
  last_id-next_id n [] = omega arith
  last_id-next_id n (c ∷ cs) = omega (arith, last_id-next_id c.id cs)

  next_id-positive : (cs : List (Change P)) → 0 < next_id cs
  next_id-positive [] = omega arith
  next_id-positive (c ∷ cs) = omega arith

module _ (engine : Engine) (shard_id : String) (gb : ℕ) where
  open engine use {Params}

  -- The log of changes of a shard: identifiers from 1 on, each above the ones before it.
  abbrev pub IsLog : Shard engine → Type 0
  IsLog s = Rises 0 s.events

  pub record_change_event-IsLog :
      (s : Shard engine) (change_type : ChangeType) (tenant : String) (op : Operation Params)
      (now : ℕ)
      → IsLog s
      → IsLog (record_change_event engine shard_id gb s change_type tenant op now)
  unfolding record_change_event
  record_change_event-IsLog s change_type tenant op now log =
      snoc-Rises 0 s.events _ (omega (arith, last_id-next_id 0 s.events, next_id-positive s.events))
        log

  abbrev wanted : ℕ → Option String → Change Params → Bool
  wanted since tenant c = leb since c.ts && of_tenant tenant c.tenant_id
