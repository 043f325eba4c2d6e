-- ===== src/Errors.antt =====
-- `EdgeSQLError` of src/types/index.ts by its code, and the result of a call that may throw one.
use workersql.Base.{String}

pub data Error : Type 0 where
  invalid_policy incompatible_policy version_not_found : Error
  invalid_split config_load_error invalid_phase backfill_failed split_not_found : Error
  no_healthy_shards shard_not_found : Error
  -- an error of the platform or of a caller's function, with its message
  thrown : String → Error

pub data Result {ℓ} (A : Type ℓ) : Type ℓ where
  ok : A → Result A
  err : Error → Result A

-- A call that may throw and keeps what it had written before: the state comes back on both paths.
infixl 5 ◌>>=◌
abbrev pub ◌>>=◌ {ℓ κ} :
    {S : Type 0} {A : Type ℓ} {B : Type κ} → Result A × S → (A → S → Result B × S) → Result B × S
(ok a, s) >>= f = f a s
(err e, s) >>= f = (err e, s)
