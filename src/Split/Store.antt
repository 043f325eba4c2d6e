-- ===== src/Split/Store.antt =====
-- The plans of src/services/ShardSplitService.ts: the map `splits` in memory and its copy in the
-- key-value namespace under `shard_split:plan:<id>`, which is a store of its own here (`plans`), as is
-- the routing policy's (`routing`). A plan in the map is one shared object: whoever holds it sees the
-- fields that another call writes, so every step reads it from the map again. `world` is the state of
-- the shards behind `env.SHARD`.
use workersql.Base.{
  Bool, ◌&&◌, ◌||◌, List, [], ◌∷◌, map, Option, none, some, String, ◌==◌, string_eq, if◌then◌else◌,
  includes, find,
}
use workersql.Base.Sort.{sort_by}
use workersql.Dict
use workersql.Dict.{Dict}
use workersql.Kv.{Kv}
use workersql.Errors.{split_not_found, Result, ok, err}
use workersql.Routing.{key_eq, Doc}
use workersql.Split.Types.{
  completed, cutover_pending, Plan, StoredPlan, Metrics, normalize_plan, stored, phase_beq,
  is_plan_active,
}

module _ (rkv : Kv key_eq Doc) (pkv : Kv string_eq StoredPlan) (World : Type 0) where
  pub record Service : Type 0 where
    pub splits : Dict String Plan
    pub plans : pkv.Store
    pub routing : rkv.Store
    pub world : World

-- `try { … } catch { return null; }`
abbrev plan_or_null : Result Plan → Option Plan
plan_or_null (ok plan) = some plan
plan_or_null (err e) = none

module _ {rkv : Kv key_eq Doc} {pkv : Kv string_eq StoredPlan} {World : Type 0} where
  -- A plan in memory is normalized, so `normalizePlan` returns it as it is.
  unfoldable pub persist_plan : Service rkv pkv World → Plan → Service rkv pkv World
  persist_plan s plan = record s {
    splits = Dict.put s.splits plan.id plan;
    plans = pkv.put s.plans plan.id (stored plan);
  }

  unfoldable pub require_plan : Service rkv pkv World → String → Result Plan × Service rkv pkv World
  require_plan s split_id = elim (Dict.get s.splits split_id) [
    | some plan ↦ (ok plan, s)
    | none ↦ elim (pkv.get s.plans split_id) [
      | none ↦ (err split_not_found, s)
      | some raw ↦ (
        ok (normalize_plan raw),
        record s { splits = Dict.put s.splits split_id (normalize_plan raw) },
      )
    ]
  ]

  -- The plans of `names`, the keys that the namespace lists under the plans' prefix.
  unfoldable pub load_plans_from_kv : Service rkv pkv World → List String → Service rkv pkv World
  load_plans_from_kv s [] = s
  load_plans_from_kv s (name ∷ names) = elim (pkv.get s.plans name) [
    | none ↦ load_plans_from_kv s names
    | some raw ↦
        load_plans_from_kv
          (record s { splits = Dict.put s.splits (normalize_plan raw).id (normalize_plan raw) })
          names
  ]

  unfoldable pub get_plan : Service rkv pkv World → String → Option Plan × Service rkv pkv World
  unfolding require_plan
  get_plan s split_id = let (found, t) = require_plan s split_id in (plan_or_null found, t)

unfoldable pub list_plans : Dict String Plan → List Plan
list_plans splits = sort_by (λ p. p.created_at) (Dict.values splits)

metrics_of : Plan → Metrics
metrics_of plan = record {
  split_id = plan.id;
  source_shard = plan.source_shard;
  target_shard = plan.target_shard;
  phase = plan.phase;
  total_rows_copied = plan.copy.total_rows_copied;
  tenants = plan.tenant_ids;
  started_at = plan.created_at;
  updated_at = plan.updated_at;
  backfill_status = plan.copy.status;
  tail_status = plan.tail.status;
}

unfoldable pub get_metrics : Dict String Plan → List Metrics
unfolding list_plans metrics_of
get_metrics splits = map metrics_of (list_plans splits)

-- The plan that the loops of `resolveReadShard` and `resolveWriteShards` stop at.
abbrev pub serves : String → Plan → Bool
serves tenant_id plan = is_plan_active plan && includes tenant_id plan.tenant_ids

unfoldable pub read_shard : Plan → String
unfolding phase_beq
read_shard plan =
    if phase_beq plan.phase completed || phase_beq plan.phase cutover_pending
    then plan.target_shard
    else plan.source_shard

-- `Array.from(new Set([plan.sourceShard, plan.targetShard]))`
unfoldable pub write_shards : Plan → List String
unfolding phase_beq
write_shards plan =
    if phase_beq plan.phase completed
    then plan.target_shard ∷ []
    else (if plan.source_shard == plan.target_shard
        then plan.source_shard ∷ []
        else plan.source_shard ∷ plan.target_shard ∷ [])

unfoldable pub resolve_read_shard : Dict String Plan → String → String → String
unfolding read_shard
resolve_read_shard splits tenant_id primary_shard =
    elim (find (serves tenant_id) (Dict.values splits)) [
      | some plan ↦ read_shard plan
      | none ↦ primary_shard
    ]

unfoldable pub resolve_write_shards : Dict String Plan → String → String → List String
unfolding write_shards
resolve_write_shards splits tenant_id primary_shard =
    elim (find (serves tenant_id) (Dict.values splits)) [
      | some plan ↦ write_shards plan
      | none ↦ primary_shard ∷ []
    ]
