-- ===== src/Split/Restart.antt =====
-- Plans of src/services/ShardSplitService.ts across a restart of the worker.
use workersql.Base.{◌≡◌, ◌∙◌, [], ◌∷◌, some, string_eq, beq_refl}
use workersql.Dict
use workersql.Dict.{Dict}
use workersql.Kv.{Kv}
use workersql.Errors.{ok}
use workersql.Routing.{key_eq, Doc}
use workersql.Split.Types.{Plan, StoredPlan, stored, normalize_plan-stored}
use workersql.Split.Store.{Service, persist_plan, require_plan}

module _ {rkv : Kv key_eq Doc} {pkv : Kv string_eq StoredPlan} {World : Type 0} where
  stored_plan :
      (s : Service rkv pkv World) (plan : Plan)
      → pkv.get (persist_plan s plan).plans plan.id ≡ some (stored plan)
  unfolding persist_plan
  stored_plan s plan = pkv.get-put s.plans plan.id plan.id (stored plan) ∙ rw (beq_refl plan.id)

  -- What was persisted is found again by an instance that starts with an empty memory: `requirePlan`
  -- reads the plan from the namespace, as it was, and keeps it in memory.
  pub restart_lem :
      (s : Service rkv pkv World) (plan : Plan)
      → require_plan (record (persist_plan s plan) { splits = [] }) plan.id
        ≡ (ok plan, record (persist_plan s plan) { splits = (plan.id, plan) ∷ [] })
  unfolding require_plan Dict.get Dict.put
  restart_lem s plan = rw (stored_plan s plan, require_plan, normalize_plan-stored plan)
