-- ===== src/Split/Commands.antt =====
-- The commands of src/services/ShardSplitService.ts that change a plan and the routing policy:
-- `planSplit`, `startDualWrite`, `cutover` and `rollback`. The id of `crypto.randomUUID()`, the table
-- policies of the configuration and the time are arguments.
use Prim.Native.String.{◌++◌ as str_append}
use workersql.Base.{
  ℕ, ◌+◌, Bool, false, not, ◌&&◌, List, [], ◌∷◌, Option, none, some, String, ◌==◌, string_eq,
  if◌then◌else◌, includes, find, any, filter,
}
use workersql.Dict
use workersql.Dict.{Dict}
use workersql.Kv.{Kv}
use workersql.Errors.{invalid_split, config_load_error, invalid_phase, Result, ok, err, ◌>>=◌}
use workersql.Routing.{
  key_eq, Doc, RoutingPolicy, Stringified, get_current_version, get_policy_by_version,
  update_current_policy, rollback_to_version,
}
use workersql.Split.Types.{
  planning, dual_write, completed, cutover_pending, rolled_back, BackfillStatus, TailStatus, Plan,
  StoredPlan, TablePolicy, Backfill, Tail, phase_beq, is_plan_active, is_caught_up, fresh_backfill,
  fresh_tail,
}
use workersql.Split.Store.{Service, persist_plan, require_plan, list_plans}
use workersql.Split.Texts.{dedup, sort_texts}

pub record CreateSplitInput : Type 0 where
  pub source_shard : String
  pub target_shard : String
  pub tenant_ids : List String

-- `existing.tenantIds.some((tenantId) => dedupTenants.includes(tenantId))` of an active plan.
unfoldable pub conflicts_with : List String → Plan → Bool
conflicts_with tenants existing =
    is_plan_active existing && any (λ t. includes t tenants) existing.tenant_ids

-- `routingPolicy.tenants[tenantId] === input.sourceShard`
abbrev pub is_routed_to : Option String → String → Bool
is_routed_to none shard = false
is_routed_to (some s) shard = s == shard

unfoldable pub mismatched_tenants : RoutingPolicy → String → List String → List String
mismatched_tenants policy source_shard =
    filter (λ t. not (is_routed_to (Dict.get policy.tenants t) source_shard))

unfoldable pub new_plan :
    CreateSplitInput → String → List String → Dict String TablePolicy → ℕ → ℕ → Plan
new_plan input id tenants table_policies now version = record {
  head = record {
    id = id;
    source_shard = input.source_shard;
    target_shard = input.target_shard;
    tenant_ids = tenants;
    table_policies = table_policies;
    created_at = now;
    routing_version_at_start = version;
  };
  progress = record {
    updated_at = now;
    phase = planning;
    dual_write_started_at = none;
    routing_version_cutover = none;
    rollback_version = none;
    error_message = none;
  };
  copy = fresh_backfill;
  tail = fresh_tail;
}

-- A status that is set back, with its two times deleted; the cursors and the counter stay.
abbrev pub backfill_pending : Backfill → Backfill
backfill_pending b = record b {
  status = BackfillStatus.pending;
  started_at = none;
  completed_at = none;
}

abbrev pub tail_pending : Tail → Tail
tail_pending t = record t { status = TailStatus.pending; started_at = none; completed_at = none }

abbrev pub tail_restarted : Tail → Tail
tail_restarted t = record {
  status = TailStatus.pending;
  last_event_id = none;
  last_event_ts = none;
  started_at = none;
  completed_at = none;
}

unfoldable pub dual_written : Plan → ℕ → Plan
dual_written plan now = record plan {
  progress = record plan.progress {
    phase = dual_write;
    dual_write_started_at = some now;
    updated_at = now;
    error_message = none;
  };
  copy = backfill_pending plan.copy;
  tail = tail_pending plan.tail;
}

unfoldable pub rolled_back_plan : Plan → ℕ → Plan
rolled_back_plan plan now = record plan {
  progress = record plan.progress {
    phase = rolled_back;
    rollback_version = some plan.routing_version_at_start;
    updated_at = now;
    error_message = none;
  };
  copy = backfill_pending plan.copy;
  tail = tail_restarted plan.tail;
}

unfoldable pub completed_plan : Plan → ℕ → ℕ → Plan
completed_plan plan version now = record plan {
  progress = record plan.progress {
    phase = completed;
    routing_version_cutover = some version;
    updated_at = now;
  };
}

-- The loop that sends each tenant of the plan to the target shard.
unfoldable pub assign_tenants : Dict String String → List String → String → Dict String String
assign_tenants tenants [] shard = tenants
assign_tenants tenants (t ∷ ts) shard = assign_tenants (Dict.put tenants t shard) ts shard

unfoldable pub cutover_policy : RoutingPolicy → Plan → RoutingPolicy
unfolding assign_tenants
cutover_policy policy plan = record policy {
  tenants = assign_tenants policy.tenants plan.tenant_ids plan.target_shard;
  version = policy.version + 1;
}

abbrev pub cutover_description : Plan → String
cutover_description plan = str_append "Split " (str_append plan.id " cutover")

module _ {rkv : Kv key_eq Doc} {pkv : Kv string_eq StoredPlan} {World : Type 0} where
  -- The checks of `planSplit` after the two on its input, for the sorted tenants.
  unfoldable pub plan_tenants :
      Service rkv pkv World
      → CreateSplitInput
      → List String
      → String
      → Dict String TablePolicy
      → ℕ
      → Result Plan × Service rkv pkv World
  plan_tenants s input tenants id table_policies now =
      let current_version = get_current_version rkv s.routing in
      elim (find (conflicts_with tenants) (list_plans s.splits)) [
        | some conflicting_plan ↦ (err invalid_split, s)
        | none ↦ elim (get_policy_by_version rkv s.routing current_version) [
          | none ↦ (err config_load_error, s)
          | some policy ↦ elim (mismatched_tenants policy input.source_shard tenants) [
            | t ∷ ts ↦ (err invalid_split, s)
            | [] ↦
                let plan = new_plan input id tenants table_policies now current_version in
                (ok plan, persist_plan s plan)
          ]
        ]
      ]

  unfoldable pub plan_split :
      Service rkv pkv World
      → CreateSplitInput
      → String
      → Dict String TablePolicy
      → ℕ
      → Result Plan × Service rkv pkv World
  unfolding plan_tenants
  plan_split s input id table_policies now = elim input.tenant_ids [
    | [] ↦ (err invalid_split, s)
    | t ∷ ts ↦
        if input.source_shard == input.target_shard
        then (err invalid_split, s)
        else plan_tenants s input (sort_texts (dedup (t ∷ ts))) id table_policies now
  ]

  unfoldable pub start_dual_write :
      Service rkv pkv World → String → ℕ → Result Plan × Service rkv pkv World
  start_dual_write s split_id now = require_plan s split_id >>= λ plan t.
      (ok (dual_written plan now), persist_plan t (dual_written plan now))

  module _ (digest : Stringified → String) where
    -- The part of `cutover` behind its two guards.
    unfoldable pub cut_over : Service rkv pkv World → Plan → ℕ → Result Plan × Service rkv pkv World
    cut_over s plan now =
        elim (get_policy_by_version rkv s.routing (get_current_version rkv s.routing)) [
          | none ↦ (err config_load_error, s)
          | some policy ↦
              let (published, routing) =
                update_current_policy rkv digest s.routing (cutover_policy policy plan)
                  (some (cutover_description plan)) now in
              elim published [
                | err e ↦ (err e, record s { routing = routing })
                | ok version ↦ (
                  ok (completed_plan plan version now),
                  persist_plan (record s { routing = routing }) (completed_plan plan version now),
                )
              ]
        ]

    unfoldable pub cutover :
        Service rkv pkv World → String → ℕ → Result Plan × Service rkv pkv World
    unfolding cut_over
    cutover s split_id now = require_plan s split_id >>= λ plan t.
        if not (phase_beq plan.phase cutover_pending)
        then (err invalid_phase, t)
        else (if not (is_caught_up plan.tail.status)
            then (err invalid_phase, t)
            else cut_over t plan now)

  unfoldable pub rollback : Service rkv pkv World → String → ℕ → Result Plan × Service rkv pkv World
  rollback s split_id now = require_plan s split_id >>= λ plan t.
      let (moved, routing) = rollback_to_version rkv t.routing plan.routing_version_at_start in
      elim moved [
        | err e ↦ (err e, record t { routing = routing })
        | ok done ↦ (
          ok (rolled_back_plan plan now),
          persist_plan (record t { routing = routing }) (rolled_back_plan plan now),
        )
      ]
