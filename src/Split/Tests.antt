-- ===== src/Split/Tests.antt =====
-- Tests of src/services/ShardSplitService.ts, and its theorems at concrete states.
use workersql.Base.{
  ℕ, ◌+◌, ◌≡◌, refl, ◌⊎◌, true, false, List, [], ◌∷◌, none, some, String, arith, if◌then◌else◌, ltb,
  any, includes, find, string_eq, nat_eq, length,
}
use workersql.Base.Sort.{sort_by, sort_up}
use workersql.Dict
use workersql.Dict.{Dict}
use workersql.Kv.{Kv, dict_kv}
use workersql.Errors.{Error, invalid_split, invalid_phase, Result, ok, err}
use workersql.Routing.{
  RoutingPolicy, policy_key, version_key, key_eq, Doc, policy_doc, version_doc, Stringified,
  get_current_version, get_policy_by_version, update_current_policy, rollback_to_version,
  validate_policy_compatibility, create_new_version, version_info,
}
use workersql.Split.Types.{
  planning, tailing, cutover_pending, rolled_back, TailStatus, Plan, StoredPlan, is_plan_active,
  phase_beq, normalize_plan, is_dual_write_phase, fresh_backfill, fresh_tail,
}
use workersql.Split.Store.{
  Service, serves, persist_plan, require_plan, list_plans, resolve_read_shard, resolve_write_shards,
  read_shard, write_shards,
}
use workersql.Split.Texts.{dedup, sort_texts, is_select, is_ddl}
use workersql.Split.Commands.{
  CreateSplitInput, plan_split, start_dual_write, cutover, rollback, dual_written, completed_plan,
  rolled_back_plan, cutover_policy, new_plan, conflicts_with, mismatched_tenants,
}
use workersql.Split.Routes.{reads_from, resolve_shards_lem}
use workersql.Split.Planning.{Planned, plan_split_lem}
use workersql.Split.Cutover.{cutover_routes, current_route}
use workersql.Split.Rollback.{rollback_restores_routes}
use workersql.Split.Exclusive.{Exclusive}
use workersql.Split.Histories.{
  Command, plans, dual_writes, backfills, replays, rolls_back, run, run-Exclusive,
}
use workersql.Split.Shards.{Page, Event, Shards}
use workersql.Split.Backfill.{
  Task, started_plan, run_backfill, task_step, run_task, job_step, import_page, copied_plan,
}
use workersql.Split.Replay.{
  replay_tail, replay_plan, replay_batch, finish_tail, apply_events, replaying_plan, caught_up_plan,
  applied_plan, is_relevant,
}
use workersql.Split.Copying.{rollback_then_finish}
use workersql.Split.Termination.{CursorsRise, run_task_total}
use workersql.Split.Tailing.{pending, RisesAbove, apply_events_lem}

-- A shard of two rows, and a count of the rows and statements that reached the target.
abbrev two_rows : ℕ → Page (Unit {0})
two_rows cursor = record {
  rows = some (if ltb cursor 2 then record { rowid = cursor + 1; contents = tt } ∷ [] else []);
  next_cursor = if ltb cursor 1 then some (cursor + 1) else none;
}

abbrev insert_event : ℕ → Event (Unit {0})
insert_event n = record {
  id = n;
  ts = 20;
  tenant_id = some "ann";
  sql = some "INSERT INTO t VALUES (1)";
  params = none;
}

abbrev shards : Shards
shards = record {
  World = ℕ;
  Contents = Unit {0};
  Params = Unit {0};
  no_params = tt;
  export_rows = λ w shard table tenant column cursor limit. (some (two_rows cursor), w);
  import_rows = λ w shard table rows. (true, w + length rows);
  fetch_events = λ w shard since after limit.
      (some (record { success = true; events = some (insert_event 8 ∷ insert_event 7 ∷ []) }), w);
  apply_sql = λ w shard ddl sql params tenant. (true, w + 1);
}

abbrev pub rkv : Kv key_eq Doc
rkv = dict_kv key_eq Doc

abbrev pub pkv : Kv string_eq StoredPlan
pkv = dict_kv string_eq StoredPlan

abbrev State : Type 0
State = Service rkv pkv ℕ

abbrev pub digest : Stringified → String
digest d = "sum"

abbrev pub policy : RoutingPolicy
policy = record { version = 1; tenants = ("ann", "shard_0") ∷ ("bob", "shard_0") ∷ []; ranges = [] }

abbrev start : State
start = record {
  splits = [];
  plans = [];
  routing = (policy_key 1, policy_doc policy) ∷ (version_key, version_doc 1) ∷ [];
  world = 0;
}

abbrev request : CreateSplitInput
request = record {
  source_shard = "shard_0";
  target_shard = "shard_1";
  tenant_ids = "ann" ∷ "ann" ∷ [];
}

abbrev first_plan : Plan
first_plan = record {
  head = record {
    id = "s1";
    source_shard = "shard_0";
    target_shard = "shard_1";
    tenant_ids = "ann" ∷ [];
    table_policies = [];
    created_at = 10;
    routing_version_at_start = 1;
  };
  progress = record {
    updated_at = 10;
    phase = planning;
    dual_write_started_at = none;
    routing_version_cutover = none;
    rollback_version = none;
    error_message = none;
  };
  copy = fresh_backfill;
  tail = fresh_tail;
}

abbrev pub ready_plan : Plan
ready_plan = record first_plan {
  progress = record first_plan.progress {
    phase = cutover_pending;
    dual_write_started_at = some 20;
  };
  tail = record first_plan.tail { status = TailStatus.caught_up };
}

abbrev pub with_plan : Plan → State
with_plan plan = record start { splits = (plan.id, plan) ∷ [] }

unfoldable pub split : Unit {0}
unfolding plan_split start_dual_write cutover rollback require_plan persist_plan list_plans sort_by
    get_current_version get_policy_by_version update_current_policy rollback_to_version version_info
    validate_policy_compatibility create_new_version dedup sort_texts conflicts_with
    mismatched_tenants new_plan is_plan_active phase_beq dual_written completed_plan
    rolled_back_plan cutover_policy Dict.get Dict.put Dict.has normalize_plan resolve_read_shard
    resolve_write_shards read_shard write_shards
split = tt

planned_test : (plan_split start request "s1" [] 10).0 ≡ ok first_plan
unfolding split
planned_test = refl

conflict_test : (plan_split (with_plan first_plan) request "s2" [] 11).0 ≡ err invalid_split
unfolding split
conflict_test = refl

pending_test :
    (resolve_read_shard (with_plan ready_plan).splits "ann" "p" ≡ "shard_1")
    × (resolve_write_shards (with_plan ready_plan).splits "ann" "p" ≡ "shard_0" ∷ "shard_1" ∷ [])
    × (resolve_write_shards (with_plan first_plan).splits "ann" "p" ≡ "shard_0" ∷ "shard_1" ∷ [])
unfolding split
pending_test = (refl, refl, refl)

classify_test :
    (is_select "  select 1" ≡ true) × (is_ddl "Create table t" ≡ true) × (is_ddl "UPDATE t" ≡ false)
unfolding is_select is_ddl
classify_test = (refl, refl, refl)

cutover_routes_example :
    current_route rkv (cutover digest (with_plan ready_plan) "s1" 50).1.routing "ann"
    ≡ some "shard_1"
unfolding split
cutover_routes_example =
    (cutover_routes digest (with_plan ready_plan) 50 "s1" ready_plan policy refl refl refl refl
        (refl, refl) refl).2
      "ann"

rollback_restores_routes_example :
    current_route rkv (rollback (with_plan ready_plan) "s1" 60).1.routing "ann" ≡ some "shard_0"
unfolding split
rollback_restores_routes_example =
    rollback_restores_routes start (with_plan ready_plan) request "s1" [] 10 60 first_plan
      ready_plan refl refl refl refl "ann" refl

plan_split_example :
    ((e : Error) × (plan_split start request "s1" [] 10 ≡ (err e, start)))
    ⊎ ((plan : Plan) × (t : State) × (plan_split start request "s1" [] 10 ≡ (ok plan, t))
        × Planned start request "s1" [] 10 request.tenant_ids plan t)
plan_split_example = plan_split_lem start request "s1" [] 10

resolve_shards_example :
    ((any (serves "ann") (Dict.values (with_plan ready_plan).splits) ≡ false)
      × (resolve_read_shard (with_plan ready_plan).splits "ann" "p" ≡ "p")
      × (resolve_write_shards (with_plan ready_plan).splits "ann" "p" ≡ "p" ∷ []))
    ⊎ ((plan : Plan) × (find (serves "ann") (Dict.values (with_plan ready_plan).splits) ≡ some plan)
        × (is_plan_active plan ≡ true)
        × (includes "ann" plan.tenant_ids ≡ true)
        × (resolve_read_shard (with_plan ready_plan).splits "ann" "p" ≡ reads_from plan)
        × (includes plan.source_shard (resolve_write_shards (with_plan ready_plan).splits "ann" "p")
            ≡ true)
        × (includes plan.target_shard (resolve_write_shards (with_plan ready_plan).splits "ann" "p")
            ≡ true))
resolve_shards_example = resolve_shards_lem (with_plan ready_plan).splits "ann" "p"

abbrev lifecycle : List (Command × ℕ)
lifecycle =
    (plans request "s1" [], 10)
    ∷ (dual_writes "s1", 20)
    ∷ (backfills "s1", 30)
    ∷ (replays "s1", 40)
    ∷ (rolls_back "s1", 50)
    ∷ []

run-Exclusive_example : Exclusive (run shards digest start lifecycle).splits
unfolding split run run_backfill replay_tail replay_plan replay_batch finish_tail apply_events
    started_plan replaying_plan caught_up_plan applied_plan is_relevant is_select is_ddl sort_up
    is_dual_write_phase
run-Exclusive_example =
    run-Exclusive shards digest start lifecycle
      (
        refl,
        (
          (first_plan, refl, refl, refl),
          ((dual_written first_plan 20, refl, refl), ((_, refl, refl), ((_, refl, refl), tt))),
        ),
      )
      (λ t. omega arith)

abbrev undone_plan : Plan
undone_plan = record first_plan { progress = record first_plan.progress { phase = rolled_back } }

abbrev second_plan : Plan
second_plan = record first_plan { head = record first_plan.head { id = "s2" } }

abbrev two_plans : State
two_plans = record start { splits = ("s1", undone_plan) ∷ ("s2", second_plan) ∷ [] }

backfill_test : (run_backfill shards (with_plan first_plan) "s1" 40).0 ≡ err invalid_phase
unfolding split run_backfill is_dual_write_phase
backfill_test = refl

abbrev no_jobs : Task
no_jobs = record { split_id = "s1"; jobs = []; cursor = none }

rollback_then_finish_example :
    (revived : Plan) × (Dict.get
        (task_step shards (rollback (with_plan ready_plan) "s1" 60).1 no_jobs 70).1.splits
        "s1"
      ≡ some revived)
    × (revived.phase ≡ tailing)
    × (is_plan_active revived ≡ true)
unfolding get_policy_by_version Dict.get
rollback_then_finish_example =
    (rollback_then_finish shards (with_plan ready_plan) ready_plan policy no_jobs 60 70 refl refl
      refl refl).1

abbrev one_job : Task
one_job = record {
  split_id = "s1";
  jobs = record { tenant_id = "ann"; table_name = "t"; tenant_column = "c" } ∷ [];
  cursor = none;
}

shards-CursorsRise : CursorsRise shards 2
shards-CursorsRise w shard table tenant column cursor limit n page e f = ground (arith, e, f)

copy_test :
    run_task shards 5 (with_plan first_plan) one_job 40
    ≡ run_task shards 9 (with_plan first_plan) one_job 40
unfolding run_task task_step split job_step import_page copied_plan
copy_test = refl

run_task_total_example :
    (r : Result (Unit {0}) × State) × (run_task shards 5 (with_plan first_plan) one_job 40 ≡ some r)
unfolding Dict.get
run_task_total_example =
    run_task_total shards 2 5 (with_plan first_plan) first_plan one_job 40 shards-CursorsRise refl
      refl (omega arith)

abbrev events : List (Event (Unit {0}))
events = insert_event 7 ∷ insert_event 8 ∷ []

apply_events_example : RisesAbove 7 (pending first_plan.tenant_ids 7 events)
apply_events_example =
    (apply_events_lem shards {rkv = rkv} {pkv = pkv} (with_plan first_plan) first_plan 7 events
      50).4
