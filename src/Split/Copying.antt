-- ===== src/Split/Copying.antt =====
-- The backfill task of src/services/ShardSplitService.ts: where it may start, and what it does
-- to a plan that another command changed in between.
use workersql.Base.{
  ℕ, ◌≡◌, refl, ◌∙◌, true, List, [], ◌∷◌, some, arith, string_eq, if◌then◌else◌, beq_refl,
}
use workersql.Dict
use workersql.Dict.{Dict, get-put}
use workersql.Kv.{Kv}
use workersql.Errors.{invalid_phase, ok, err}
use workersql.Routing.{key_eq, Doc, RoutingPolicy, get_policy_by_version}
use workersql.Split.Types.{
  tailing, Plan, StoredPlan, is_plan_active, is_dual_write_phase, phase_beq,
}
use workersql.Split.Store.{Service, persist_plan, require_plan}
use workersql.Split.Commands.{rolled_back_plan, rollback}
use workersql.Split.Rollback.{rollback_lem}
use workersql.Split.Shards.{Shards}
use workersql.Split.Backfill.{
  Job, Task, finished, task_of, started_plan, tailing_plan, job_step, task_step, run_backfill,
}

module _ (shards : Shards) {rkv : Kv key_eq Doc} {pkv : Kv string_eq StoredPlan} where
  open shards use {World, Contents, export_rows, import_rows}

  -- A backfill starts in the phases of dual writing only; in another it changes nothing.
  pub run_backfill_lem :
      (s : Service rkv pkv World) (plan : Plan) (now : ℕ)
      → Dict.get s.splits plan.id ≡ some plan
      → run_backfill shards s plan.id now ≡ (
          if is_dual_write_phase plan.phase
          then (
            ok (started_plan plan now, task_of (started_plan plan now)),
            persist_plan s (started_plan plan now),
          )
          else (err invalid_phase, s))
  unfolding run_backfill require_plan
  run_backfill_lem s plan now held = ground arith

  pub task_step_end :
      (s : Service rkv pkv World) (plan : Plan) (task : Task) (now : ℕ)
      → Dict.get s.splits task.split_id ≡ some plan
      → task.jobs ≡ []
      → task_step shards s task now ≡ (finished, persist_plan s (tailing_plan plan now))
  unfolding task_step
  task_step_end s plan task now held e = ground arith

  pub task_step_job :
      (s : Service rkv pkv World) (plan : Plan) (task : Task) (now : ℕ) (job : Job)
      (jobs : List Job)
      → Dict.get s.splits task.split_id ≡ some plan
      → task.jobs ≡ job ∷ jobs
      → task_step shards s task now ≡ job_step shards s plan task jobs job now
  unfolding task_step
  task_step_job s plan task now job jobs held e = ground arith

  -- A plan that is rolled back while its task still runs in the background comes back to life: when
  -- the task's last round has nothing left to copy, the plan is in the phase `tailing` and active
  -- again, although the rollback had succeeded.
  pub rollback_then_finish :
      (s : Service rkv pkv World) (plan : Plan) (policy : RoutingPolicy) (task : Task)
      (now later : ℕ)
      → Dict.get s.splits plan.id ≡ some plan
      → get_policy_by_version rkv s.routing plan.routing_version_at_start ≡ some policy
      → task.split_id ≡ plan.id
      → task.jobs ≡ []
      → ((rollback s plan.id now).0 ≡ ok (rolled_back_plan plan now))
        × ((revived : Plan) × (Dict.get
                (task_step shards (rollback s plan.id now).1 task later).1.splits
                plan.id
              ≡ some revived)
            × (revived.phase ≡ tailing)
            × (is_plan_active revived ≡ true))
  rollback_then_finish s plan policy task now later held stored_policy same done = (
    (rollback_lem s now plan policy held stored_policy).0,
    (
      tailing_plan (rolled_back_plan plan now) later,
      rw
          (task_step_end (rollback s plan.id now).1 (rolled_back_plan plan now) task later at_id
            done)
          (unfold persist_plan tailing_plan rolled_back_plan in
            get-put (rollback s plan.id now).1.splits plan.id plan.id
              (unfold tailing_plan in tailing_plan (rolled_back_plan plan now) later)
            ∙ rw (beq_refl plan.id)),
      unfold tailing_plan in refl,
      unfold tailing_plan is_plan_active phase_beq in refl,
    ),
  )
    where
      at_id :
          Dict.get (rollback s plan.id now).1.splits task.split_id
          ≡ some (rolled_back_plan plan now)
      at_id =
          rw same
            ((rollback_lem s now plan policy held stored_policy).3 plan.id ∙ rw (beq_refl plan.id))
