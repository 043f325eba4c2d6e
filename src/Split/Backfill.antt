-- ===== src/Split/Backfill.antt =====
-- `runBackfill`, `executeBackfill` and `backfillTable` of src/services/ShardSplitService.ts. The
-- background task is a state machine: one step is one round of the loop of `backfillTable`, from one
-- `yieldToEventLoop` to the next, and reads the plan from the map again, since the task holds the
-- object that the map holds and other commands may have written to it in between.
use Prim.Native.String.{◌++◌ as str_append}
use workersql.Base.{
  ℕ, zero, suc, ◌+◌, List, [], ◌∷◌, ◌++◌, Option, none, some, String, ◌==◌, string_eq,
  if◌then◌else◌, length,
}
use workersql.Dict
use workersql.Dict.{Dict}
use workersql.Kv.{Kv}
use workersql.Errors.{
  Error, invalid_phase, backfill_failed, split_not_found, Result, ok, err, ◌>>=◌,
}
use workersql.Routing.{key_eq, Doc}
use workersql.Split.Types.{
  backfill, tailing, BackfillStatus, Plan, StoredPlan, TablePolicy, is_dual_write_phase, or_else,
}
use workersql.Split.Store.{Service, persist_plan, require_plan}
use workersql.Split.Commands.{tail_restarted}
use workersql.Split.Shards.{Row, Shards}

pub record Job : Type 0 where
  pub tenant_id : String
  pub table_name : String
  pub tenant_column : String

-- The cursor is `none` until the first round of the job at the head.
pub record Task : Type 0 where
  pub split_id : String
  pub jobs : List Job
  pub cursor : Option (Option ℕ)

pub data Outcome : Type 0 where
  running : Task → Outcome
  finished : Outcome
  failed : Error → Outcome

-- The tables that have a shard column, which is not empty.
table_jobs : String → Dict String TablePolicy → List Job
table_jobs tenant [] = []
table_jobs tenant ((name, policy) ∷ tables) = elim policy.shard_by [
  | none ↦ table_jobs tenant tables
  | some column ↦
      (if column == ""
        then []
        else record { tenant_id = tenant; table_name = name; tenant_column = column } ∷ [])
      ++ table_jobs tenant tables
]

jobs_of : List String → Dict String TablePolicy → List Job
unfolding table_jobs
jobs_of [] tables = []
jobs_of (tenant ∷ tenants) tables = table_jobs tenant tables ++ jobs_of tenants tables

unfoldable pub task_of : Plan → Task
unfolding jobs_of
task_of plan = record {
  split_id = plan.id;
  jobs = jobs_of plan.tenant_ids plan.table_policies;
  cursor = none;
}

abbrev pub cursor_key : Job → String
cursor_key job = str_append job.tenant_id (str_append ":" job.table_name)

-- `plan.backfill!.tableCursor[cursorKey] ?? null`, and later the cursor of the last answer.
abbrev pub resume_cursor : Option (Option ℕ) → Option ℕ → Option ℕ
resume_cursor none stored_cursor = stored_cursor
resume_cursor (some cursor) stored_cursor = cursor

last_rowid : {C : Type 0} → ℕ → List (Row C) → ℕ
last_rowid before [] = before
last_rowid before (row ∷ rows) = last_rowid row.rowid rows

unfoldable pub started_plan : Plan → ℕ → Plan
started_plan plan now = record plan {
  progress = record plan.progress { phase = backfill; updated_at = now; error_message = none };
  copy = record plan.copy {
    status = BackfillStatus.running;
    started_at = some (or_else plan.copy.started_at now);
  };
}

unfoldable pub copied_plan : {C : Type 0} → Plan → Job → List (Row C) → ℕ → Plan
unfolding last_rowid
copied_plan plan job rows now = record plan {
  progress = record plan.progress { updated_at = now };
  copy = record plan.copy {
    total_rows_copied = plan.copy.total_rows_copied + length rows;
    table_cursor = Dict.put plan.copy.table_cursor (cursor_key job) (last_rowid 0 rows);
  };
}

unfoldable pub tailing_plan : Plan → ℕ → Plan
tailing_plan plan now = record plan {
  progress = record plan.progress { phase = tailing; updated_at = now };
  copy = record plan.copy { status = BackfillStatus.completed; completed_at = some now };
  tail = tail_restarted plan.tail;
}

-- `message` is the text of the error.
unfoldable pub failed_plan : Plan → String → ℕ → Plan
failed_plan plan message now = record plan {
  progress = record plan.progress { updated_at = now; error_message = some message };
  copy = record plan.copy { status = BackfillStatus.failed };
}

abbrev next_task : Task → List Job → Job → Option ℕ → Task
next_task task jobs job none = record task { jobs = jobs; cursor = none }
next_task task jobs job (some n) = record task { jobs = job ∷ jobs; cursor = some (some n) }

module _ (shards : Shards) {rkv : Kv key_eq Doc} {pkv : Kv string_eq StoredPlan} where
  open shards use {World, Contents, export_rows, import_rows}

  fail_task : Service rkv pkv World → Plan → String → ℕ → Outcome × Service rkv pkv World
  fail_task s plan message now =
      (failed backfill_failed, persist_plan s (failed_plan plan message now))

  -- The rows of an answer: none ends the table, others are imported at the target.
  unfoldable pub import_page :
      Service rkv pkv World
      → Plan
      → Task
      → List Job
      → Job
      → Option ℕ
      → ℕ
      → List (Row Contents)
      → Outcome × Service rkv pkv World
  unfolding fail_task
  import_page s plan task jobs job next now [] =
      (running (record task { jobs = jobs; cursor = none }), s)
  import_page s plan task jobs job next now (row ∷ rows) =
      let (imported, world) = import_rows s.world plan.target_shard job.table_name (row ∷ rows) in
      if imported
      then (
        running (next_task task jobs job next),
        persist_plan (record s { world = world }) (copied_plan plan job (row ∷ rows) now),
      )
      else fail_task (record s { world = world }) plan
          (str_append "Failed to import rows for " job.table_name) now

  unfoldable pub job_step :
      Service rkv pkv World → Plan → Task → List Job → Job → ℕ → Outcome × Service rkv pkv World
  unfolding fail_task
  job_step s plan task jobs job now =
      let cursor = resume_cursor task.cursor (Dict.get plan.copy.table_cursor (cursor_key job)) in
      let (response, world) =
        export_rows s.world plan.source_shard job.table_name job.tenant_id job.tenant_column
          (or_else cursor 0) 200 in
      elim response [
        | none ↦
            fail_task (record s { world = world }) plan
              (str_append "Failed to export rows for " job.table_name) now
        | some page ↦
            import_page (record s { world = world }) plan task jobs job page.next_cursor now
              (or_else page.rows [])
      ]

  -- One step of the task, for the plan that the map holds.
  plan_step : Service rkv pkv World → Plan → Task → ℕ → List Job → Outcome × Service rkv pkv World
  plan_step s plan task now [] = (finished, persist_plan s (tailing_plan plan now))
  plan_step s plan task now (job ∷ jobs) = job_step s plan task jobs job now

  unfoldable pub task_step : Service rkv pkv World → Task → ℕ → Outcome × Service rkv pkv World
  unfolding plan_step
  task_step s task now = elim (Dict.get s.splits task.split_id) [
    | none ↦ (failed split_not_found, s)
    | some plan ↦ plan_step s plan task now task.jobs
  ]

  -- The task alone, to its end; `none` means that the rounds ran out.
  unfoldable pub run_task :
      ℕ → Service rkv pkv World → Task → ℕ → Option (Result (Unit {0}) × Service rkv pkv World)
  run_task zero s task now = none
  run_task (suc rounds) s task now =
      let (outcome, t) = task_step s task now in
      elim outcome [
        | running task' ↦ run_task rounds t task' now
        | finished ↦ some (ok tt, t)
        | failed e ↦ some (err e, t)
      ]

  -- With an execution context the task is left to the background, and the plan comes back at once.
  unfoldable pub run_backfill :
      Service rkv pkv World → String → ℕ → Result (Plan × Task) × Service rkv pkv World
  run_backfill s split_id now = require_plan s split_id >>= λ plan t.
      if is_dual_write_phase plan.phase
      then (
        ok (started_plan plan now, task_of (started_plan plan now)),
        persist_plan t (started_plan plan now),
      )
      else (err invalid_phase, t)
