-- ===== src/Split/Termination.antt =====
-- The backfill task of src/services/ShardSplitService.ts ends.
use workersql.Base.{
  subst, ℕ, zero, suc, ◌+◌, ◌-◌, ◌*◌, ◌<◌, ◌≤◌, ◌≡◌, refl, ◌⊎◌, inl, inr, ap, sym, ◌∙◌, List, [],
  ◌∷◌, Option, none, some, String, arith, string_eq, length, Bool-cases, Option-cases, beq_refl,
}
use workersql.Dict
use workersql.Dict.{Dict, get-put}
use workersql.Kv.{Kv}
use workersql.Errors.{Error, Result}
use workersql.Routing.{key_eq, Doc}
use workersql.Split.Types.{Plan, StoredPlan, or_else}
use workersql.Split.Store.{Service, persist_plan}
use workersql.Split.Planning.{List-cases}
use workersql.Split.Shards.{Row, Page, Shards}
use workersql.Split.Copying.{task_step_end, task_step_job}
use workersql.Split.Backfill.{
  Job, Task, Outcome, running, finished, failed, copied_plan, resume_cursor, cursor_key,
  import_page, job_step, task_step, run_task,
}

-- The cursors of the export rise, and stay within a bound on the row numbers.
abbrev pub CursorsRise : Shards → ℕ → Type 0
CursorsRise shards bound =
    (w : shards.World) (shard table tenant column : String) (cursor limit n : ℕ)
    (page : Page shards.Contents)
    → (shards.export_rows w shard table tenant column cursor limit).0 ≡ some page
    → page.next_cursor ≡ some n
    → (cursor < n) × (n ≤ bound)

abbrev pub cursor_of : Plan → Task → Job → ℕ
cursor_of plan task job =
    or_else (resume_cursor task.cursor (Dict.get plan.copy.table_cursor (cursor_key job))) 0

-- The rounds that a task with the given jobs can still take.
abbrev pub rounds_left : ℕ → Plan → Task → List Job → ℕ
rounds_left bound plan task [] = 0
rounds_left bound plan task (job ∷ jobs) =
    length jobs * (bound + 2) + (1 + (bound + 1 - cursor_of plan task job))

rounds_left-le :
    (bound : ℕ) (plan : Plan) (task : Task) (jobs : List Job)
    → rounds_left bound plan task jobs ≤ length jobs * (bound + 2)
rounds_left-le bound plan task [] = omega arith
rounds_left-le bound plan task (job ∷ jobs) = omega arith

id-copied_plan :
    {C : Type 0} (plan : Plan) (job : Job) (rows : List (Row C)) (now : ℕ)
    → (copied_plan plan job rows now).id ≡ plan.id
unfolding copied_plan
id-copied_plan plan job rows now = refl

module _ (shards : Shards) {rkv : Kv key_eq Doc} {pkv : Kv string_eq StoredPlan} where
  open shards use {World, Contents, export_rows, import_rows}

  -- A step fails, or goes on with fewer rounds left, the plan still in the map under its id.
  abbrev Advances : ℕ → ℕ → String → Outcome × Service rkv pkv World → Type 0
  Advances bound before id (outcome, t) =
      ((e : Error) × (outcome ≡ failed e))
      ⊎ ((task : Task) × (plan : Plan) × (outcome ≡ running task)
          × (task.split_id ≡ id)
          × (Dict.get t.splits id ≡ some plan)
          × (plan.id ≡ id)
          × (rounds_left bound plan task task.jobs < before))

  copied_held :
      (s : Service rkv pkv World) (plan : Plan) (job : Job) (rows : List (Row Contents))
      (id : String) (now : ℕ)
      → plan.id ≡ id
      → Dict.get (persist_plan s (copied_plan plan job rows now)).splits id
        ≡ some (copied_plan plan job rows now)
  unfolding persist_plan
  copied_held s plan job rows id now same =
      get-put s.splits (copied_plan plan job rows now).id id (copied_plan plan job rows now)
      ∙ rw (id-copied_plan plan job rows now ∙ same, beq_refl id)

  import_page-Advances :
      (bound : ℕ) (s : Service rkv pkv World) (plan : Plan) (task : Task) (jobs : List Job)
      (job : Job) (next : Option ℕ) (now : ℕ) (rows : List (Row Contents))
      → Dict.get s.splits task.split_id ≡ some plan
      → plan.id ≡ task.split_id
      → ((n : ℕ) → next ≡ some n → (cursor_of plan task job < n) × (n ≤ bound))
      → Advances bound
          (rounds_left bound plan task (job ∷ jobs))
          task.split_id
          (import_page shards s plan task jobs job next now rows)
  unfolding import_page
  import_page-Advances bound s plan task jobs job next now [] held same rise = inr (
    _,
    plan,
    refl,
    refl,
    held,
    same,
    omega (arith, rounds_left-le bound plan (record task { jobs = jobs; cursor = none }) jobs),
  )
  import_page-Advances bound s plan task jobs job none now (row ∷ rows) held same rise =
      elim (Bool-cases (import_rows s.world plan.target_shard job.table_name (row ∷ rows)).0) [
        | inr e ↦ rw e (inl (_, refl))
        | inl e ↦ rw e (
            inr (
              _,
              copied_plan plan job (row ∷ rows) now,
              refl,
              refl,
              copied_held _ plan job (row ∷ rows) task.split_id now same,
              id-copied_plan plan job (row ∷ rows) now ∙ same,
              omega (
                arith,
                rounds_left-le bound (copied_plan plan job (row ∷ rows) now)
                    (record task { jobs = jobs; cursor = none }) jobs,
              ),
            ))
      ]
  import_page-Advances bound s plan task jobs job (some n) now (row ∷ rows) held same rise =
      elim (Bool-cases (import_rows s.world plan.target_shard job.table_name (row ∷ rows)).0) [
        | inr e ↦ rw e (inl (_, refl))
        | inl e ↦ rw e (
            inr (
              _,
              copied_plan plan job (row ∷ rows) now,
              refl,
              refl,
              copied_held _ plan job (row ∷ rows) task.split_id now same,
              id-copied_plan plan job (row ∷ rows) now ∙ same,
              omega (arith, rise n refl),
            ))
      ]

  job_step-Advances :
      (bound : ℕ) (s : Service rkv pkv World) (plan : Plan) (task : Task) (jobs : List Job)
      (job : Job) (now : ℕ)
      → CursorsRise shards bound
      → Dict.get s.splits task.split_id ≡ some plan
      → plan.id ≡ task.split_id
      → Advances bound
          (rounds_left bound plan task (job ∷ jobs))
          task.split_id
          (job_step shards s plan task jobs job now)
  unfolding job_step
  job_step-Advances bound s plan task jobs job now rise held same =
      elim (Option-cases
        (export_rows s.world plan.source_shard job.table_name job.tenant_id job.tenant_column
          (cursor_of plan task job) 200).0) [
            | inl e ↦ rw (e, job_step) (inl (_, refl))
            | inr (page, e) ↦
                rw (e, job_step)
                  (import_page-Advances bound _ plan task jobs job page.next_cursor now
                    (or_else page.rows []) held same (λ n f. rise _ _ _ _ _ _ _ n page e f))
          ]

  abbrev Ends : Option (Result (Unit {0}) × Service rkv pkv World) → Type 0
  Ends o = (r : Result (Unit {0}) × Service rkv pkv World) × (o ≡ some r)

  run_failed :
      (rounds : ℕ) (s : Service rkv pkv World) (task : Task) (now : ℕ) (e : Error)
      → (task_step shards s task now).0 ≡ failed e
      → Ends (run_task shards (suc rounds) s task now)
  unfolding run_task
  run_failed rounds s task now e h = rw (h, run_task) (_, refl)

  run_finished :
      (rounds : ℕ) (s : Service rkv pkv World) (task : Task) (now : ℕ)
      → (task_step shards s task now).0 ≡ finished
      → Ends (run_task shards (suc rounds) s task now)
  unfolding run_task
  run_finished rounds s task now h = rw (h, run_task) (_, refl)

  run_running :
      (rounds : ℕ) (s : Service rkv pkv World) (task task' : Task) (now : ℕ)
      → (task_step shards s task now).0 ≡ running task'
      → run_task shards (suc rounds) s task now
        ≡ run_task shards rounds (task_step shards s task now).1 task' now
  unfolding run_task
  run_running rounds s task task' now h = rw (h, run_task)

  run_from :
      (bound rounds : ℕ) (s : Service rkv pkv World) (plan : Plan) (task : Task) (now : ℕ)
      → CursorsRise shards bound
      → Dict.get s.splits task.split_id ≡ some plan
      → plan.id ≡ task.split_id
      → rounds_left bound plan task task.jobs < rounds
      → Ends (run_task shards rounds s task now)
  run_from bound zero s plan task now rise held same enough = absurd (omega arith)
  run_from bound (suc rounds) s plan task now rise held same enough = elim (List-cases task.jobs) [
    | inl e ↦
        run_finished rounds s task now (ap (λ r. r.0) (task_step_end shards s plan task now held e))
    | inr (job, jobs, e) ↦
        let step = task_step_job shards s plan task now job jobs held e in
        elim (job_step-Advances bound s plan task jobs job now rise held same) [
          | inl (c, f) ↦ run_failed rounds s task now c (ap (λ r. r.0) step ∙ f)
          | inr (task', plan', f, same_id, held', id', less) ↦
              rw (run_running rounds s task task' now (ap (λ r. r.0) step ∙ f), step)
                (run_from bound rounds (job_step shards s plan task jobs job now).1 plan' task' now
                  rise
                  (subst
                    (λ i.
                      Dict.get (job_step shards s plan task jobs job now).1.splits i ≡ some plan')
                    (sym same_id) held')
                  (id' ∙ sym same_id) (omega (arith, less, ap (rounds_left bound plan task) e)))
        ]
  ]

  -- Started on a plan in memory, with a round for every row number up to the bound and two more for
  -- each table, the task does not run out of rounds, if the export's cursors rise within the bound.
  pub run_task_total :
      (bound rounds : ℕ) (s : Service rkv pkv World) (plan : Plan) (task : Task) (now : ℕ)
      → CursorsRise shards bound
      → Dict.get s.splits task.split_id ≡ some plan
      → plan.id ≡ task.split_id
      → length task.jobs * (bound + 2) < rounds
      → (r : Result (Unit {0}) × Service rkv pkv World) × (run_task shards rounds s task now
          ≡ some r)
  run_task_total bound rounds s plan task now rise held same enough =
      run_from bound rounds s plan task now rise held same
        (omega (arith, rounds_left-le bound plan task task.jobs))
