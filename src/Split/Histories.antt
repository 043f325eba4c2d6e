-- ===== src/Split/Histories.antt =====
-- Sequences of the administrative commands of src/services/ShardSplitService.ts.
use workersql.Base.{
  ℕ, ◌≡◌, refl, inl, inr, sym, ◌∙◌, subst, true, false, List, [], ◌∷◌, none, some, String, arith,
  string_eq, includes, all, count, Option-cases,
}
use workersql.Dict
use workersql.Dict.{Dict, get-put}
use workersql.Kv.{Kv}
use workersql.Routing.{key_eq, Doc, Stringified, get_policy_by_version}
use workersql.Split.Types.{Plan, StoredPlan, TablePolicy, is_plan_active, phase_beq}
use workersql.Split.Store.{Service, serves, persist_plan}
use workersql.Split.Planning.{plan_split_lem}
use workersql.Dict.Counting.{count-put_old}
use workersql.Split.Exclusive.{Exclusive, put_new-Exclusive, put_old-Exclusive}
use workersql.Split.Cutover.{cutover_lem}
use workersql.Split.Shards.{Shards}
use workersql.Split.Backfill.{run_backfill}
use workersql.Split.Replay.{replay_tail}
use workersql.Split.Replaying.{run_backfill-Exclusive, replay_tail-Exclusive}
use workersql.Split.Rollback.{rollback_done, rollback_missing_version, start_dual_write_lem}
use workersql.Split.Commands.{
  CreateSplitInput, plan_split, dual_written, start_dual_write, completed_plan, rolled_back_plan,
  rollback, cutover,
}

pub data Command : Type 0 where
  plans : CreateSplitInput → String → Dict String TablePolicy → Command
  dual_writes backfills replays cuts_over rolls_back : String → Command

persist_old-Exclusive :
    (splits : Dict String Plan) (old plan : Plan)
    → Dict.get splits old.id ≡ some old
    → plan.id ≡ old.id
    → ((u : String) → serves u plan ≡ true → serves u old ≡ true)
    → Exclusive splits
    → Exclusive (Dict.put splits plan.id plan)
persist_old-Exclusive splits old plan held same less ex =
    put_old-Exclusive splits old plan (rw same held) less ex

held_under :
    (splits : Dict String Plan) (plan : Plan) {id : String}
    → plan.id ≡ id
    → Dict.get splits id ≡ some plan
    → Dict.get splits plan.id ≡ some plan
held_under splits plan same held = subst (λ i. Dict.get splits i ≡ some plan) (sym same) held

module _ (shards : Shards) {rkv : Kv key_eq Doc} {pkv : Kv string_eq StoredPlan}
    (digest : Stringified → String) where
  open shards use {World}

  -- The state after a command at a time, whether it succeeded or not.
  unfoldable pub step : Service rkv pkv World → Command × ℕ → Service rkv pkv World
  step s (plans input id pols, now) = (plan_split s input id pols now).1
  step s (dual_writes id, now) = (start_dual_write s id now).1
  step s (backfills id, now) = (run_backfill shards s id now).1
  step s (replays id, now) = (replay_tail shards s id now).1
  step s (cuts_over id, now) = (cutover digest s id now).1
  step s (rolls_back id, now) = (rollback s id now).1

  unfoldable pub run : Service rkv pkv World → List (Command × ℕ) → Service rkv pkv World
  unfolding step
  run s [] = s
  run s (c ∷ cs) = run (step s c) cs

  -- The command names a plan that is in memory under its own id.
  abbrev pub Names : Service rkv pkv World → String → Type 0
  Names s id = (plan : Plan) × (Dict.get s.splits id ≡ some plan) × (plan.id ≡ id)

  -- A new plan comes under an id of its own, and dual writing starts only for a plan that is active.
  abbrev pub Allowed : Service rkv pkv World → Command → Type 0
  Allowed s (plans input id pols) = Dict.get s.splits id ≡ none
  Allowed s (dual_writes id) =
      (plan : Plan) × (Dict.get s.splits id ≡ some plan)
      × (plan.id ≡ id)
      × (is_plan_active plan ≡ true)
  Allowed s (backfills id) = Names s id
  Allowed s (replays id) = Names s id
  Allowed s (cuts_over id) = Names s id
  Allowed s (rolls_back id) = Names s id

  plan_split-Exclusive :
      (s : Service rkv pkv World) (input : CreateSplitInput) (id : String)
      (pols : Dict String TablePolicy) (now : ℕ)
      → Dict.get s.splits id ≡ none
      → Exclusive s.splits
      → Exclusive (plan_split s input id pols now).1.splits
  plan_split-Exclusive s input id pols now fresh ex = elim (plan_split_lem s input id pols now) [
    | inl (e, refused) ↦ rw refused ex
    | inr (p, t, accepted, done) ↦
        rw (accepted, done.written)
          (unfold persist_plan in
            put_new-Exclusive s.splits p (rw done.named fresh)
              (λ u h. done.unserved u (sym (done.same_tenants u) ∙ h)) ex)
  ]

  dual_write-Exclusive :
      (s : Service rkv pkv World) (plan : Plan) (now : ℕ)
      → Dict.get s.splits plan.id ≡ some plan
      → is_plan_active plan ≡ true
      → Exclusive s.splits
      → Exclusive (start_dual_write s plan.id now).1.splits
  dual_write-Exclusive s plan now held active ex = rw ((start_dual_write_lem s now plan held).0) (
      unfold persist_plan dual_written in
      persist_old-Exclusive s.splits plan (dual_written plan now) held refl
        (λ u h. ground (arith, h, active)) ex)

  cutover-Exclusive :
      (s : Service rkv pkv World) (plan : Plan) (now : ℕ)
      → Dict.get s.splits plan.id ≡ some plan
      → Exclusive s.splits
      → Exclusive (cutover digest s plan.id now).1.splits
  cutover-Exclusive s plan now held ex = elim (cutover_lem digest s now plan.id plan held) [
    | inr (e, refused) ↦ rw refused ex
    | inl (_, _, done) ↦ rw done.plans_kept (
        unfold completed_plan is_plan_active phase_beq in
        persist_old-Exclusive s.splits plan (completed_plan plan _ now) held refl
          (λ u h. ground arith) ex)
  ]

  rollback-Exclusive :
      (s : Service rkv pkv World) (plan : Plan) (now : ℕ)
      → Dict.get s.splits plan.id ≡ some plan
      → Exclusive s.splits
      → Exclusive (rollback s plan.id now).1.splits
  rollback-Exclusive s plan now held ex =
      elim (Option-cases (get_policy_by_version rkv s.routing plan.routing_version_at_start)) [
        | inl e ↦ rw (rollback_missing_version s now plan held e) ex
        | inr (p, e) ↦ rw (rollback_done s now plan p held e) (
            unfold persist_plan rolled_back_plan is_plan_active phase_beq in
            persist_old-Exclusive s.splits plan (rolled_back_plan plan now) held refl
              (λ u h. ground arith) ex)
      ]

  step-Exclusive :
      (s : Service rkv pkv World) (c : Command) (now : ℕ)
      → Allowed s c
      → Exclusive s.splits
      → Exclusive (step s (c, now)).splits
  unfolding step
  step-Exclusive s (plans input id pols) now fresh ex =
      plan_split-Exclusive s input id pols now fresh ex
  step-Exclusive s (dual_writes id) now (plan, held, same, active) ex =
      subst (λ i. Exclusive (start_dual_write s i now).1.splits) same
        (dual_write-Exclusive s plan now (held_under s.splits plan same held) active ex)
  step-Exclusive s (backfills id) now (plan, held, same) ex =
      subst (λ i. Exclusive (run_backfill shards s i now).1.splits) same
        (run_backfill-Exclusive shards s plan now (held_under s.splits plan same held) ex)
  step-Exclusive s (replays id) now (plan, held, same) ex =
      subst (λ i. Exclusive (replay_tail shards s i now).1.splits) same
        (replay_tail-Exclusive shards s plan now (held_under s.splits plan same held) ex)
  step-Exclusive s (cuts_over id) now (plan, held, same) ex =
      subst (λ i. Exclusive (cutover digest s i now).1.splits) same
        (cutover-Exclusive s plan now (held_under s.splits plan same held) ex)
  step-Exclusive s (rolls_back id) now (plan, held, same) ex =
      subst (λ i. Exclusive (rollback s i now).1.splits) same
        (rollback-Exclusive s plan now (held_under s.splits plan same held) ex)

  -- Every command of a history is allowed where it stands.
  abbrev pub AllAllowed : Service rkv pkv World → List (Command × ℕ) → Type 0
  AllAllowed s [] = Unit
  AllAllowed s (c ∷ cs) = Allowed s c.0 × AllAllowed (step s c) cs

  -- Whatever sequence runs of `planSplit`, `startDualWrite`, `runBackfill`, `replayTail`, `cutover` and `rollback`,
  -- successful or not, no tenant is moved by two active plans after it, if none is before it, each new plan has a
  -- fresh id, the other commands name plans in memory and dual writing is started for active plans only. The rounds
  -- that the task of a backfill runs in the background, after `runBackfill` has answered, are not in the sequence.
  pub run-Exclusive :
      (s : Service rkv pkv World) (cs : List (Command × ℕ))
      → AllAllowed s cs
      → Exclusive s.splits
      → Exclusive (run s cs).splits
  unfolding run
  run-Exclusive s [] all ex = ex
  run-Exclusive s ((c, now) ∷ cs) all ex =
      run-Exclusive (step s (c, now)) cs all.1 (step-Exclusive s c now all.0 ex)

module _ {rkv : Kv key_eq Doc} {pkv : Kv string_eq StoredPlan} {World : Type 0} where
  -- Where an active plan already moves a tenant of a plan that was
  -- rolled back or completed, starting to dual-write the latter leaves two active plans for the tenant.
  pub start_dual_write_doubles :
      (s : Service rkv pkv World) (plan : Plan) (tenant : String) (now : ℕ)
      → Dict.get s.splits plan.id ≡ some plan
      → is_plan_active plan ≡ false
      → includes tenant plan.tenant_ids ≡ true
      → count (serves tenant) (Dict.values s.splits) ≡ 1
      → count (serves tenant) (Dict.values (start_dual_write s plan.id now).1.splits) ≡ 2
  start_dual_write_doubles s plan tenant now held inactive member one =
      rw ((start_dual_write_lem s now plan held).0) (
        unfold persist_plan dual_written is_plan_active phase_beq in
        ground
          (arith, count-put_old (serves tenant) s.splits plan.id (dual_written plan now) plan held))
