-- ===== src/Split/Replaying.antt =====
-- What `runBackfill` and `replayTail` of src/services/ShardSplitService.ts leave of the plans in memory.
use workersql.Base.{
  ℕ, ◌-◌, ◌≡◌, refl, inl, inr, ◌∙◌, Bool, true, false, not, ◌&&◌, List, [], ◌∷◌, if◌then◌else◌,
  some, String, arith, ◌==◌, string_eq, nat_eq, ltb, max, length, Bool-cases, Option-cases,
  beq_refl, includes,
}
use workersql.Base.Sort.{sort_up}
use workersql.Dict
use workersql.Dict.{Dict, get-put}
use workersql.Kv.{Kv}
use workersql.Errors.{invalid_phase, err}
use workersql.Routing.{key_eq, Doc}
use workersql.Split.Types.{
  Phase, planning, dual_write, backfill, tailing, cutover_pending, completed, rolled_back, Plan,
  StoredPlan, is_plan_active, phase_beq, is_caught_up, is_dual_write_phase, or_else,
}
use workersql.Split.Store.{Service, serves, persist_plan, require_plan}
use workersql.Split.Exclusive.{Exclusive, put_old-Exclusive}
use workersql.Split.Texts.{is_ddl}
use workersql.Split.Shards.{Event, Shards}
use workersql.Split.Replay.{
  event_batch_limit, text_of, is_relevant, replaying_plan, applied_plan, caught_up_plan, more_plan,
  tail_failed_plan, apply_events, tail_failed, finish_tail, replay_batch, replay_plan, replay_tail,
}
use workersql.Split.Backfill.{started_plan, run_backfill}
use workersql.Split.Copying.{run_backfill_lem}

-- The phases in which a tail is replayed are active, and so are those of dual writing.
replayed-active :
    (phase : Phase)
    → (not (phase_beq phase tailing)
        && (not (phase_beq phase backfill) && not (phase_beq phase cutover_pending)))
      ≡ false
    → (not (phase_beq phase rolled_back) && not (phase_beq phase completed)) ≡ true
unfolding phase_beq
replayed-active tailing e = refl
replayed-active backfill e = refl
replayed-active cutover_pending e = refl
replayed-active dual_write e = refl
replayed-active planning e = absurd (ground (arith, e))
replayed-active rolled_back e = absurd (ground (arith, e))
replayed-active completed e = absurd (ground (arith, e))

dual_write-active :
    (phase : Phase)
    → is_dual_write_phase phase ≡ true
    → (not (phase_beq phase rolled_back) && not (phase_beq phase completed)) ≡ true
unfolding is_dual_write_phase phase_beq
dual_write-active tailing e = refl
dual_write-active backfill e = refl
dual_write-active cutover_pending e = refl
dual_write-active dual_write e = refl
dual_write-active planning e = absurd (ground (arith, e))
dual_write-active rolled_back e = absurd (ground (arith, e))
dual_write-active completed e = absurd (ground (arith, e))

module _ {rkv : Kv key_eq Doc} {pkv : Kv string_eq StoredPlan} {World : Type 0} where
  -- The plans are exclusive, and this one is in memory and active.
  pub record Kept (s : Service rkv pkv World) (plan : Plan) : Type 0 where
    pub exclusive : Exclusive s.splits
    pub held : Dict.get s.splits plan.id ≡ some plan
    pub active : is_plan_active plan ≡ true

  -- A write of the plan with the same head, still active.
  persist-Kept :
      (s : Service rkv pkv World) (old plan : Plan)
      → Kept s old
      → plan.head ≡ old.head
      → is_plan_active plan ≡ true
      → Kept (persist_plan s plan) plan
  unfolding persist_plan
  persist-Kept s old plan k same active = record {
    exclusive = put_old-Exclusive s.splits old plan (rw same k.held) (λ u h. keeps u h) k.exclusive;
    held = get-put s.splits plan.id plan.id plan ∙ rw (beq_refl plan.id) refl;
    active = active;
  }
    where
      keeps : (u : String) → serves u plan ≡ true → serves u old ≡ true
      keeps u h =
          let m : includes u plan.tenant_ids ≡ true = ground (arith, h) in
          rw k.active (rw (← same) m)

module _ (shards : Shards) {rkv : Kv key_eq Doc} {pkv : Kv string_eq StoredPlan} where
  open shards use {World, Params, no_params, apply_sql, fetch_events}

  -- A change of the shards' state alone.
  world-Kept :
      (s : Service rkv pkv World) (plan : Plan) (world : World)
      → Kept s plan
      → Kept (record s { world = world }) plan
  world-Kept s plan world k = record { exclusive = k.exclusive; held = k.held; active = k.active }

  apply_events-Kept :
      (s : Service rkv pkv World) (plan : Plan) (after_id : ℕ) (events : List (Event Params))
      (now : ℕ)
      → Kept s plan
      → Kept
          (apply_events shards s plan after_id events now).1
          (apply_events shards s plan after_id events now).0.1
  unfolding apply_events is_plan_active
  apply_events-Kept s plan after_id [] now k = k
  apply_events-Kept s plan after_id (e ∷ events) now k =
      elim (Bool-cases (ltb after_id e.id && is_relevant plan.tenant_ids e)) [
        | inr h ↦ rw h (apply_events-Kept s plan after_id events now k)
        | inl h ↦
            let done =
              apply_sql s.world plan.target_shard (is_ddl (text_of e.sql)) (text_of e.sql)
                (or_else e.params no_params) (text_of e.tenant_id) in
            elim (Bool-cases done.0) [
              | inr refused ↦ rw (h, refused) (world-Kept s plan done.1 k)
              | inl applied ↦
                  rw (h, applied)
                    (apply_events-Kept
                      (persist_plan (record s { world = done.1 })
                        (applied_plan plan after_id e now))
                      (applied_plan plan after_id e now) (max after_id e.id) events now
                      (unfold applied_plan in
                        persist-Kept (record s { world = done.1 }) plan
                          (applied_plan plan after_id e now) (world-Kept s plan done.1 k) refl
                          k.active))
            ]
      ]

  -- The plan's write at the end of a replay.
  end-Exclusive :
      (s : Service rkv pkv World) (old plan : Plan)
      → Kept s old
      → plan.head ≡ old.head
      → is_plan_active plan ≡ true
      → Exclusive (persist_plan s plan).splits
  end-Exclusive s old plan k same active = (persist-Kept s old plan k same active).exclusive

  tail_failed-Exclusive :
      (s : Service rkv pkv World) (plan : Plan) (message : String) (now : ℕ)
      → Kept s plan
      → Exclusive (tail_failed shards s plan message now).1.splits
  unfolding tail_failed tail_failed_plan is_plan_active
  tail_failed-Exclusive s plan message now k =
      end-Exclusive s plan (tail_failed_plan plan message now) k refl k.active

  finish_tail-Exclusive :
      (fetched now : ℕ) (all : Bool) (plan : Plan) (s : Service rkv pkv World)
      → Kept s plan
      → Exclusive (finish_tail shards fetched ((all, plan), s) now).1.splits
  unfolding finish_tail more_plan caught_up_plan is_plan_active phase_beq
  finish_tail-Exclusive fetched now false plan s k = tail_failed-Exclusive s plan _ now k
  finish_tail-Exclusive fetched now true plan s k =
      elim (Bool-cases (fetched == event_batch_limit)) [
        | inl e ↦ rw e (end-Exclusive s plan (more_plan plan now) k refl k.active)
        | inr e ↦ rw e (end-Exclusive s plan (caught_up_plan plan now) k refl refl)
      ]

  replay_batch-Exclusive :
      (s : Service rkv pkv World) (plan : Plan) (started now : ℕ)
      → Kept s plan
      → Exclusive (replay_batch shards s plan started now).1.splits
  unfolding replay_batch
  replay_batch-Exclusive s plan started now k =
      let after_id = or_else plan.tail.last_event_id 0 in
      let fetched =
        fetch_events s.world plan.source_shard (started - 5) after_id event_batch_limit in
      let kept = world-Kept s plan fetched.1 k in
      elim (Option-cases fetched.0) [
        | inl e ↦
            rw (e, replay_batch)
              (tail_failed-Exclusive (record s { world = fetched.1 }) plan _ now kept)
        | inr (payload, e) ↦ elim (Bool-cases payload.success) [
          | inr f ↦
              rw (e, f, replay_batch)
                (tail_failed-Exclusive (record s { world = fetched.1 }) plan _ now kept)
          | inl f ↦
              let events = sort_up (λ e. e.id) (or_else payload.events []) in
              rw (e, f, replay_batch)
                (finish_tail-Exclusive (length events) now _ _ _ (
                  apply_events-Kept (record s { world = fetched.1 }) plan after_id events now kept))
        ]
      ]

  replay_plan-Exclusive :
      (s : Service rkv pkv World) (plan : Plan) (started now : ℕ)
      → Kept s plan
      → Exclusive (replay_plan shards s plan started now).1.splits
  unfolding replay_plan replaying_plan is_plan_active
  replay_plan-Exclusive s plan started now k = elim (Bool-cases (started == 0)) [
    | inl e ↦ rw e k.exclusive
    | inr e ↦
        elim (Bool-cases (phase_beq plan.phase cutover_pending && is_caught_up plan.tail.status)) [
          | inl f ↦ rw (e, f) k.exclusive
          | inr f ↦
              rw (e, f)
                (replay_batch-Exclusive _ (replaying_plan plan now) started now
                  (persist-Kept s plan (replaying_plan plan now) k refl k.active))
        ]
  ]

  replay_tail_held :
      (s : Service rkv pkv World) (plan : Plan) (now : ℕ)
      → Dict.get s.splits plan.id ≡ some plan
      → replay_tail shards s plan.id now ≡ (
          if not (phase_beq plan.phase tailing)
            && (not (phase_beq plan.phase backfill) && not (phase_beq plan.phase cutover_pending))
          then (err invalid_phase, s)
          else replay_plan shards s plan (or_else plan.dual_write_started_at 0) now)
  unfolding replay_tail require_plan
  replay_tail_held s plan now held = ground arith

  -- A replay of the tail of a plan in memory.
  pub replay_tail-Exclusive :
      (s : Service rkv pkv World) (plan : Plan) (now : ℕ)
      → Dict.get s.splits plan.id ≡ some plan
      → Exclusive s.splits
      → Exclusive (replay_tail shards s plan.id now).1.splits
  unfolding is_plan_active
  replay_tail-Exclusive s plan now held ex =
      rw (replay_tail_held s plan now held)
        (elim (Bool-cases (
          not (phase_beq plan.phase tailing)
          && (not (phase_beq plan.phase backfill) && not (phase_beq plan.phase cutover_pending)))) [
            | inl e ↦ rw e ex
            | inr e ↦ rw e (
                replay_plan-Exclusive s plan (or_else plan.dual_write_started_at 0) now
                  (record { exclusive = ex; held = held; active = replayed-active plan.phase e }))
          ])

  -- So is it with the start of a backfill.
  pub run_backfill-Exclusive :
      (s : Service rkv pkv World) (plan : Plan) (now : ℕ)
      → Dict.get s.splits plan.id ≡ some plan
      → Exclusive s.splits
      → Exclusive (run_backfill shards s plan.id now).1.splits
  unfolding started_plan is_plan_active phase_beq
  run_backfill-Exclusive s plan now held ex =
      rw (run_backfill_lem shards s plan now held)
        (elim (Bool-cases (is_dual_write_phase plan.phase)) [
          | inr e ↦ rw e ex
          | inl e ↦ rw e (
              end-Exclusive s plan (started_plan plan now)
                (record { exclusive = ex; held = held; active = dual_write-active plan.phase e })
                refl refl)
        ])
