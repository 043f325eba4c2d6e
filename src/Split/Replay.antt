-- ===== src/Split/Replay.antt =====
-- `replayTail` of src/services/ShardSplitService.ts: the events that the source shard recorded since
-- dual writing began are applied at the target.
use workersql.Base.{
  ℕ, ◌-◌, Bool, true, false, not, ◌&&◌, List, [], ◌∷◌, Option, none, some, String, ◌==◌, string_eq,
  nat_eq, if◌then◌else◌, length, includes, ltb, max,
}
use workersql.Base.Sort.{sort_up}
use workersql.Kv.{Kv}
use workersql.Errors.{invalid_phase, backfill_failed, Result, ok, err, ◌>>=◌}
use workersql.Routing.{key_eq, Doc}
use workersql.Split.Types.{
  backfill, tailing, cutover_pending, TailStatus, Plan, StoredPlan, phase_beq, is_caught_up,
  or_else,
}
use workersql.Split.Store.{Service, persist_plan, require_plan}
use workersql.Split.Texts.{is_select, is_ddl}
use workersql.Split.Shards.{Event, Shards}

abbrev pub event_batch_limit : ℕ
event_batch_limit = 750

-- An optional text that is missing is the empty one: the guards treat both alike.
abbrev pub text_of : Option String → String
text_of none = ""
text_of (some t) = t

-- The guards of the loop: the event is newer than the last one applied, belongs to a tenant of the
-- plan, and has a statement that is not a `SELECT`.
unfoldable pub is_relevant : {P : Type 0} → List String → Event P → Bool
is_relevant tenants e =
    not (text_of e.tenant_id == "")
    && (includes (text_of e.tenant_id) tenants
        && (not (text_of e.sql == "") && not (is_select (text_of e.sql))))

unfoldable pub replaying_plan : Plan → ℕ → Plan
replaying_plan plan now = record plan {
  progress = record plan.progress { updated_at = now; error_message = none };
  tail = record plan.tail {
    status = TailStatus.replaying;
    started_at = some (or_else plan.tail.started_at now);
  };
}

unfoldable pub applied_plan : {P : Type 0} → Plan → ℕ → Event P → ℕ → Plan
applied_plan plan max_event_id e now = record plan {
  progress = record plan.progress { updated_at = now };
  tail = record plan.tail {
    last_event_id = some (max max_event_id e.id);
    last_event_ts = some e.ts;
  };
}

unfoldable pub caught_up_plan : Plan → ℕ → Plan
caught_up_plan plan now = record plan {
  progress = record plan.progress { phase = cutover_pending; updated_at = now };
  tail = record plan.tail { status = TailStatus.caught_up; completed_at = some now };
}

unfoldable pub more_plan : Plan → ℕ → Plan
more_plan plan now = record plan {
  progress = record plan.progress { updated_at = now };
  tail = record plan.tail { status = TailStatus.replaying };
}

unfoldable pub tail_failed_plan : Plan → String → ℕ → Plan
tail_failed_plan plan message now = record plan {
  progress = record plan.progress { updated_at = now; error_message = some message };
  tail = record plan.tail { status = TailStatus.failed };
}

module _ (shards : Shards) {rkv : Kv key_eq Doc} {pkv : Kv string_eq StoredPlan} where
  open shards use {World, Params, no_params, fetch_events, apply_sql}

  -- The loop over the events, from the event id that was applied last. The result tells whether every
  -- event was applied, and is the plan as it stands then.
  unfoldable pub apply_events :
      Service rkv pkv World
      → Plan
      → ℕ
      → List (Event Params)
      → ℕ
      → (Bool × Plan) × Service rkv pkv World
  apply_events s plan max_event_id [] now = ((true, plan), s)
  apply_events s plan max_event_id (e ∷ events) now =
      let skipped = apply_events s plan max_event_id events now in
      if ltb max_event_id e.id && is_relevant plan.tenant_ids e
      then (let (applied, world) =
            apply_sql s.world plan.target_shard (is_ddl (text_of e.sql)) (text_of e.sql)
              (or_else e.params no_params) (text_of e.tenant_id) in
          let later = applied_plan plan max_event_id e now in
          let rest =
            apply_events (persist_plan (record s { world = world }) later) later
              (max max_event_id e.id) events now in
          if applied then rest else ((false, plan), record s { world = world }))
      else skipped

  unfoldable pub tail_failed :
      Service rkv pkv World → Plan → String → ℕ → Result Plan × Service rkv pkv World
  tail_failed s plan message now =
      (err backfill_failed, persist_plan s (tail_failed_plan plan message now))

  -- After the loop: the plan is caught up unless the answer was a full batch.
  unfoldable pub finish_tail :
      ℕ → (Bool × Plan) × Service rkv pkv World → ℕ → Result Plan × Service rkv pkv World
  unfolding tail_failed
  finish_tail fetched ((false, plan), s) now = tail_failed s plan "Failed to apply tail event" now
  finish_tail fetched ((true, plan), s) now =
      if fetched == event_batch_limit
      then (ok (more_plan plan now), persist_plan s (more_plan plan now))
      else (ok (caught_up_plan plan now), persist_plan s (caught_up_plan plan now))

  -- The `try` block, for a plan that is marked as replaying.
  unfoldable pub replay_batch :
      Service rkv pkv World → Plan → ℕ → ℕ → Result Plan × Service rkv pkv World
  unfolding tail_failed finish_tail
  replay_batch s plan dual_write_started_at now =
      let after_id = or_else plan.tail.last_event_id 0 in
      let (response, world) =
        fetch_events s.world plan.source_shard (dual_write_started_at - 5) after_id
          event_batch_limit in
      let t = record s { world = world } in
      elim response [
        | none ↦ tail_failed t plan "Failed to fetch tail events" now
        | some payload ↦
            if not payload.success
            then tail_failed t plan "Tail events payload invalid" now
            else (let events = sort_up (λ e. e.id) (or_else payload.events []) in
                finish_tail (length events) (apply_events t plan after_id events now) now)
      ]

  unfoldable pub replay_plan :
      Service rkv pkv World → Plan → ℕ → ℕ → Result Plan × Service rkv pkv World
  unfolding replay_batch phase_beq
  replay_plan s plan dual_write_started_at now =
      if dual_write_started_at == 0
      then (err invalid_phase, s)
      else (if phase_beq plan.phase cutover_pending && is_caught_up plan.tail.status
          then (ok plan, s)
          else replay_batch (persist_plan s (replaying_plan plan now)) (replaying_plan plan now)
              dual_write_started_at now)

  unfoldable pub replay_tail :
      Service rkv pkv World → String → ℕ → Result Plan × Service rkv pkv World
  unfolding replay_plan phase_beq
  replay_tail s split_id now = require_plan s split_id >>= λ plan t.
      if not (phase_beq plan.phase tailing)
        && (not (phase_beq plan.phase backfill) && not (phase_beq plan.phase cutover_pending))
      then (err invalid_phase, t)
      else replay_plan t plan (or_else plan.dual_write_started_at 0) now
