-- ===== src/Split/Types.antt =====
-- The data of shard splits: `ShardSplitPhase`, `ShardSplitPlan`, `ShardSplitMetrics`, `TablePolicy` of
-- src/types/index.ts, and `normalizePlan` of src/services/ShardSplitService.ts. A `Plan` is what the
-- service works on, with the parts that `normalizePlan` fills in; a `StoredPlan` is the JSON document
-- in the key-value namespace, where those may be missing. A row cursor is the row number that its
-- text prints.
use workersql.Base.{
  ℕ, ◌≡◌, refl, Bool, true, false, not, ◌&&◌, ◌||◌, List, Option, none, some, String, string_eq,
}
use workersql.Dict.{Dict}

pub data Phase : Type 0 where
  planning dual_write backfill tailing cutover_pending completed rolled_back : Phase

pub data BackfillStatus : Type 0 where
  pending running completed failed : BackfillStatus

pub data TailStatus : Type 0 where
  pending replaying caught_up failed : TailStatus

pub data CacheMode : Type 0 where
  strong bounded cached : CacheMode

pub record CachePolicy : Type 0 where
  pub mode : CacheMode
  pub ttl_ms : ℕ
  pub swr_ms : ℕ
  pub always_strong_columns : Option (List String)

pub record TablePolicy : Type 0 where
  pub pk : String
  pub shard_by : Option String
  pub cache : CachePolicy

pub record Backfill : Type 0 where
  pub status : BackfillStatus
  pub table_cursor : Dict String ℕ
  pub total_rows_copied : ℕ
  pub started_at : Option ℕ
  pub completed_at : Option ℕ

pub record Tail : Type 0 where
  pub status : TailStatus
  pub last_event_id : Option ℕ
  pub last_event_ts : Option ℕ
  pub started_at : Option ℕ
  pub completed_at : Option ℕ

-- What a plan has whether it was normalized or not.
pub record Head : Type 0 where
  pub id : String
  pub source_shard : String
  pub target_shard : String
  pub tenant_ids : List String
  pub table_policies : Dict String TablePolicy
  pub created_at : ℕ
  pub routing_version_at_start : ℕ

pub record Progress : Type 0 where
  pub updated_at : ℕ
  pub phase : Phase
  pub dual_write_started_at : Option ℕ
  pub routing_version_cutover : Option ℕ
  pub rollback_version : Option ℕ
  pub error_message : Option String

pub record Plan : Type 0 where
  pub head : Head
  pub open head use *
  pub progress : Progress
  pub open progress use *
  pub copy : Backfill
  pub tail : Tail

pub record StoredBackfill : Type 0 where
  pub status : Option BackfillStatus
  pub table_cursor : Option (Dict String ℕ)
  pub total_rows_copied : Option ℕ
  pub started_at : Option ℕ
  pub completed_at : Option ℕ

pub record StoredTail : Type 0 where
  pub status : Option TailStatus
  pub last_event_id : Option ℕ
  pub last_event_ts : Option ℕ
  pub started_at : Option ℕ
  pub completed_at : Option ℕ

pub record StoredPlan : Type 0 where
  pub head : Head
  pub progress : Progress
  pub copy : Option StoredBackfill
  pub tail : Option StoredTail

pub record Metrics : Type 0 where
  pub split_id : String
  pub source_shard : String
  pub target_shard : String
  pub phase : Phase
  pub total_rows_copied : ℕ
  pub tenants : List String
  pub started_at : ℕ
  pub updated_at : ℕ
  pub backfill_status : BackfillStatus
  pub tail_status : TailStatus

-- `x ?? y`
abbrev pub or_else {ℓ} : {A : Type ℓ} → Option A → A → A
or_else none y = y
or_else (some x) y = x

abbrev pub fresh_backfill : Backfill
fresh_backfill = record {
  status = BackfillStatus.pending;
  table_cursor = List.[];
  total_rows_copied = 0;
  started_at = none;
  completed_at = none;
}

abbrev pub fresh_tail : Tail
fresh_tail = record {
  status = TailStatus.pending;
  last_event_id = none;
  last_event_ts = none;
  started_at = none;
  completed_at = none;
}

normalize_backfill : Option StoredBackfill → Backfill
normalize_backfill none = fresh_backfill
normalize_backfill (some b) = record {
  status = or_else b.status BackfillStatus.pending;
  table_cursor = or_else b.table_cursor List.[];
  total_rows_copied = or_else b.total_rows_copied 0;
  started_at = b.started_at;
  completed_at = b.completed_at;
}

normalize_tail : Option StoredTail → Tail
normalize_tail none = fresh_tail
normalize_tail (some t) = record {
  status = or_else t.status TailStatus.pending;
  last_event_id = t.last_event_id;
  last_event_ts = t.last_event_ts;
  started_at = t.started_at;
  completed_at = t.completed_at;
}

unfoldable pub normalize_plan : StoredPlan → Plan
unfolding normalize_backfill normalize_tail
normalize_plan p = record {
  head = p.head;
  progress = p.progress;
  copy = normalize_backfill p.copy;
  tail = normalize_tail p.tail;
}

-- `JSON.stringify` of a normalized plan.
abbrev pub stored : Plan → StoredPlan
stored p = record {
  head = p.head;
  progress = p.progress;
  copy = some (record {
    status = some p.copy.status;
    table_cursor = some p.copy.table_cursor;
    total_rows_copied = some p.copy.total_rows_copied;
    started_at = p.copy.started_at;
    completed_at = p.copy.completed_at;
  });
  tail = some (record {
    status = some p.tail.status;
    last_event_id = p.tail.last_event_id;
    last_event_ts = p.tail.last_event_ts;
    started_at = p.tail.started_at;
    completed_at = p.tail.completed_at;
  });
}

pub normalize_plan-stored : (p : Plan) → normalize_plan (stored p) ≡ p
unfolding normalize_plan
normalize_plan-stored p = refl

unfoldable pub phase_beq : Phase → Phase → Bool
phase_beq planning planning = true
phase_beq dual_write dual_write = true
phase_beq backfill backfill = true
phase_beq tailing tailing = true
phase_beq cutover_pending cutover_pending = true
phase_beq Phase.completed Phase.completed = true
phase_beq rolled_back rolled_back = true
phase_beq _ _ = false

abbrev pub is_caught_up : TailStatus → Bool
is_caught_up caught_up = true
is_caught_up _ = false

unfoldable pub is_plan_active : Plan → Bool
unfolding phase_beq
is_plan_active p = not (phase_beq p.phase rolled_back) && not (phase_beq p.phase Phase.completed)

unfoldable pub is_dual_write_phase : Phase → Bool
unfolding phase_beq
is_dual_write_phase phase =
    phase_beq phase dual_write
    || (phase_beq phase backfill || (phase_beq phase tailing || phase_beq phase cutover_pending))
