-- ===== src/Split/Shards.antt =====
-- The shards as src/services/ShardSplitService.ts reaches them, through `stub.fetch` of the platform:
-- the answers of `/admin/export`, `/admin/import`, `/admin/events`, `/mutation` and `/ddl` over an
-- abstract state. An answer that is not `ok` is `none` or `false`.
use workersql.Base.{ℕ, Bool, List, Option, String}

pub record Row (Contents : Type 0) : Type 0 where
  pub rowid : ℕ
  pub contents : Contents

pub record Page (Contents : Type 0) : Type 0 where
  pub rows : Option (List (Row Contents))
  pub next_cursor : Option ℕ

pub record Event (Params : Type 0) : Type 0 where
  pub id : ℕ
  pub ts : ℕ
  pub tenant_id : Option String
  pub sql : Option String
  pub params : Option Params

pub record EventsPayload (Params : Type 0) : Type 0 where
  pub success : Bool
  pub events : Option (List (Event Params))

pub record Shards : Type 1 where
  pub World : Type 0
  pub Contents : Type 0
  pub Params : Type 0
  pub no_params : Params
  -- table, tenant, tenant column, cursor and limit, at a shard
  pub export_rows :
      World → String → String → String → String → ℕ → ℕ → Option (Page Contents) × World
  pub import_rows : World → String → String → List (Row Contents) → Bool × World
  -- since, after id and limit, at a shard
  pub fetch_events : World → String → ℕ → ℕ → ℕ → Option (EventsPayload Params) × World
  -- the endpoint is `ddl` or `mutation`
  pub apply_sql : World → String → Bool → String → Params → String → Bool × World
