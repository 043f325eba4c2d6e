-- ===== src/Migration.antt =====
-- src/services/ShardMigrationService.ts, with `ShardMigrationState` of src/types/index.ts: a migration of tenants to
-- several shards. Its documents stand in the key-value namespace under keys of their own; that a tenant's key is
-- dropped after a day is left out. The answer of the source shard about its tables is an
-- argument, as is the identifier of a new migration. The backfill of the rows and the descriptions are left out.
pub mod Marks
pub mod Targets
pub mod Assignments
pub mod Tests
use workersql.Base.{
  ℕ, zero, suc, ◌+◌, ◌*◌, ◌%◌, ◌≡◌, refl, ◌↔◌, Bool, true, false, not, ◌&&◌, ◌||◌, List, [], ◌∷◌,
  ◌++◌, Option, none, some, String, arith, ◌==◌, if◌then◌else◌, Eq, filter, any, includes, length,
  string_eq, nat_eq,
}
use workersql.Dict
use workersql.Dict.{Dict}
use workersql.Kv.{Kv}
use workersql.Errors.{Error, Result, ok, err}
use workersql.Text.{◌++◌ as ◌+++◌}
use workersql.Routing.{
  RoutingPolicy, Doc, key_eq, Stringified, get_current_version, get_policy_by_version,
  rollback_to_version, update_current_policy,
}
use workersql.Split.Commands.{assign_tenants}

pub data Status : Type 0 where
  initializing backfill tail_sync cutover_pending cutover_complete completed rolled_back : Status

pub record Progress : Type 0 where
  pub total_tables : ℕ
  pub tables_completed : ℕ
  pub backfilled_rows : ℕ
  pub cursors : Dict (String × String) ℕ

pub record ShardMigrationState : Type 0 where
  pub id : String
  pub source_shard : String
  pub target_shards : List String
  pub tenants : List String
  pub tenant_assignments : Dict String String
  pub tables : List String
  pub tenant_column : String
  pub status : Status
  pub version_before : ℕ
  pub version_after : Option ℕ
  pub dual_write : Bool
  pub started_at : ℕ
  pub updated_at : ℕ
  pub completed_at : Option ℕ
  pub progress : Progress

pub record ShardSplitRequest : Type 0 where
  pub source_shard : String
  pub target_shards : List String
  pub tenants : List String
  pub tables : List String
  pub tenant_column : Option String

pub data MigrationKey : Type 0 where
  state_key tenant_key : String → MigrationKey
  index_key : MigrationKey

abbrev pub migration_key_beq : MigrationKey → MigrationKey → Bool
migration_key_beq (state_key a) (state_key b) = a == b
migration_key_beq (tenant_key a) (tenant_key b) = a == b
migration_key_beq index_key index_key = true
migration_key_beq _ _ = false

pub migration_key_beq_iff : (a b : MigrationKey) → (migration_key_beq a b ≡ true) ↔ (a ≡ b)
migration_key_beq_iff (state_key a) (state_key b) = ground (arith, string_eq.beq_iff a b)
migration_key_beq_iff (tenant_key a) (tenant_key b) = ground (arith, string_eq.beq_iff a b)
migration_key_beq_iff index_key index_key = ground arith
migration_key_beq_iff _ _ = ground arith

instance abbrev pub migration_key_eq : Eq MigrationKey
migration_key_eq = record { beq = migration_key_beq; beq_iff = migration_key_beq_iff }

pub data MigrationDoc : Type 0 where
  state_doc : ShardMigrationState → MigrationDoc
  id_doc : String → MigrationDoc
  index_doc : List String → MigrationDoc

pub data MigrationError : Type 0 where
  no_tenants no_targets invalid_assignment migration_not_found discovery_failed : MigrationError
  already_participating : String → MigrationError
  routing_error : Error → MigrationError

pub data Answer {ℓ} (A : Type ℓ) : Type ℓ where
  done : A → Answer A
  failed : MigrationError → Answer A

abbrev pub as_state : Option MigrationDoc → Option ShardMigrationState
as_state (some (state_doc s)) = some s
as_state _ = none

-- The text of a tenant's key, where it is there and not empty.
abbrev pub as_id : Option MigrationDoc → Option String
as_id (some (id_doc id)) = if id == "" then none else some id
as_id _ = none

abbrev pub as_index : Option MigrationDoc → List String
as_index (some (index_doc ids)) = ids
as_index _ = []

unfoldable pub nth : List String → ℕ → Option String
nth [] n = none
nth (x ∷ xs) zero = some x
nth (x ∷ xs) (suc n) = nth xs n

-- The loop of `assignTenants` from index `i` on.
unfoldable pub assign_from :
    List String → Dict String String → ℕ → List String → Option (Dict String String)
unfolding nth
assign_from targets m i [] = some m
assign_from targets m i (tenant ∷ tenants) =
    let rest = λ (shard : String). assign_from targets (Dict.put m tenant shard) (i + 1) tenants in
    elim (nth targets (i % length targets)) [
      | none ↦ none
      | some shard ↦ if shard == "" || tenant == "" then none else rest shard
    ]

module _ (kv : Kv migration_key_eq MigrationDoc) where
  -- The first tenant with a migration, and that migration.
  unfoldable pub find_participating : kv.Store → List String → Option String
  find_participating s [] = none
  find_participating s (tenant ∷ tenants) = elim (as_id (kv.get s (tenant_key tenant))) [
    | some id ↦ some id
    | none ↦ find_participating s tenants
  ]

  unfoldable pub get_state : kv.Store → String → Option ShardMigrationState
  get_state s id = as_state (kv.get s (state_key id))

  unfoldable pub save_state : kv.Store → ShardMigrationState → kv.Store
  save_state s state = kv.put s (state_key state.id) (state_doc state)

  unfoldable pub index_migration : kv.Store → String → kv.Store
  index_migration s id =
      let index = as_index (kv.get s index_key) in
      kv.put s index_key (index_doc (if includes id index then index else index ++ id ∷ []))

  unfoldable pub mark_tenants : kv.Store → List String → String → kv.Store
  mark_tenants s [] id = s
  mark_tenants s (tenant ∷ tenants) id =
      mark_tenants (kv.put s (tenant_key tenant) (id_doc id)) tenants id

  unfoldable pub unmark_tenants : kv.Store → List String → kv.Store
  unmark_tenants s [] = s
  unmark_tenants s (tenant ∷ tenants) = unmark_tenants (kv.delete s (tenant_key tenant)) tenants

  unfoldable pub new_state :
      ShardSplitRequest → String → ℕ → List String → Dict String String → ℕ → ShardMigrationState
  new_state request id version tables assignments now = record {
    id = id;
    source_shard = request.source_shard;
    target_shards = request.target_shards;
    tenants = request.tenants;
    tenant_assignments = assignments;
    tables = tables;
    tenant_column = column_or request.tenant_column;
    status = initializing;
    version_before = version;
    version_after = none;
    dual_write = true;
    started_at = now;
    updated_at = now;
    completed_at = none;
    progress = record {
      total_tables = length tables * length request.tenants;
      tables_completed = 0;
      backfilled_rows = 0;
      cursors = [];
    };
  }
    where
      column_or : Option String → String
      column_or none = "tenant_id"
      column_or (some column) = if column == "" then "tenant_id" else column

  -- The tables of the request, or, where there are none, those that the source shard lists.
  abbrev pub tables_of : List String → Option (List String) → Option (List String)
  tables_of [] discovered = discovered
  tables_of (t ∷ ts) discovered = some (t ∷ ts)

  -- `startSplit` with the number of the current policy and the tables.
  unfoldable pub start_split :
      kv.Store
      → ℕ
      → ShardSplitRequest
      → String
      → Option (List String)
      → ℕ
      → Answer ShardMigrationState × kv.Store
  unfolding find_participating assign_from new_state save_state index_migration mark_tenants
  start_split s version request id discovered now =
      if length request.tenants == 0
      then (failed no_tenants, s)
      else if length request.target_shards == 0
      then (failed no_targets, s)
      else (elim (find_participating s request.tenants) [
        | some other ↦ (failed (already_participating other), s)
        | none ↦ elim (tables_of request.tables discovered) [
          | none ↦ (failed discovery_failed, s)
          | some tables ↦ elim (assign_from request.target_shards [] 0 request.tenants) [
            | none ↦ (failed invalid_assignment, s)
            | some assignments ↦
                let state = new_state request id version tables assignments now in
                (
                  done state,
                  mark_tenants (index_migration (save_state s state) id) request.tenants id,
                )
          ]
        ]
      ])

  abbrev pub is_writing : Status → Bool
  is_writing backfill = true
  is_writing tail_sync = true
  is_writing cutover_pending = true
  is_writing _ = false

  pub record RoutingInfo : Type 0 where
    pub active : Bool
    pub source_shard : String
    pub dual_write_targets : List String
    pub status : Status

  -- `Array.from(new Set(values))`
  abbrev pub distinct : List String → List String → List String
  distinct seen [] = seen
  distinct seen (x ∷ xs) = distinct (if includes x seen then seen else seen ++ x ∷ []) xs

  abbrev pub info_of : Option ShardMigrationState → RoutingInfo
  info_of none = record {
    active = false;
    source_shard = "";
    dual_write_targets = [];
    status = completed;
  }
  info_of (some state) = record {
    active = state.dual_write;
    source_shard = state.source_shard;
    dual_write_targets =
        if is_writing state.status then distinct [] (Dict.values state.tenant_assignments) else [];
    status = state.status;
  }

  unfoldable pub get_routing_info_for_tenant : kv.Store → String → Option RoutingInfo
  unfolding get_state
  get_routing_info_for_tenant s tenant = elim (as_id (kv.get s (tenant_key tenant))) [
    | none ↦ none
    | some id ↦ some (info_of (get_state s id))
  ]

  unfoldable pub get_dual_write_targets : kv.Store → String → Option String → List String
  unfolding get_routing_info_for_tenant
  get_dual_write_targets s tenant primary = elim (get_routing_info_for_tenant s tenant) [
    | none ↦ []
    | some info ↦ if not info.active then [] else (elim primary [
      | none ↦ info.dual_write_targets
      | some shard ↦
          if shard == ""
          then info.dual_write_targets
          else filter (λ id. not (id == shard)) info.dual_write_targets
    ])
  ]

  unfoldable pub complete_migration : kv.Store → String → ℕ → kv.Store
  unfolding get_state save_state unmark_tenants
  complete_migration s id now = elim (get_state s id) [
    | none ↦ s
    | some state ↦
        unmark_tenants
          (save_state s (record state {
            dual_write = false;
            status = completed;
            completed_at = some now;
            updated_at = now;
          }))
          state.tenants
  ]

  unfoldable pub transition_state : kv.Store → ShardMigrationState → Status → ℕ → kv.Store
  unfolding save_state
  transition_state s state status now =
      save_state s (record state { status = status; updated_at = now })

  module _ (rkv : Kv key_eq Doc) where
    unfoldable pub rollback_migration :
        kv.Store → rkv.Store → String → ℕ → Answer ShardMigrationState × kv.Store × rkv.Store
    unfolding get_state mark_tenants transition_state unmark_tenants
    rollback_migration s routing id now = elim (get_state s id) [
      | none ↦ (failed migration_not_found, s, routing)
      | some state ↦
          let (moved, t) = rollback_to_version rkv routing state.version_before in
          elim moved [
            | err e ↦ (failed (routing_error e), s, t)
            | ok success ↦ (
              done state,
              unmark_tenants
                  (transition_state (mark_tenants s state.tenants state.id) state rolled_back now)
                  state.tenants,
              t,
            )
          ]
    ]

    abbrev pub policy_or_default : Option RoutingPolicy → RoutingPolicy
    policy_or_default none = record { version = 1; tenants = []; ranges = [] }
    policy_or_default (some policy) = policy

    abbrev pub put_each : Dict String String → Dict String String → Dict String String
    put_each m [] = m
    put_each m ((tenant, shard) ∷ rest) = put_each (Dict.put m tenant shard) rest

    unfoldable pub promote_routing :
        (Stringified → String)
        → kv.Store
        → rkv.Store
        → ShardMigrationState
        → ℕ
        → Answer ShardMigrationState × kv.Store × rkv.Store
    unfolding save_state
    promote_routing digest s routing state now =
        let policy =
          policy_or_default (get_policy_by_version rkv routing (get_current_version rkv routing)) in
        let (updated, t) =
          update_current_policy rkv digest routing
            (record policy { tenants = put_each policy.tenants state.tenant_assignments })
            (some ("Shard split " +++ state.id)) now in
        elim updated [
          | err e ↦ (failed (routing_error e), s, t)
          | ok version ↦
              let promoted = record state {
                version_after = some version;
                status = cutover_pending;
                updated_at = now;
              } in
              (done promoted, save_state s promoted, t)
        ]
