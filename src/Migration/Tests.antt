-- ===== src/Migration/Tests.antt =====
-- The theorems on src/services/ShardMigrationService.ts at concrete inputs.
use workersql.Base.{
  ◌%◌, ◌≡◌, refl, not, true, false, ◌⊎◌, ◌&&◌, List, [], ◌∷◌, none, some, String, includes, length,
  string_eq,
}
use workersql.Dict
use workersql.Dict.{Dict}
use workersql.Kv.{Kv, dict_kv}
use workersql.Migration.{
  MigrationKey, ShardMigrationState, ShardSplitRequest, migration_key_eq, MigrationDoc, backfill,
  state_key, tenant_key, state_doc, id_doc, already_participating, failed, nth, assign_from,
  new_state, find_participating, start_split, get_dual_write_targets, complete_migration, get_state,
}
use workersql.Migration.Assignments.{assign_from_lem}
use workersql.Migration.Marks.{Start, start, starts, IsMarked, start_split-excludes}
use workersql.Migration.Targets.{
  IsCopying, IsIdle, is_primary, InMigration, NoMigration, get_dual_write_targets_lem,
  complete_migration-targets,
}

abbrev kv : Kv migration_key_eq MigrationDoc
kv = dict_kv migration_key_eq MigrationDoc

abbrev tenants : List String
tenants = "ann" ∷ "bob" ∷ "cid" ∷ []

abbrev targets : List String
targets = "shard_1" ∷ "shard_2" ∷ []

abbrev assignments : Dict String String
assignments = ("ann", "shard_1") ∷ ("bob", "shard_2") ∷ ("cid", "shard_1") ∷ []

assign_from_example : Dict.get assignments "cid" ≡ nth targets (2 % length targets)
unfolding assign_from nth Dict.put
assign_from_example =
    assign_from_lem targets tenants assignments 2 "cid" (refl, (refl, (refl, tt))) refl refl

abbrev request : ShardSplitRequest
request = record {
  source_shard = "shard_0";
  target_shards = targets;
  tenants = tenants;
  tables = "orders" ∷ [];
  tenant_column = none;
}

abbrev first_start : Start kv
first_start = record { version = 1; request = request; id = "m1"; discovered = none; now = 10 }

-- One that starts for another tenant, and one that is refused.
abbrev more_starts : List (Start kv)
more_starts =
    record first_start { request = record request { tenants = "dan" ∷ [] }; id = "m2"; now = 12 }
    ∷ record first_start { id = "m3"; now = 14 }
    ∷ []

abbrev second_start : Start kv
second_start = record first_start {
  request = record request { tenants = "eve" ∷ "bob" ∷ [] };
  id = "m4";
  now = 20;
}

abbrev state : ShardMigrationState
state = new_state kv request "m1" 1 ("orders" ∷ []) assignments 10

start_split-excludes_example :
    let t = starts kv (start kv [] first_start).1 more_starts in
    (other : String) × (u : String) × (start kv t second_start
      ≡ (failed (already_participating other), t))
    × (includes u second_start.request.tenants ≡ true)
    × IsMarked kv t u other
unfolding start start_split find_participating assign_from nth Dict.put Dict.get
start_split-excludes_example =
    start_split-excludes kv [] first_start second_start more_starts "bob" state refl refl refl refl
      refl

abbrev running : Dict MigrationKey MigrationDoc
running =
    (tenant_key "ann", id_doc "m1")
    ∷ (state_key "m1", state_doc (record state { status = backfill }))
    ∷ []

get_dual_write_targets_example :
    let found = includes "shard_2" (get_dual_write_targets kv running "ann" (some "shard_0")) in
    ((state : ShardMigrationState) × InMigration kv running "ann" state
      × (state.dual_write ≡ true)
      × IsCopying kv state.status
      × (found ≡ (
          includes "shard_2" (Dict.values state.tenant_assignments)
          && not (is_primary kv (some "shard_0") "shard_2"))))
    ⊎ (((state : ShardMigrationState) × InMigration kv running "ann" state
          × ((state.dual_write ≡ false) ⊎ IsIdle kv state.status)
          × (found ≡ false))
        ⊎ (NoMigration kv running "ann" × (found ≡ false)))
get_dual_write_targets_example =
    get_dual_write_targets_lem kv running "ann" "shard_2" (some "shard_0")

complete_migration-targets_example :
    get_dual_write_targets kv (complete_migration kv running "m1" 90) "ann" none ≡ []
unfolding get_state Dict.get new_state
complete_migration-targets_example =
    complete_migration-targets kv running "m1" "ann" 90 (record state { status = backfill }) none
      refl refl
