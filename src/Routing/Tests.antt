-- ===== src/Routing/Tests.antt =====
-- Tests of src/services/RoutingVersionManager.ts, and its theorems at concrete stores.
use workersql.Base.{
  ℕ, ◌≡◌, refl, [], ◌∷◌, none, some, String, arith, if◌then◌else◌, nat_beq, string_eq, nat_eq,
}
use workersql.Base.Sort.{sort_by}
use workersql.Dict
use workersql.Dict.{Dict}
use workersql.Kv.{Kv, dict_kv}
use workersql.Errors.{invalid_policy, ok, err}
use workersql.Routing.{
  RoutingPolicy, PolicyVersionInfo, Key, policy_key, history_key, version_key, key_eq, Doc,
  policy_doc, history_doc, version_doc, Stringified, get_current_version, get_policy_by_version,
  rollback_to_version, list_versions, create_new_version, update_current_policy,
  validate_policy_compatibility, calculate_policy_checksum, policy_diff, get_policy_diff,
  version_info,
}
use workersql.Routing.Versions.{rollback_then_update_overwrites}
use workersql.Routing.Diff.{NamesShards, all-NamesShards}
use workersql.Routing.History.{IsIndexed}

abbrev kv : Kv key_eq Doc
kv = dict_kv key_eq Doc

abbrev digest : Stringified → String
digest d = if nat_beq d.range_objects 0 then "none" else "some"

abbrev first_policy : RoutingPolicy
first_policy = record {
  version = 1;
  tenants = ("ann", "shard_0") ∷ ("bob", "shard_0") ∷ [];
  ranges = [];
}

abbrev second_policy : RoutingPolicy
second_policy = record {
  version = 2;
  tenants = ("ann", "shard_1") ∷ ("cid", "shard_0") ∷ [];
  ranges = [];
}

abbrev third_policy : RoutingPolicy
third_policy = record { version = 2; tenants = ("ann", "shard_2") ∷ []; ranges = [] }

abbrev first_store : Dict Key Doc
first_store = (policy_key 1, policy_doc first_policy) ∷ (version_key, version_doc 1) ∷ []

abbrev second_info : PolicyVersionInfo
second_info = record { version = 2; timestamp = 5; description = none; checksum = "none" }

abbrev second_store : Dict Key Doc
second_store =
    (policy_key 1, policy_doc first_policy)
    ∷ (version_key, version_doc 2)
    ∷ (policy_key 2, policy_doc second_policy)
    ∷ (history_key 2, history_doc second_info)
    ∷ []

routing : Unit {0}
unfolding get_current_version get_policy_by_version rollback_to_version list_versions
    create_new_version update_current_policy validate_policy_compatibility calculate_policy_checksum
    policy_diff get_policy_diff Dict.get Dict.put Dict.has Dict.delete sort_by version_info
routing = tt

update_writes :
    update_current_policy kv digest first_store second_policy none 5 ≡ (ok 2, second_store)
unfolding routing
update_writes = refl

update_refuses :
    (update_current_policy kv digest first_store (record second_policy { version = 0 }) none 5).0
    ≡ err invalid_policy
unfolding routing
update_refuses = refl

diff_reports :
    get_policy_diff kv second_store 1 2
    ≡ ok (record {
      added_tenants = "cid" ∷ [];
      removed_tenants = "bob" ∷ [];
      changed_tenants =
          record { tenant_id = "ann"; old_shard = "shard_0"; new_shard = "shard_1" } ∷ [];
      added_ranges = [];
      removed_ranges = [];
    })
unfolding routing
diff_reports = refl

rollback_then_update_overwrites_example :
    (◌≡◌ {A = ℕ} 2 2)
    × (get_policy_by_version kv
          (update_current_policy kv digest
            (rollback_to_version kv second_store 1).1
            third_policy
            none
            9).1
          2
        ≡ some third_policy)
unfolding routing
rollback_then_update_overwrites_example =
    rollback_then_update_overwrites kv digest second_store third_policy first_policy second_policy
      none 9 1 2 refl refl refl

first_policy-NamesShards : NamesShards first_policy.tenants
first_policy-NamesShards = all-NamesShards first_policy.tenants refl

second_store-IsIndexed : IsIndexed kv second_store
unfolding Dict.get
second_store-IsIndexed v i h = ground arith
