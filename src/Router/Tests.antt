-- ===== src/Router/Tests.antt =====
-- Tests of src/services/RouterService.ts, and its theorems at concrete inputs.
use workersql.Base.{
  ◌%◌, ◌<◌, ◌≡◌, refl, ◌⊎◌, true, false, List, [], ◌∷◌, Option, none, some, String, string_eq,
  includes, any, ltb, if◌then◌else◌,
}
use workersql.Dict
use workersql.Dict.{Dict}
use workersql.Errors.{ok, err, no_healthy_shards}
use workersql.Routing.{RoutingPolicy}
use workersql.Split.Types.{TablePolicy}
use workersql.Split.Store.{serves, resolve_read_shard}
use workersql.Split.Commands.{cutover}
use workersql.Split.Tests.{split, rkv, policy, digest, with_plan, ready_plan}
use workersql.Router.Hash.{
  shard_name, char_codes, hash_route, hash_codes, shard_index, polynomial, abs, shard_index_lem,
}
use workersql.Router.Fleet.{ShardHealthResponse, Fleet, get_available_shards, find_optimal_shard}
use workersql.Router.Fleet.Laws.{Eligible}
use workersql.Router.Fleet.Choice.{IsOptimal, find_optimal_shard_lem}
use workersql.Router.Service.{Router, QueryRequest, tenant_hash, new_router}
use workersql.Router.Caching.{
  Operation, route_for, update, roll_back, run, plain_run, run-plain_run,
}
use workersql.Router.Cutover.{route, explicit, cutover_unseen}

name_test : (shard_name 0 ≡ "shard_0") × (shard_name 12 ≡ "shard_12")
unfolding shard_name
name_test = (refl, refl)

-- `hashRoute('ab')`: 97 * 31 + 98 is 3105.
hash_test : (hash_codes 0 (char_codes "ab") ≡ 3105) × (hash_route "ab" ≡ "shard_1")
unfolding hash_codes char_codes hash_route shard_index shard_name
hash_test = (refl, refl)

-- The hash of this key is negative as a 32-bit number.
negative_test : (ltb 2147483647 (hash_codes 0 (char_codes "tenant-a")) ≡ true)
unfolding hash_codes char_codes
negative_test = refl

shard_index_example :
    (shard_index "tenant-a" < 4)
    × (shard_index "tenant-a" ≡ abs (polynomial (char_codes "tenant-a") % 4294967296) % 4)
shard_index_example = shard_index_lem "tenant-a"

abbrev idle : Fleet
idle = record { shard_health = []; last_health_check = 0 }

abbrev half_full : String → Option ShardHealthResponse
half_full name =
    if includes name ("shard_1" ∷ [])
    then none
    else some (record { ok_status = true; size_bytes = 1000; connections = 3 })

find_optimal_shard_example :
    ((shard : String) × ((find_optimal_shard 2 half_full 70 idle).0 ≡ ok shard)
      × IsOptimal 2 half_full 70 idle shard)
    ⊎ (((find_optimal_shard 2 half_full 70 idle).0 ≡ err no_healthy_shards)
        × ((other : String) (r : ShardHealthResponse)
            → includes other (get_available_shards 2) ≡ true
            → ¬ Eligible 2 half_full 70 other r))
find_optimal_shard_example = find_optimal_shard_lem 2 half_full 70 idle

abbrev own_policy : rkv.Store → String → Option RoutingPolicy
own_policy s tenant = none

abbrev next_policy : RoutingPolicy
next_policy = record { version = 2; tenants = ("ann", "shard_1") ∷ []; ranges = [] }

abbrev operations : List Operation
operations =
    route_for "ann"
    ∷ update next_policy none 30
    ∷ route_for "ann"
    ∷ roll_back 1
    ∷ route_for "ann"
    ∷ []

run-plain_run_example :
    run rkv own_policy digest new_router (with_plan ready_plan).routing operations
    ≡ plain_run rkv own_policy digest (with_plan ready_plan).routing operations
run-plain_run_example =
    run-plain_run rkv own_policy digest (with_plan ready_plan).routing operations

abbrev warm : Router
warm = record new_router { routing_policies = ("ann", policy) ∷ [] }

abbrev query : QueryRequest
query = record { sql = "SELECT 1"; shard_key = none }

abbrev no_text : rkv.Store → String → Option String
no_text s name = none

abbrev no_parse : String → String → Option TablePolicy
no_parse text name = none

abbrev no_policy : rkv.Store → String → Option TablePolicy
no_policy s name = none

abbrev table_of : String → String
table_of sql = "orders"

nobody_serves :
    any (serves "ann") (Dict.values (cutover digest (with_plan ready_plan) "s1" 50).1.splits)
    ≡ false
unfolding split
nobody_serves = refl

cutover_unseen_example :
    ((route rkv own_policy no_text no_parse no_policy tenant_hash table_of 2 half_full new_router
        (cutover digest (with_plan ready_plan) "s1" 50).1.routing
        query
        "ann"
        60).0
      ≡ ok (explicit "shard_1"))
    × ((route rkv own_policy no_text no_parse no_policy tenant_hash table_of 2 half_full warm
          (cutover digest (with_plan ready_plan) "s1" 50).1.routing
          query
          "ann"
          60).0
        ≡ ok (explicit "shard_0"))
    × (resolve_read_shard (cutover digest (with_plan ready_plan) "s1" 50).1.splits "ann" "shard_0"
        ≡ "shard_0")
unfolding split
cutover_unseen_example =
    cutover_unseen rkv own_policy no_text no_parse no_policy tenant_hash table_of 2 half_full digest
      (with_plan ready_plan) "s1" ready_plan policy policy warm new_router query "ann" "shard_0" 50
      60 refl refl refl refl (refl, refl) refl refl nobody_serves refl refl refl refl
