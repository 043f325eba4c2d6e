-- ===== src/Router/Service.antt =====
-- The class `RouterService` of src/services/RouterService.ts: the policies that it keeps and the choice of a
-- shard. `read_tenant_policy`, `read_yaml` and `read_table_policy` are the reads of the namespace at keys that
-- nothing here writes, `parse` stands for `parseTablePolicy` of src/services/TablePolicyParser.ts, and
-- `extract_table_name` for the match of the regular expression of `extractTableName`. Logging, a read of the
-- namespace that throws and the platform's objects for a shard are left out.
use Prim.Native.String.{String}
use workersql.Base.{ℕ, ◌%◌, Bool, [], ◌∷◌, Option, none, some, ◌==◌, if◌then◌else◌, string_eq}
use workersql.Dict
use workersql.Dict.{Dict}
use workersql.Kv.{Kv}
use workersql.Errors.{Result, ok, err}
use workersql.Text.{◌++◌}
use workersql.Routing.{
  RoutingPolicy, Doc, key_eq, Stringified, get_current_version, get_policy_by_version,
  rollback_to_version, update_current_policy,
}
use workersql.Split.Types.{TablePolicy, bounded}
use workersql.Router.Hash.{hash_route, shard_name}
use workersql.Router.Fleet.{Fleet, ShardHealthResponse, find_optimal_shard}

pub data RoutingStrategy : Type 0 where
  tenant_hash table_hash round_robin capacity_aware custom : RoutingStrategy

abbrev pub strategy_name : RoutingStrategy → String
strategy_name tenant_hash = "tenant_hash"
strategy_name table_hash = "table_hash"
strategy_name round_robin = "round_robin"
strategy_name capacity_aware = "capacity_aware"
strategy_name custom = "custom"

pub record ShardTarget : Type 0 where
  pub shard_id : String
  pub routing_reason : String

pub record QueryRequest : Type 0 where
  pub sql : String
  pub shard_key : Option String

pub record Router : Type 0 where
  pub routing_policies : Dict String RoutingPolicy
  pub table_policies : Dict String TablePolicy
  pub fleet : Fleet

abbrev pub default_table_policy : TablePolicy
default_table_policy = record {
  pk = "id";
  shard_by = none;
  cache = record { mode = bounded; ttl_ms = 60000; swr_ms = 300000; always_strong_columns = none };
}

abbrev pub default_routing_policy : RoutingPolicy
default_routing_policy = record { version = 1; tenants = []; ranges = [] }

-- The constructor, with `initializeDefaultPolicies`.
abbrev pub new_router : Router
new_router = record {
  routing_policies = [];
  table_policies =
      ("users", default_table_policy)
      ∷ ("orders", default_table_policy)
      ∷ ("products", default_table_policy)
      ∷ [];
  fleet = record { shard_health = []; last_health_check = 0 };
}

-- An empty text counts as missing.
abbrev pub truthy : Option String → Option String
truthy none = none
truthy (some s) = if s == "" then none else some s

abbrev pub first_of : Option String → Option String → String → String
first_of (some a) _ _ = a
first_of none (some b) _ = b
first_of none none c = c

module _ (kv : Kv key_eq Doc) (read_tenant_policy : kv.Store → String → Option RoutingPolicy) where
  -- What the namespace holds for a tenant: the current policy, else the tenant's own, else the default one.
  unfoldable pub load_policy : kv.Store → String → RoutingPolicy
  load_policy s tenant_id = elim (get_policy_by_version kv s (get_current_version kv s)) [
    | some policy ↦ policy
    | none ↦ elim (read_tenant_policy s tenant_id) [
      | some policy ↦ policy
      | none ↦ default_routing_policy
    ]
  ]

  unfoldable pub get_routing_policy : Router → kv.Store → String → RoutingPolicy × Router
  unfolding load_policy
  get_routing_policy r s tenant_id = elim (Dict.get r.routing_policies tenant_id) [
    | some policy ↦ (policy, r)
    | none ↦
        let policy = load_policy s tenant_id in
        (policy, record r { routing_policies = Dict.put r.routing_policies tenant_id policy })
  ]

  unfoldable pub update_routing_policy :
      (Stringified → String)
      → Router
      → kv.Store
      → RoutingPolicy
      → Option String
      → ℕ
      → Result ℕ × Router × kv.Store
  update_routing_policy digest r s policy description now =
      let (updated, t) =
        update_current_policy kv digest s policy
          (some (first_of (truthy description) none "Policy update")) now in
      elim updated [
        | ok version ↦ (ok version, record r { routing_policies = [] }, t)
        | err e ↦ (err e, r, t)
      ]

  unfoldable pub rollback_policy_to_version :
      Router → kv.Store → ℕ → Result Bool × Router × kv.Store
  rollback_policy_to_version r s version =
      let (done, t) = rollback_to_version kv s version in
      elim done [
        | ok success ↦ (ok success, (if success then record r { routing_policies = [] } else r), t)
        | err e ↦ (err e, r, t)
      ]

  module _ (read_yaml : kv.Store → String → Option String)
      (parse : String → String → Option TablePolicy)
      (read_table_policy : kv.Store → String → Option TablePolicy) where
    -- The YAML text, where it is there and can be parsed, else the stored document, else the default.
    unfoldable pub load_table_policy : kv.Store → String → TablePolicy
    load_table_policy s table_name =
        let stored : TablePolicy = elim (read_table_policy s table_name) [
          | some policy ↦ policy
          | none ↦ default_table_policy
        ] in
        elim (truthy (read_yaml s table_name)) [
          | none ↦ stored
          | some text ↦ elim (parse text table_name) [ some policy ↦ policy | none ↦ stored ]
        ]

    unfoldable pub get_table_policy : Router → kv.Store → String → TablePolicy × Router
    unfolding load_table_policy
    get_table_policy r s table_name = elim (Dict.get r.table_policies table_name) [
      | some policy ↦ (policy, r)
      | none ↦
          let policy = load_table_policy s table_name in
          (policy, record r { table_policies = Dict.put r.table_policies table_name policy })
    ]

    module _ (default_strategy : RoutingStrategy) (extract_table_name : String → String)
        (max_shard_size_gb : ℕ) (poll : String → Option ShardHealthResponse) where
      unfoldable pub route_by_strategy :
          Router → String → String → TablePolicy → Option String → ℕ → Result String × Router
      route_by_strategy r tenant_id table_name table_policy shard_key now = elim default_strategy [
        | tenant_hash ↦ (ok (hash_route tenant_id), r)
        | table_hash ↦ (ok (hash_route (tenant_id ++ (":" ++ table_name))), r)
        | capacity_aware ↦
            let (found, fleet) = find_optimal_shard max_shard_size_gb poll now r.fleet in
            (found, record r { fleet = fleet })
        | round_robin ↦ (ok (shard_name (now % 4)), r)
        | custom ↦ (
          ok (hash_route (first_of (truthy shard_key) (truthy table_policy.shard_by) tenant_id)),
          r,
        )
      ]

      abbrev pub target_of : Result String → Result ShardTarget
      target_of (err e) = err e
      target_of (ok shard_id) = ok (record {
        shard_id = shard_id;
        routing_reason = "strategy_" ++ strategy_name default_strategy;
      })

      unfoldable pub route_query :
          Router → kv.Store → QueryRequest → String → ℕ → Result ShardTarget × Router
      unfolding get_routing_policy get_table_policy route_by_strategy
      route_query r s query tenant_id now =
          let table_name = extract_table_name query.sql in
          let (routing_policy, r1) = get_routing_policy r s tenant_id in
          let (table_policy, r2) = get_table_policy r1 s table_name in
          elim (truthy (Dict.get routing_policy.tenants tenant_id)) [
            | some shard_id ↦ (
              ok (record { shard_id = shard_id; routing_reason = "explicit_tenant_assignment" }),
              r2,
            )
            | none ↦
                let (found, r3) =
                  route_by_strategy r2 tenant_id table_name table_policy query.shard_key now in
                (target_of found, r3)
          ]
