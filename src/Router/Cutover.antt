-- ===== src/Router/Cutover.antt =====
-- The routes of src/services/RouterService.ts after a cutover of src/services/ShardSplitService.ts, as
-- src/gateway.ts puts them together: `routeQuery` names the primary shard, `resolveReadShard` the one to read.
use workersql.Base.{
  ℕ, ◌≡◌, refl, ap, ◌∙◌, inl, inr, true, false, Option, none, some, String, arith, any, includes,
  string_eq, Option-cases,
}
use workersql.Dict
use workersql.Dict.{Dict}
use workersql.Kv.{Kv}
use workersql.Errors.{Result, ok}
use workersql.Routing.{
  RoutingPolicy, Doc, key_eq, Stringified, get_current_version, get_policy_by_version,
}
use workersql.Routing.Compat.{is_named}
use workersql.Split.Types.{cutover_pending, Plan, StoredPlan, TablePolicy, is_caught_up, phase_beq}
use workersql.Split.Store.{Service, serves, resolve_read_shard}
use workersql.Split.Commands.{cutover}
use workersql.Split.Cutover.{NamesAllShards, current_route, cutover_routes}
use workersql.Split.Routes.{unserved_read}
use workersql.Router.Fleet.{ShardHealthResponse}
use workersql.Router.Service.{
  Router, RoutingStrategy, ShardTarget, QueryRequest, truthy, load_policy, get_routing_policy,
  route_query,
}
use workersql.Router.Caching.{kept_policy, loaded_policy}

pub truthy_named : (s : String) → is_named s ≡ true → truthy (some s) ≡ some s
truthy_named s h = ground arith

abbrev pub explicit : String → ShardTarget
explicit shard = record { shard_id = shard; routing_reason = "explicit_tenant_assignment" }

module _ (kv : Kv key_eq Doc) (read_tenant_policy : kv.Store → String → Option RoutingPolicy)
    (read_yaml : kv.Store → String → Option String) (parse : String → String → Option TablePolicy)
    (read_table_policy : kv.Store → String → Option TablePolicy)
    (default_strategy : RoutingStrategy) (extract_table_name : String → String)
    (max_shard_size_gb : ℕ) (poll : String → Option ShardHealthResponse) where
  abbrev pub route : Router → kv.Store → QueryRequest → String → ℕ → Result ShardTarget × Router
  route =
      route_query kv read_tenant_policy read_yaml parse read_table_policy default_strategy
        extract_table_name max_shard_size_gb poll

  -- A policy that assigns the tenant decides.
  assigned :
      (r : Router) (s : kv.Store) (query : QueryRequest) (tenant shard : String) (now : ℕ)
      (p : RoutingPolicy)
      → (get_routing_policy kv read_tenant_policy r s tenant).0 ≡ p
      → Dict.get p.tenants tenant ≡ some shard
      → is_named shard ≡ true
      → (route r s query tenant now).0 ≡ ok (explicit shard)
  unfolding route_query
  assigned r s query tenant shard now p e f named = rw (e, f, truthy_named shard named, route_query)

  pub route_kept :
      (r : Router) (s : kv.Store) (query : QueryRequest) (tenant shard : String) (now : ℕ)
      (p : RoutingPolicy)
      → Dict.get r.routing_policies tenant ≡ some p
      → Dict.get p.tenants tenant ≡ some shard
      → is_named shard ≡ true
      → (route r s query tenant now).0 ≡ ok (explicit shard)
  route_kept r s query tenant shard now p e =
      assigned r s query tenant shard now p
        (ap (λ y. y.0) (kept_policy kv read_tenant_policy (λ d. "") r s tenant p e))

  current_policy :
      (s : kv.Store) (tenant shard : String)
      → current_route kv s tenant ≡ some shard
      → (p : RoutingPolicy) × (load_policy kv read_tenant_policy s tenant ≡ p)
        × (Dict.get p.tenants tenant ≡ some shard)
  unfolding current_route load_policy
  current_policy s tenant shard e =
      elim (Option-cases (get_policy_by_version kv s (get_current_version kv s))) [
        | inl missing ↦ absurd (ground (arith, missing, e))
        | inr (p, found) ↦ (p, rw (found, load_policy), rw found at e)
      ]

  pub route_loaded :
      (r : Router) (s : kv.Store) (query : QueryRequest) (tenant shard : String) (now : ℕ)
      → Dict.get r.routing_policies tenant ≡ none
      → current_route kv s tenant ≡ some shard
      → is_named shard ≡ true
      → (route r s query tenant now).0 ≡ ok (explicit shard)
  route_loaded r s query tenant shard now e f =
      let (p, loaded, g) = current_policy s tenant shard f in
      assigned r s query tenant shard now p
        (ap (λ y. y.0) (loaded_policy kv read_tenant_policy (λ d. "") r s tenant e) ∙ loaded) g

  -- A cutover does not reach a router that keeps an older policy: when the plan moved the tenant to the target and
  -- no plan serves the tenant any more, a router that had not met the tenant sends it to the target, and one
  -- that keeps a policy with another shard sends it, and so its reads, to that shard.
  pub cutover_unseen :
      {pkv : Kv string_eq StoredPlan} {World : Type 0} (digest : Stringified → String)
      (s : Service kv pkv World) (split_id : String) (plan : Plan)
      (policy old_policy : RoutingPolicy) (old new : Router) (query : QueryRequest)
      (tenant shard : String) (now later : ℕ)
      → Dict.get s.splits split_id ≡ some plan
      → phase_beq plan.phase cutover_pending ≡ true
      → is_caught_up plan.tail.status ≡ true
      → get_policy_by_version kv s.routing (get_current_version kv s.routing) ≡ some policy
      → NamesAllShards policy
      → is_named plan.target_shard ≡ true
      → includes tenant plan.tenant_ids ≡ true
      → any (serves tenant) (Dict.values (cutover digest s split_id now).1.splits) ≡ false
      → Dict.get new.routing_policies tenant ≡ none
      → Dict.get old.routing_policies tenant ≡ some old_policy
      → Dict.get old_policy.tenants tenant ≡ some shard
      → is_named shard ≡ true
      → ((route new (cutover digest s split_id now).1.routing query tenant later).0
          ≡ ok (explicit plan.target_shard))
        × ((route old (cutover digest s split_id now).1.routing query tenant later).0
            ≡ ok (explicit shard))
        × (resolve_read_shard (cutover digest s split_id now).1.splits tenant shard ≡ shard)
  cutover_unseen digest s split_id plan policy old_policy old new query tenant shard now later e f g
        h names named moved served fresh kept assigned_to shard_named =
      let (_, _, routes) = cutover_routes digest s now split_id plan policy e f g h names named in
      (
        route_loaded new _ query tenant plan.target_shard later fresh
            (routes tenant ∙ rw moved refl) named,
        route_kept old _ query tenant shard later old_policy kept assigned_to shard_named,
        unserved_read _ tenant shard served,
      )
