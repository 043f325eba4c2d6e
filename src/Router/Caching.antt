-- ===== src/Router/Caching.antt =====
-- The policies that `RouterService` keeps, against reading the namespace every time.
use workersql.Base.{
  ℕ, ◌≡◌, refl, sym, ap, ◌∙◌, inl, inr, Bool, true, List, [], ◌∷◌, Option, none, some, String,
  arith, string_eq, Option-cases, beq_cases, subst,
}
use workersql.Dict
use workersql.Dict.{Dict, get-put}
use workersql.Kv.{Kv}
use workersql.Errors.{
  Error, Result, ok, err, invalid_policy, incompatible_policy, version_not_found,
}
use workersql.Routing.{
  RoutingPolicy, Doc, key_eq, Stringified, rollback_to_version, update_current_policy,
}
use workersql.Routing.Versions.{update_current_policy_lem, rollback_to_version_lem}
use workersql.Router.Service.{
  Router, new_router, truthy, first_of, load_policy, get_routing_policy, update_routing_policy,
  rollback_policy_to_version,
}

pub data Operation : Type 0 where
  route_for : String → Operation
  update : RoutingPolicy → Option String → ℕ → Operation
  roll_back : ℕ → Operation

pub data Answer : Type 0 where
  follows : RoutingPolicy → Answer
  updated : Result ℕ → Answer
  rolled_back : Result Bool → Answer

module _ (kv : Kv key_eq Doc) (read_tenant_policy : kv.Store → String → Option RoutingPolicy)
    (digest : Stringified → String) where
  abbrev pub step : Router → kv.Store → Operation → Answer × Router × kv.Store
  step r s (route_for tenant) =
      let (policy, t) = get_routing_policy kv read_tenant_policy r s tenant in
      (follows policy, t, s)
  step r s (update policy description now) =
      let (result, t, u) =
        update_routing_policy kv read_tenant_policy digest r s policy description now in
      (updated result, t, u)
  step r s (roll_back version) =
      let (result, t, u) = rollback_policy_to_version kv read_tenant_policy r s version in
      (rolled_back result, t, u)

  abbrev pub run : Router → kv.Store → List Operation → List Answer × kv.Store
  run r s [] = ([], s)
  run r s (o ∷ os) =
      let (answer, t, u) = step r s o in let (answers, v) = run t u os in (answer ∷ answers, v)

  -- A router that keeps nothing.
  abbrev pub plain_step : kv.Store → Operation → Answer × kv.Store
  plain_step s (route_for tenant) = (follows (load_policy kv read_tenant_policy s tenant), s)
  plain_step s (update policy description now) =
      let (result, u) =
        update_current_policy kv digest s policy
          (some (first_of (truthy description) none "Policy update")) now in
      (updated result, u)
  plain_step s (roll_back version) =
      let (result, u) = rollback_to_version kv s version in (rolled_back result, u)

  abbrev pub plain_run : kv.Store → List Operation → List Answer × kv.Store
  plain_run s [] = ([], s)
  plain_run s (o ∷ os) =
      let (answer, u) = plain_step s o in let (answers, v) = plain_run u os in (answer ∷ answers, v)

  -- The policies that the router keeps are those that the namespace holds.
  abbrev pub IsCurrent : Router → kv.Store → Type 0
  IsCurrent r s =
      (tenant : String) (policy : RoutingPolicy)
      → Dict.get r.routing_policies tenant ≡ some policy
      → policy ≡ load_policy kv read_tenant_policy s tenant

  pub kept_policy :
      (r : Router) (s : kv.Store) (tenant : String) (policy : RoutingPolicy)
      → Dict.get r.routing_policies tenant ≡ some policy
      → get_routing_policy kv read_tenant_policy r s tenant ≡ (policy, r)
  unfolding get_routing_policy
  kept_policy r s tenant policy e = rw (e, get_routing_policy)

  pub loaded_policy :
      (r : Router) (s : kv.Store) (tenant : String)
      → Dict.get r.routing_policies tenant ≡ none
      → get_routing_policy kv read_tenant_policy r s tenant ≡ (
        load_policy kv read_tenant_policy s tenant,
        record r {
          routing_policies =
              Dict.put r.routing_policies tenant (load_policy kv read_tenant_policy s tenant);
        },
      )
  unfolding get_routing_policy
  loaded_policy r s tenant e = rw (e, get_routing_policy)

  put-IsCurrent :
      (r : Router) (s : kv.Store) (tenant : String)
      → IsCurrent r s
      → IsCurrent
          (record r {
            routing_policies =
                Dict.put r.routing_policies tenant (load_policy kv read_tenant_policy s tenant);
          })
          s
  put-IsCurrent r s tenant current other policy e = elim (beq_cases tenant other) [
    | inl (same, b) ↦
        subst (λ t. policy ≡ load_policy kv read_tenant_policy s t) same
          (ground (
            arith,
            get-put r.routing_policies tenant other (load_policy kv read_tenant_policy s tenant),
            b,
            e,
          ))
    | inr b ↦ current other policy (
        ground (
          arith,
          get-put r.routing_policies tenant other (load_policy kv read_tenant_policy s tenant),
          b,
          e,
        ))
  ]

  -- What a step of the router has to do with one that keeps nothing.
  abbrev Follows : Answer × Router × kv.Store → Answer × kv.Store → Type 0
  Follows (a, r, s) (b, t) = (a ≡ b) × (s ≡ t) × IsCurrent r s

  route-Follows :
      (r : Router) (s : kv.Store) (tenant : String)
      → IsCurrent r s
      → Follows (step r s (route_for tenant)) (plain_step s (route_for tenant))
  route-Follows r s tenant current = elim (Option-cases (Dict.get r.routing_policies tenant)) [
    | inl e ↦ rw (loaded_policy r s tenant e) (refl, refl, put-IsCurrent r s tenant current)
    | inr (policy, e) ↦
        rw (kept_policy r s tenant policy e) (ap follows (current tenant policy e), refl, current)
  ]

  -- Nothing is kept.
  cleared-IsCurrent : (r : Router) (s : kv.Store) → IsCurrent (record r { routing_policies = [] }) s
  unfolding Dict.get
  cleared-IsCurrent r s tenant policy e = cc

  update_ok :
      (r : Router) (s : kv.Store) (p : RoutingPolicy) (d : Option String) (now n : ℕ)
      → (update_current_policy kv digest s p
          (some (first_of (truthy d) none "Policy update"))
          now).0
        ≡ ok n
      → update_routing_policy kv read_tenant_policy digest r s p d now ≡ (
        ok n,
        record r { routing_policies = [] },
        (update_current_policy kv digest s p
            (some (first_of (truthy d) none "Policy update"))
            now).1,
      )
  unfolding update_routing_policy
  update_ok r s p d now n e = rw (e, update_routing_policy)

  update_err :
      (r : Router) (s : kv.Store) (p : RoutingPolicy) (d : Option String) (now : ℕ) (x : Error)
      → update_current_policy kv digest s p (some (first_of (truthy d) none "Policy update")) now
        ≡ (err x, s)
      → update_routing_policy kv read_tenant_policy digest r s p d now ≡ (err x, r, s)
  unfolding update_routing_policy
  update_err r s p d now x e = rw (ap (λ y. y.0) e, ap (λ y. y.1) e, update_routing_policy)

  failed_update-Follows :
      (r : Router) (s : kv.Store) (p : RoutingPolicy) (d : Option String) (now : ℕ) (x : Error)
      → IsCurrent r s
      → update_current_policy kv digest s p (some (first_of (truthy d) none "Policy update")) now
        ≡ (err x, s)
      → Follows (step r s (update p d now)) (plain_step s (update p d now))
  failed_update-Follows r s p d now x current e =
      rw (update_err r s p d now x e, e) (refl, refl, current)

  update-Follows :
      (r : Router) (s : kv.Store) (p : RoutingPolicy) (d : Option String) (now : ℕ)
      → IsCurrent r s
      → Follows (step r s (update p d now)) (plain_step s (update p d now))
  update-Follows r s p d now current =
      elim (update_current_policy_lem kv digest s p
        (some (first_of (truthy d) none "Policy update")) now) [
          | inl (_, _, (o, _, _, _)) ↦
              rw (update_ok r s p d now _ o) (ap updated (sym o), refl, cleared-IsCurrent r _)
          | inr (inl (_, _, x)) ↦ failed_update-Follows r s p d now invalid_policy current x
          | inr (inr (_, x)) ↦ failed_update-Follows r s p d now incompatible_policy current x
        ]

  rollback_ok :
      (r : Router) (s : kv.Store) (version : ℕ)
      → (rollback_to_version kv s version).0 ≡ ok true
      → rollback_policy_to_version kv read_tenant_policy r s version
        ≡ (ok true, record r { routing_policies = [] }, (rollback_to_version kv s version).1)
  unfolding rollback_policy_to_version
  rollback_ok r s version e = rw (e, rollback_policy_to_version)

  rollback_err :
      (r : Router) (s : kv.Store) (version : ℕ) (x : Error)
      → rollback_to_version kv s version ≡ (err x, s)
      → rollback_policy_to_version kv read_tenant_policy r s version ≡ (err x, r, s)
  unfolding rollback_policy_to_version
  rollback_err r s version x e = rw (ap (λ y. y.0) e, ap (λ y. y.1) e, rollback_policy_to_version)

  roll_back-Follows :
      (r : Router) (s : kv.Store) (version : ℕ)
      → IsCurrent r s
      → Follows (step r s (roll_back version)) (plain_step s (roll_back version))
  roll_back-Follows r s version current = elim (rollback_to_version_lem kv s version) [
    | inl (_, _, o, _, _) ↦
        rw (rollback_ok r s version o) (ap rolled_back (sym o), refl, cleared-IsCurrent r _)
    | inr (_, x) ↦ rw (rollback_err r s version version_not_found x, x) (refl, refl, current)
  ]

  step-Follows :
      (r : Router) (s : kv.Store) (o : Operation)
      → IsCurrent r s
      → Follows (step r s o) (plain_step s o)
  step-Follows r s (route_for tenant) = route-Follows r s tenant
  step-Follows r s (update p d now) = update-Follows r s p d now
  step-Follows r s (roll_back version) = roll_back-Follows r s version

  run_current :
      (r : Router) (s : kv.Store) (os : List Operation)
      → IsCurrent r s
      → run r s os ≡ plain_run s os
  run_current r s [] current = refl
  run_current r s (o ∷ os) current =
      let (a, b, c) = step-Follows r s o current in
      ap (λ v. ((step r s o).0 ∷ v.0, v.1)) (run_current (step r s o).1 (step r s o).2 os c)
      ∙ (λ i. (a i ∷ (plain_run (b i) os).0, (plain_run (b i) os).1))

  -- A router that was just made, and that alone changes the policies, answers every sequence of routes, updates
  -- and rollbacks as one that keeps nothing and reads the namespace every time, and leaves the same namespace.
  pub run-plain_run : (s : kv.Store) (os : List Operation) → run new_router s os ≡ plain_run s os
  run-plain_run s os = run_current new_router s os (cleared-IsCurrent new_router s)
