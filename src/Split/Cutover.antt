-- ===== src/Split/Cutover.antt =====
-- `cutover` of src/services/ShardSplitService.ts, over the routing versions that it publishes.
use workersql.Base.{
  ℕ, ◌+◌, ◌≡◌, refl, ◌⊎◌, inl, inr, ◌≢◌, ◌∙◌, true, false, ◌&&◌, List, [], ◌∷◌, Option, none, some,
  String, arith, string_eq, if◌then◌else◌, includes, all, Bool-cases, Option-cases, beq_refl,
}
use workersql.Dict
use workersql.Dict.{Dict, get-put}
use workersql.Kv.{Kv}
use workersql.Errors.{
  Error, invalid_phase, invalid_policy, incompatible_policy, config_load_error, Result, ok, err,
}
use workersql.Routing.{
  key_eq, Doc, RoutingPolicy, Stringified, get_current_version, get_policy_by_version,
  update_current_policy, validate_policy_compatibility,
}
use workersql.Routing.Versions.{update_current_policy_lem}
use workersql.Routing.Compat.{is_named, validate_policy_compatibility_lem}
use workersql.Split.Types.{cutover_pending, Plan, StoredPlan, is_caught_up, phase_beq}
use workersql.Split.Store.{Service, persist_plan, require_plan}
use workersql.Split.Commands.{
  assign_tenants, cutover_policy, cutover_description, completed_plan, cut_over, cutover,
}

-- The assignment sends the plan's tenants to the shard and leaves the others where they were.
pub get-assign_tenants :
    (m : Dict String String) (ts : List String) (shard u : String)
    → Dict.get (assign_tenants m ts shard) u ≡ (if includes u ts then some shard else Dict.get m u)
unfolding assign_tenants
get-assign_tenants m [] shard u = refl
get-assign_tenants m (t ∷ ts) shard u =
    ground (arith, get-assign_tenants (Dict.put m t shard) ts shard u, get-put m t u shard)

all-put :
    (m : Dict String String) (k v : String)
    → is_named v ≡ true
    → all (λ t. is_named t.1) m ≡ true
    → all (λ t. is_named t.1) (Dict.put m k v) ≡ true
unfolding Dict.put
all-put [] k v h e = ground arith
all-put ((j, w) ∷ m) k v h e = ground (arith, all-put m k v h)

all-assign_tenants :
    (m : Dict String String) (ts : List String) (shard : String)
    → is_named shard ≡ true
    → all (λ t. is_named t.1) m ≡ true
    → all (λ t. is_named t.1) (assign_tenants m ts shard) ≡ true
unfolding assign_tenants
all-assign_tenants m [] shard h e = e
all-assign_tenants m (t ∷ ts) shard h e =
    all-assign_tenants (Dict.put m t shard) ts shard h (all-put m t shard h e)

-- Every shard of a policy has a name.
abbrev pub NamesAllShards : RoutingPolicy → Type 0
NamesAllShards p =
    (all (λ t. is_named t.1) p.tenants ≡ true) × (all (λ r. is_named r.shard) p.ranges ≡ true)

cutover_policy-compatible :
    (policy q : RoutingPolicy) (plan : Plan)
    → NamesAllShards policy
    → is_named plan.target_shard ≡ true
    → validate_policy_compatibility (cutover_policy policy plan) q ≡ true
unfolding cutover_policy
cutover_policy-compatible policy q plan (h, k) named =
    validate_policy_compatibility_lem (cutover_policy policy plan) q
    ∙ rw (all-assign_tenants policy.tenants plan.tenant_ids plan.target_shard named h, k)

module _ {rkv : Kv key_eq Doc} {pkv : Kv string_eq StoredPlan} {World : Type 0}
    (digest : Stringified → String) (s : Service rkv pkv World) (now : ℕ) where
  abbrev update : RoutingPolicy → Plan → Result ℕ × rkv.Store
  update policy plan =
      update_current_policy rkv digest s.routing (cutover_policy policy plan)
        (some (cutover_description plan)) now

  cut_over_published :
      (plan : Plan) (policy : RoutingPolicy) (n : ℕ)
      → get_policy_by_version rkv s.routing (get_current_version rkv s.routing) ≡ some policy
      → (update policy plan).0 ≡ ok n
      → cut_over digest s plan now ≡ (
        ok (completed_plan plan n now),
        persist_plan (record s { routing = (update policy plan).1 }) (completed_plan plan n now),
      )
  unfolding cut_over
  cut_over_published plan policy n e f = rw (e, f, cut_over)

  -- What a cutover of `plan` has done: it published, as the next version, the policy that was current
  -- with every tenant of the plan sent to the target, and completed the plan.
  pub record CutOver (plan : Plan) (r : Result Plan × Service rkv pkv World) : Type 0 where
    pub policy : RoutingPolicy
    pub was_current :
        get_policy_by_version rkv s.routing (get_current_version rkv s.routing) ≡ some policy
    pub result : r.0 ≡ ok (completed_plan plan (get_current_version rkv s.routing + 1) now)
    pub version : get_current_version rkv r.1.routing ≡ get_current_version rkv s.routing + 1
    pub published :
        get_policy_by_version rkv r.1.routing (get_current_version rkv s.routing + 1)
        ≡ some (cutover_policy policy plan)
    pub kept :
        (v : ℕ)
        → v ≢ get_current_version rkv s.routing + 1
        → get_policy_by_version rkv r.1.routing v ≡ get_policy_by_version rkv s.routing v
    pub plans_kept :
        r.1.splits
        ≡ Dict.put s.splits plan.id
            (completed_plan plan (get_current_version rkv s.routing + 1) now)

  cut_over_refused :
      (plan : Plan) (policy : RoutingPolicy) (e : Error)
      → get_policy_by_version rkv s.routing (get_current_version rkv s.routing) ≡ some policy
      → update policy plan ≡ (err e, s.routing)
      → cut_over digest s plan now ≡ (err e, s)
  unfolding cut_over
  cut_over_refused plan policy e h k = ground arith

  cut_over_cases :
      (plan : Plan)
      → CutOver plan (cut_over digest s plan now)
        ⊎ ((e : Error) × (cut_over digest s plan now ≡ (err e, s)))
  cut_over_cases plan =
      elim (Option-cases
        (get_policy_by_version rkv s.routing (get_current_version rkv s.routing))) [
          | inl e ↦ inr (config_load_error, unfold cut_over in rw (e, cut_over))
          | inr (policy, e) ↦
              elim (update_current_policy_lem rkv digest s.routing (cutover_policy policy plan)
                (some (cutover_description plan)) now) [
                  | inl (_, _, (o, cur, st, kept)) ↦ inl (
                      rw (cut_over_published plan policy _ e o) (record {
                        policy = policy;
                        was_current = e;
                        result = refl;
                        version = unfold persist_plan in cur;
                        published = unfold persist_plan in st;
                        kept = unfold persist_plan in kept;
                        plans_kept = unfold persist_plan completed_plan in refl;
                      }))
                  | inr (inl (_, _, x)) ↦
                      inr (invalid_policy, cut_over_refused plan policy invalid_policy e x)
                  | inr (inr (_, x)) ↦
                      inr
                        (incompatible_policy, cut_over_refused plan policy incompatible_policy e x)
                ]
        ]

  -- The routes are those that the policy and the target make, for a cutover that published.
  pub cut_over_compatible :
      (plan : Plan) (policy : RoutingPolicy)
      → get_policy_by_version rkv s.routing (get_current_version rkv s.routing) ≡ some policy
      → NamesAllShards policy
      → is_named plan.target_shard ≡ true
      → CutOver plan (cut_over digest s plan now)
  cut_over_compatible plan policy e names named =
      elim (update_current_policy_lem rkv digest s.routing (cutover_policy policy plan)
        (some (cutover_description plan)) now) [
          | inl (_, _, (o, cur, st, kept)) ↦ rw (cut_over_published plan policy _ e o) (record {
            policy = policy;
            was_current = e;
            result = refl;
            version = unfold persist_plan in cur;
            published = unfold persist_plan in st;
            kept = unfold persist_plan in kept;
            plans_kept = unfold persist_plan completed_plan in refl;
          })
          | inr (inl (_, zero_version, _)) ↦
              absurd (unfold cutover_policy in omega (arith, zero_version))
          | inr (inr (refused, _)) ↦
              absurd (refused (λ q _. cutover_policy-compatible policy q plan names named))
        ]

  cutover_ready :
      (split_id : String) (plan : Plan)
      → Dict.get s.splits split_id ≡ some plan
      → phase_beq plan.phase cutover_pending ≡ true
      → is_caught_up plan.tail.status ≡ true
      → cutover digest s split_id now ≡ cut_over digest s plan now
  unfolding cutover
  cutover_ready split_id plan e f g = unfold require_plan in rw (e, f, g, cutover, require_plan)

  not_pending :
      (split_id : String) (plan : Plan)
      → Dict.get s.splits split_id ≡ some plan
      → (phase_beq plan.phase cutover_pending && is_caught_up plan.tail.status) ≡ false
      → cutover digest s split_id now ≡ (err invalid_phase, s)
  unfolding cutover require_plan
  not_pending split_id plan e f = ground arith

  -- A cutover of a plan in memory either publishes, which it does only if the plan is pending its
  -- cutover with the tail caught up, or it fails and leaves plans, policies and shards as they were.
  pub cutover_lem :
      (split_id : String) (plan : Plan)
      → Dict.get s.splits split_id ≡ some plan
      → ((phase_beq plan.phase cutover_pending ≡ true)
          × (is_caught_up plan.tail.status ≡ true)
          × CutOver plan (cutover digest s split_id now))
        ⊎ ((e : Error) × (cutover digest s split_id now ≡ (err e, s)))
  cutover_lem split_id plan e = elim (Bool-cases (phase_beq plan.phase cutover_pending)) [
    | inr f ↦ inr (invalid_phase, not_pending split_id plan e (ground arith))
    | inl f ↦ elim (Bool-cases (is_caught_up plan.tail.status)) [
      | inr g ↦ inr (invalid_phase, not_pending split_id plan e (ground arith))
      | inl g ↦
          rw (cutover_ready split_id plan e f g)
            (elim (cut_over_cases plan) [ inl done ↦ inl (f, g, done) | inr refused ↦ inr refused ])
    ]
  ]

-- The shard of a tenant under the policy that is current.
abbrev pub policy_route : Option RoutingPolicy → String → Option String
policy_route none tenant = none
policy_route (some p) tenant = Dict.get p.tenants tenant

unfoldable pub current_route : (rkv : Kv key_eq Doc) → rkv.Store → String → Option String
current_route rkv routing tenant =
    policy_route (get_policy_by_version rkv routing (get_current_version rkv routing)) tenant

module _ {rkv : Kv key_eq Doc} {pkv : Kv string_eq StoredPlan} {World : Type 0}
    (digest : Stringified → String) (s : Service rkv pkv World) (now : ℕ) where
  CutOver-route :
      (plan : Plan) (r : Result Plan × Service rkv pkv World)
      → CutOver digest s now plan r
      → (u : String)
      → current_route rkv r.1.routing u ≡ (
          if includes u plan.tenant_ids
          then some plan.target_shard
          else current_route rkv s.routing u)
  unfolding current_route cutover_policy
  CutOver-route plan r c u =
      rw (c.version, c.published, c.was_current)
        (get-assign_tenants c.policy.tenants plan.tenant_ids plan.target_shard u)

  -- A plan that is pending its cutover, with the tail caught up and every shard that is involved
  -- named, is cut over: from then on the current policy sends the plan's tenants to the target and
  -- every other tenant where it went before, and the plan is completed.
  pub cutover_routes :
      (split_id : String) (plan : Plan) (policy : RoutingPolicy)
      → Dict.get s.splits split_id ≡ some plan
      → phase_beq plan.phase cutover_pending ≡ true
      → is_caught_up plan.tail.status ≡ true
      → get_policy_by_version rkv s.routing (get_current_version rkv s.routing) ≡ some policy
      → NamesAllShards policy
      → is_named plan.target_shard ≡ true
      → ((cutover digest s split_id now).0
          ≡ ok (completed_plan plan (get_current_version rkv s.routing + 1) now))
        × (Dict.get (cutover digest s split_id now).1.splits plan.id
            ≡ some (completed_plan plan (get_current_version rkv s.routing + 1) now))
        × ((u : String)
            → current_route rkv (cutover digest s split_id now).1.routing u ≡ (
                if includes u plan.tenant_ids
                then some plan.target_shard
                else current_route rkv s.routing u))
  cutover_routes split_id plan policy e f g h names named =
      rw (cutover_ready digest s now split_id plan e f g) (
        let c = cut_over_compatible digest s now plan policy h names named in
        (
          c.result,
          rw c.plans_kept (
              get-put s.splits plan.id plan.id
                (completed_plan plan (get_current_version rkv s.routing + 1) now)
              ∙ rw (beq_refl plan.id)),
          CutOver-route plan (cut_over digest s plan now) c,
        ))
