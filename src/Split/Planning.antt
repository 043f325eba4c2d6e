-- ===== src/Split/Planning.antt =====
-- `planSplit` of src/services/ShardSplitService.ts: what it checks and what it writes.
use workersql.Base.{
  Bool-cases, ℕ, ◌≡◌, refl, ◌⊎◌, inl, inr, ap, sym, ◌∙◌, Bool, true, false, not, List, [], ◌∷◌,
  Option, none, some, String, arith, ◌==◌, string_eq, includes, find, any, Option-cases, beq_cases,
  beq_true, includes-filter,
}
use workersql.Base.Sort.{any-sort_by}
use workersql.Dict
use workersql.Dict.{Dict}
use workersql.Kv.{Kv}
use workersql.Errors.{Error, invalid_split, config_load_error, ok, err}
use workersql.Routing.{key_eq, Doc, RoutingPolicy, get_current_version, get_policy_by_version}
use workersql.Split.Types.{planning, Plan, StoredPlan, TablePolicy}
use workersql.Split.Store.{Service, serves, persist_plan, list_plans}
use workersql.Split.Texts.{sort_texts, dedup, includes-dedup, includes-sort_texts}
use workersql.Split.Routes.{find-none}
use workersql.Split.Commands.{
  CreateSplitInput, conflicts_with, is_routed_to, mismatched_tenants, new_plan, plan_tenants,
  plan_split,
}

any_mono :
    {A : Type 0} (p q : A → Bool) (xs : List A)
    → ((x : A) → q x ≡ true → p x ≡ true)
    → any p xs ≡ false
    → any q xs ≡ false
any_mono p q [] imp h = refl
any_mono p q (x ∷ xs) imp h = ground (arith, imp x, any_mono p q xs imp)

any-includes :
    (t : String) (tenants ids : List String)
    → includes t tenants ≡ true
    → includes t ids ≡ true
    → any (λ u. includes u tenants) ids ≡ true
any-includes t tenants [] h k = cc
any-includes t tenants (i ∷ ids) h k = elim (beq_cases i t) [
  | inl (same, hit) ↦ rw same (rw h refl)
  | inr miss ↦ ground (arith, any-includes t tenants ids h)
]

serves-conflicts :
    (t : String) (tenants : List String) (plan : Plan)
    → includes t tenants ≡ true
    → serves t plan ≡ true
    → conflicts_with tenants plan ≡ true
unfolding conflicts_with
serves-conflicts t tenants plan h k = ground (arith, any-includes t tenants plan.tenant_ids h)

-- No active plan in memory moves one of the tenants.
no_conflict :
    (t : String) (tenants : List String) (splits : Dict String Plan)
    → find (conflicts_with tenants) (list_plans splits) ≡ none
    → includes t tenants ≡ true
    → any (serves t) (Dict.values splits) ≡ false
unfolding list_plans
no_conflict t tenants splits e h =
    any_mono (conflicts_with tenants) (serves t) (Dict.values splits)
      (λ plan. serves-conflicts t tenants plan h)
      (sym (any-sort_by (λ p. p.created_at) (conflicts_with tenants) (Dict.values splits))
        ∙ find-none (conflicts_with tenants) (list_plans splits) e)

routed-eq : (o : Option String) (shard : String) → is_routed_to o shard ≡ true → o ≡ some shard
routed-eq none shard h = cc
routed-eq (some s) shard h = ap some (beq_true s shard h)

-- Each tenant that passes is sent to the source shard by the policy.
all_routed :
    (t : String) (policy : RoutingPolicy) (shard : String) (tenants : List String)
    → mismatched_tenants policy shard tenants ≡ []
    → includes t tenants ≡ true
    → Dict.get policy.tenants t ≡ some shard
unfolding mismatched_tenants
all_routed t policy shard tenants e h = routed-eq (Dict.get policy.tenants t) shard (
    ground (
      arith,
      includes-filter t (λ u. not (is_routed_to (Dict.get policy.tenants u) shard)) tenants,
      ap (includes t) e,
    ))

pub List-cases : {A : Type 0} (xs : List A) → (xs ≡ []) ⊎ ((x : A) × (ys : List A) × (xs ≡ x ∷ ys))
List-cases [] = inl refl
List-cases (x ∷ xs) = inr (x, xs, refl)

module _ {rkv : Kv key_eq Doc} {pkv : Kv string_eq StoredPlan} {World : Type 0}
    (s : Service rkv pkv World) (input : CreateSplitInput) (id : String)
    (pols : Dict String TablePolicy) (now : ℕ) where
  abbrev the_plan : List String → Plan
  the_plan tenants = new_plan input id tenants pols now (get_current_version rkv s.routing)

  -- What a plan for `tenants` that was accepted has established, and what was written for it.
  pub record Planned (tenants : List String) (plan : Plan) (t : Service rkv pkv World)
      : Type 0 where
    pub named : plan.id ≡ id
    pub source : plan.source_shard ≡ input.source_shard
    pub target : plan.target_shard ≡ input.target_shard
    pub distinct : (plan.source_shard == plan.target_shard) ≡ false
    pub policies : plan.table_policies ≡ pols
    pub created : plan.created_at ≡ now
    pub same_tenants : (u : String) → includes u plan.tenant_ids ≡ includes u tenants
    pub unserved :
        (u : String) → includes u tenants ≡ true → any (serves u) (Dict.values s.splits) ≡ false
    pub policy : RoutingPolicy
    pub current : get_policy_by_version rkv s.routing plan.routing_version_at_start ≡ some policy
    pub routed :
        (u : String)
        → includes u tenants ≡ true
        → Dict.get policy.tenants u ≡ some plan.source_shard
    pub at_start : plan.routing_version_at_start ≡ get_current_version rkv s.routing
    pub in_planning : plan.phase ≡ planning
    pub written : t ≡ persist_plan s plan

  plan_tenants_cases :
      (tenants : List String)
      → ((e : Error) × (plan_tenants s input tenants id pols now ≡ (err e, s)))
        ⊎ ((plan_tenants s input tenants id pols now
              ≡ (ok (the_plan tenants), persist_plan s (the_plan tenants)))
            × (find (conflicts_with tenants) (list_plans s.splits) ≡ none)
            × ((p : RoutingPolicy) × (get_policy_by_version rkv s.routing
                    (get_current_version rkv s.routing)
                  ≡ some p)
                × (mismatched_tenants p input.source_shard tenants ≡ [])))
  plan_tenants_cases tenants =
      elim (Option-cases (find (conflicts_with tenants) (list_plans s.splits))) [
        | inr (c, e) ↦ inl (invalid_split, unfold plan_tenants in rw (e, plan_tenants))
        | inl e ↦
            elim (Option-cases
              (get_policy_by_version rkv s.routing (get_current_version rkv s.routing))) [
                | inl f ↦ inl (config_load_error, unfold plan_tenants in rw (e, f, plan_tenants))
                | inr (p, f) ↦ elim (List-cases (mismatched_tenants p input.source_shard tenants)) [
                  | inr (u, us, g) ↦
                      inl (invalid_split, unfold plan_tenants in rw (e, f, g, plan_tenants))
                  | inl g ↦ inr (unfold plan_tenants in rw (e, f, g, plan_tenants), e, (p, f, g))
                ]
              ]
      ]

  split_nonempty :
      (u : String) (us : List String)
      → input.tenant_ids ≡ u ∷ us
      → (input.source_shard == input.target_shard) ≡ false
      → plan_split s input id pols now
        ≡ plan_tenants s input (sort_texts (dedup (u ∷ us))) id pols now
  unfolding plan_split
  split_nonempty u us e h = ground arith

  -- A split is refused, with nothing written, or it is planned: the plan's shards are those of the
  -- input and differ, its tenants are those of the input, none of them is moved by an active plan, the
  -- current policy sends each to the plan's source shard, and the plan is in memory and in the
  -- namespace, in the phase `planning`.
  pub plan_split_lem :
      ((e : Error) × (plan_split s input id pols now ≡ (err e, s)))
      ⊎ ((plan : Plan) × (t : Service rkv pkv World) × (plan_split s input id pols now
            ≡ (ok plan, t))
          × Planned input.tenant_ids plan t)
  plan_split_lem = elim (List-cases input.tenant_ids) [
    | inl e ↦ inl (invalid_split, unfold plan_split in rw (e, plan_split))
    | inr (u, us, e) ↦ elim (Bool-cases (input.source_shard == input.target_shard)) [
      | inl same ↦ inl (invalid_split, unfold plan_split in rw (e, same, plan_split))
      | inr distinct ↦ elim (plan_tenants_cases (sort_texts (dedup (u ∷ us)))) [
        | inl (err_code, f) ↦ inl (err_code, split_nonempty u us e distinct ∙ f)
        | inr (f, free, (p, cur, routed)) ↦ inr (
          the_plan (sort_texts (dedup (u ∷ us))),
          _,
          split_nonempty u us e distinct ∙ f,
          rw e (record {
            named = unfold new_plan in refl;
            source = unfold new_plan in refl;
            target = unfold new_plan in refl;
            distinct = unfold new_plan in distinct;
            policies = unfold new_plan in refl;
            created = unfold new_plan in refl;
            same_tenants = λ w. unfold new_plan in kept w u us;
            unserved = λ w h. no_conflict w _ s.splits free (kept w u us ∙ h);
            policy = p;
            current = unfold new_plan in cur;
            routed = λ w h.
                unfold new_plan in all_routed w p input.source_shard _ routed (kept w u us ∙ h);
            at_start = unfold new_plan in refl;
            in_planning = unfold new_plan in refl;
            written = refl;
          }),
        )
      ]
    ]
  ]
    where
      kept :
          (w u : String) (us : List String)
          → includes w (sort_texts (dedup (u ∷ us))) ≡ includes w (u ∷ us)
      kept w u us = includes-sort_texts w (dedup (u ∷ us)) ∙ includes-dedup w (u ∷ us)
