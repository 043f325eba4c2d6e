-- ===== src/Split/Rollback.antt =====
-- `rollback` and `startDualWrite` of src/services/ShardSplitService.ts.
use workersql.Base.{
  ℕ, ◌≡◌, refl, ap, inl, inr, ◌∙◌, true, false, none, some, String, arith, ◌==◌, string_eq,
  if◌then◌else◌, includes,
}
use workersql.Dict
use workersql.Dict.{Dict, get-put}
use workersql.Kv.{Kv}
use workersql.Errors.{version_not_found, ok, err}
use workersql.Routing.{key_eq, Doc, version_key, version_doc, RoutingPolicy, get_policy_by_version}
use workersql.Routing.Versions.{
  rollback_found, rollback_missing, policy_put_version, current_put_version,
}
use workersql.Split.Types.{Plan, StoredPlan, TablePolicy, is_plan_active, phase_beq}
use workersql.Split.Store.{Service, persist_plan, require_plan}
use workersql.Split.Planning.{plan_split_lem}
use workersql.Split.Commands.{
  CreateSplitInput, plan_split, dual_written, start_dual_write, rolled_back_plan, rollback,
}
use workersql.Split.Cutover.{current_route}

module _ {rkv : Kv key_eq Doc} {pkv : Kv string_eq StoredPlan} {World : Type 0}
    (s : Service rkv pkv World) (now : ℕ) where
  pub rollback_done :
      (plan : Plan) (policy : RoutingPolicy)
      → Dict.get s.splits plan.id ≡ some plan
      → get_policy_by_version rkv s.routing plan.routing_version_at_start ≡ some policy
      → rollback s plan.id now ≡ (
        ok (rolled_back_plan plan now),
        persist_plan
            (record s {
              routing = rkv.put s.routing version_key (version_doc plan.routing_version_at_start);
            })
            (rolled_back_plan plan now),
      )
  unfolding rollback require_plan
  rollback_done plan policy e f =
      ground (arith, rollback_found rkv s.routing plan.routing_version_at_start policy f)

  route_put_version :
      (n : ℕ) (policy : RoutingPolicy) (u : String)
      → get_policy_by_version rkv s.routing n ≡ some policy
      → current_route rkv (rkv.put s.routing version_key (version_doc n)) u
        ≡ Dict.get policy.tenants u
  unfolding current_route
  route_put_version n policy u f =
      rw (current_put_version rkv s.routing n, policy_put_version rkv s.routing n n, f)

  -- A rollback of a plan in memory, in whatever phase, whose starting version is stored: the plan ends
  -- rolled back and no longer serves any tenant, the policy that is current is the one of the starting
  -- version, whatever was published since, and every other plan is untouched.
  pub rollback_lem :
      (plan : Plan) (policy : RoutingPolicy)
      → Dict.get s.splits plan.id ≡ some plan
      → get_policy_by_version rkv s.routing plan.routing_version_at_start ≡ some policy
      → ((rollback s plan.id now).0 ≡ ok (rolled_back_plan plan now))
        × (is_plan_active (rolled_back_plan plan now) ≡ false)
        × ((u : String)
            → current_route rkv (rollback s plan.id now).1.routing u ≡ Dict.get policy.tenants u)
        × ((j : String)
            → Dict.get (rollback s plan.id now).1.splits j
              ≡ (if plan.id == j then some (rolled_back_plan plan now) else Dict.get s.splits j))
  rollback_lem plan policy e f = rw (rollback_done plan policy e f) (
    refl,
    unfold is_plan_active rolled_back_plan phase_beq in refl,
    λ u. unfold persist_plan in route_put_version plan.routing_version_at_start policy u f,
    λ j. unfold persist_plan rolled_back_plan in get-put s.splits plan.id j _,
  )

  -- A plan whose starting version is not stored cannot be rolled back, and nothing changes.
  pub rollback_missing_version :
      (plan : Plan)
      → Dict.get s.splits plan.id ≡ some plan
      → get_policy_by_version rkv s.routing plan.routing_version_at_start ≡ none
      → rollback s plan.id now ≡ (err version_not_found, s)
  unfolding rollback require_plan
  rollback_missing_version plan e f =
      ground (arith, rollback_missing rkv s.routing plan.routing_version_at_start f)

  -- `startDualWrite` has no guard: whatever phase a plan is in, completed and rolled back included, it
  -- is active again afterwards, in the phase `dual_write`, with its row cursors and row counter as they
  -- were, and the routing policy is not looked at.
  pub start_dual_write_lem :
      (plan : Plan)
      → Dict.get s.splits plan.id ≡ some plan
      → (start_dual_write s plan.id now
          ≡ (ok (dual_written plan now), persist_plan s (dual_written plan now)))
        × (is_plan_active (dual_written plan now) ≡ true)
        × ((dual_written plan now).copy.table_cursor ≡ plan.copy.table_cursor)
        × ((dual_written plan now).copy.total_rows_copied ≡ plan.copy.total_rows_copied)
  start_dual_write_lem plan e = (
    unfold start_dual_write require_plan in ground arith,
    unfold is_plan_active dual_written phase_beq in refl,
    unfold dual_written in refl,
    unfold dual_written in refl,
  )

module _ {rkv : Kv key_eq Doc} {pkv : Kv string_eq StoredPlan} {World : Type 0} where
  -- A split that was planned in state `s` and is rolled back in any later state in which the plan still
  -- names its starting version and that version still has its policy: every tenant of the request is sent to
  -- the source shard again.
  pub rollback_restores_routes :
      (s later : Service rkv pkv World) (input : CreateSplitInput) (id : String)
      (pols : Dict String TablePolicy) (now then_at : ℕ) (planned plan : Plan)
      → (plan_split s input id pols now).0 ≡ ok planned
      → Dict.get later.splits plan.id ≡ some plan
      → plan.routing_version_at_start ≡ planned.routing_version_at_start
      → get_policy_by_version rkv later.routing planned.routing_version_at_start
        ≡ get_policy_by_version rkv s.routing planned.routing_version_at_start
      → (u : String) → includes u input.tenant_ids ≡ true
      → current_route rkv (rollback later plan.id then_at).1.routing u ≡ some input.source_shard
  rollback_restores_routes s later input id pols now then_at planned plan h held start same u
        member =
      elim (plan_split_lem s input id pols now) [
        | inl (e, refused) ↦ absurd (ground (arith, refused))
        | inr (p, t, accepted, done) ↦
            let same_plan : planned ≡ p = ground (arith, h, accepted) in
            (rollback_lem later then_at plan done.policy held
                (rw start (same ∙ rw same_plan done.current))).2
              u
            ∙ (done.routed u member ∙ ap some done.source)
      ]
