-- ===== src/Migration/Targets.antt =====
-- Which shards the writes of a tenant go to while it migrates, in src/services/ShardMigrationService.ts.
use workersql.Base.{
  ℕ, ◌≡◌, refl, ap, ◌∙◌, ◌⊎◌, Bool, inl, inr, true, false, not, ◌&&◌, ◌||◌, List, [], ◌∷◌, ◌++◌,
  Option, none, some, String, arith, ◌==◌, if◌then◌else◌, includes, includes-append,
  includes-filter, string_eq, nat_eq, Bool-cases, Option-cases, beq_cases, subst,
}
use workersql.Dict
use workersql.Dict.{Dict}
use workersql.Kv.{Kv}
use workersql.Migration.{
  ShardMigrationState, Status, initializing, backfill, tail_sync, cutover_pending, cutover_complete,
  rolled_back, migration_key_eq, MigrationDoc, tenant_key, as_id, get_state, save_state, completed,
  unmark_tenants, is_writing, distinct, info_of, RoutingInfo, get_routing_info_for_tenant,
  get_dual_write_targets, complete_migration,
}
use workersql.Migration.Marks.{IsMarked, get-unmark_tenants}

module _ (kv : Kv migration_key_eq MigrationDoc) where
  completed_unmarked :
      (s : kv.Store) (id : String) (now : ℕ) (state : ShardMigrationState)
      → get_state kv s id ≡ some state
      → (t : kv.Store) × (complete_migration kv s id now ≡ unmark_tenants kv t state.tenants)
  unfolding complete_migration
  completed_unmarked s id now state e = (
    save_state kv s (record state {
      dual_write = false;
      status = completed;
      completed_at = some now;
      updated_at = now;
    }),
    rw (e, complete_migration) refl,
  )

  unmarked_targets :
      (s : kv.Store) (tenant : String) (primary : Option String)
      → kv.get s (tenant_key tenant) ≡ none
      → get_dual_write_targets kv s tenant primary ≡ []
  unfolding get_dual_write_targets get_routing_info_for_tenant
  unmarked_targets s tenant primary e =
      rw (get_dual_write_targets, get_routing_info_for_tenant, e) refl

  -- Once a migration that has a state is completed, in whatever status it was, the writes of none of its tenants go to
  -- any further shard, with or without a primary one.
  pub complete_migration-targets :
      (s : kv.Store) (id tenant : String) (now : ℕ) (state : ShardMigrationState)
      (primary : Option String)
      → get_state kv s id ≡ some state
      → includes tenant state.tenants ≡ true
      → get_dual_write_targets kv (complete_migration kv s id now) tenant primary ≡ []
  complete_migration-targets s id tenant now state primary e member =
      let (t, f) = completed_unmarked s id now state e in
      unmarked_targets _ tenant primary (
        ap (λ u. kv.get u (tenant_key tenant)) f
        ∙ (get-unmark_tenants kv t state.tenants tenant ∙ rw member refl))

  seen_or_new :
      (x y : String) (seen ys : List String)
      → (includes x (if includes y seen then seen else seen ++ y ∷ []) || includes x ys)
        ≡ (includes x seen || (y == x || includes x ys))
  seen_or_new x y seen ys = elim (Bool-cases (includes y seen)) [
    | inr e ↦ rw e (rw (includes-append x seen (y ∷ [])) (ground arith))
    | inl e ↦ rw e (elim (beq_cases y x) [
      | inl (same, hit) ↦ rw (hit, subst (λ k. includes k seen ≡ true) same e) refl
      | inr miss ↦ rw miss refl
    ])
  ]

  includes-distinct :
      (x : String) (seen xs : List String)
      → includes x (distinct kv seen xs) ≡ (includes x seen || includes x xs)
  includes-distinct x seen [] = ground arith
  includes-distinct x seen (y ∷ ys) =
      includes-distinct x (if includes y seen then seen else seen ++ y ∷ []) ys
      ∙ seen_or_new x y seen ys

  -- The statuses in which rows are copied or the routes are promoted, and the other ones.
  abbrev pub IsCopying : Status → Type 0
  IsCopying status = (status ≡ backfill) ⊎ ((status ≡ tail_sync) ⊎ (status ≡ cutover_pending))

  abbrev pub IsIdle : Status → Type 0
  IsIdle status =
      (status ≡ initializing)
      ⊎ ((status ≡ cutover_complete) ⊎ ((status ≡ completed) ⊎ (status ≡ rolled_back)))

  Status-cases :
      (status : Status)
      → (IsCopying status × (is_writing kv status ≡ true))
        ⊎ (IsIdle status × (is_writing kv status ≡ false))
  Status-cases initializing = inr (inl refl, refl)
  Status-cases backfill = inl (inl refl, refl)
  Status-cases tail_sync = inl (inr (inl refl), refl)
  Status-cases cutover_pending = inl (inr (inr refl), refl)
  Status-cases cutover_complete = inr (inr (inl refl), refl)
  Status-cases completed = inr (inr (inr (inl refl)), refl)
  Status-cases rolled_back = inr (inr (inr (inr refl)), refl)

  -- The shard is the primary one, where this is given and not empty.
  abbrev pub is_primary : Option String → String → Bool
  is_primary none shard = false
  is_primary (some primary) shard = not (primary == "") && shard == primary

  -- The migration of a tenant, if it is marked with one that has a state.
  abbrev pub InMigration : kv.Store → String → ShardMigrationState → Type 0
  InMigration s tenant state =
      (id : String) × IsMarked kv s tenant id × (get_state kv s id ≡ some state)

  -- The tenant has no mark, or one of a migration without a state.
  abbrev pub NoMigration : kv.Store → String → Type 0
  NoMigration s tenant =
      (as_id (kv.get s (tenant_key tenant)) ≡ none)
      ⊎ ((id : String) × IsMarked kv s tenant id × (get_state kv s id ≡ none))

  found_active :
      (s : kv.Store) (tenant shard : String) (primary : Option String) (info : RoutingInfo kv)
      → get_routing_info_for_tenant kv s tenant ≡ some info
      → info.active ≡ true
      → includes shard (get_dual_write_targets kv s tenant primary)
        ≡ (includes shard info.dual_write_targets && not (is_primary primary shard))
  unfolding get_dual_write_targets
  found_active s tenant shard none info e a = rw (e, a, get_dual_write_targets) (ground arith)
  found_active s tenant shard (some p) info e a = elim (Bool-cases (p == "")) [
    | inl f ↦ rw (e, a, f, get_dual_write_targets) (ground arith)
    | inr f ↦
        rw (e, a, f, get_dual_write_targets)
          (includes-filter shard (λ x. not (x == p)) info.dual_write_targets)
  ]

  found_inactive :
      (s : kv.Store) (tenant : String) (primary : Option String) (info : RoutingInfo kv)
      → get_routing_info_for_tenant kv s tenant ≡ some info
      → info.active ≡ false
      → get_dual_write_targets kv s tenant primary ≡ []
  unfolding get_dual_write_targets
  found_inactive s tenant primary info e a = rw (e, a, get_dual_write_targets) refl

  routing_info :
      (s : kv.Store) (tenant id : String) (found : Option ShardMigrationState)
      → IsMarked kv s tenant id
      → get_state kv s id ≡ found
      → get_routing_info_for_tenant kv s tenant ≡ some (info_of kv found)
  unfolding get_routing_info_for_tenant
  routing_info s tenant id found e f = rw (e, f, get_routing_info_for_tenant) refl

  -- For every tenant, primary shard and shard: if the tenant is marked with a migration that writes twice and is in the
  -- status `backfill`, `tail_sync` or `cutover_pending`, the shard is among those to write to just when it is the target
  -- of one of the migration's tenants and not the primary shard. If the migration does not write twice, or is in another
  -- status, or there is none, no shard is.
  pub get_dual_write_targets_lem :
      (s : kv.Store) (tenant shard : String) (primary : Option String)
      → let found = includes shard (get_dual_write_targets kv s tenant primary) in
        ((state : ShardMigrationState) × InMigration s tenant state
          × (state.dual_write ≡ true)
          × IsCopying state.status
          × (found ≡ (
              includes shard (Dict.values state.tenant_assignments)
              && not (is_primary primary shard))))
        ⊎ (((state : ShardMigrationState) × InMigration s tenant state
              × ((state.dual_write ≡ false) ⊎ IsIdle state.status)
              × (found ≡ false))
            ⊎ (NoMigration s tenant × (found ≡ false)))
  unfolding get_dual_write_targets get_routing_info_for_tenant
  get_dual_write_targets_lem s tenant shard primary =
      elim (Option-cases (as_id (kv.get s (tenant_key tenant)))) [
        | inl e ↦
            inr (inr (inl e, rw (e, get_dual_write_targets, get_routing_info_for_tenant) refl))
        | inr (id, e) ↦ elim (Option-cases (get_state kv s id)) [
          | inl f ↦ inr (
              inr (
                inr (id, e, f),
                ap (includes shard) (
                    found_inactive s tenant primary (info_of kv none)
                      (routing_info s tenant id none e f) refl),
              ))
          | inr (state, f) ↦
              let known = routing_info s tenant id (some state) e f in
              elim (Bool-cases state.dual_write) [
                | inr d ↦ inr (
                    inl (
                      state,
                      (id, e, f),
                      inl d,
                      ap (includes shard)
                          (found_inactive s tenant primary (info_of kv (some state)) known d),
                    ))
                | inl d ↦
                    let active =
                      found_active s tenant shard primary (info_of kv (some state)) known d in
                    elim (Status-cases state.status) [
                      | inr (idle, w) ↦ inr (inl (state, (id, e, f), inr idle, active ∙ rw w refl))
                      | inl (copying, w) ↦ inl (
                        state,
                        (id, e, f),
                        d,
                        copying,
                        active
                            ∙ rw w (
                                ap (λ b. b && not (is_primary primary shard))
                                  (includes-distinct shard []
                                    (Dict.values state.tenant_assignments))),
                      )
                    ]
              ]
        ]
      ]
