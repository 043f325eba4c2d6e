-- ===== src/Migration/Marks.antt =====
-- Which migration a tenant takes part in, in src/services/ShardMigrationService.ts.
use workersql.Base.{
  ℕ, ◌≡◌, refl, ap, ◌∙◌, sym, ◌⊎◌, beq_refl, inl, inr, true, false, List, [], ◌∷◌, Option, none,
  some, String, arith, ◌==◌, if◌then◌else◌, includes, length, string_eq, nat_eq, Bool-cases,
  Option-cases, beq_cases, subst,
}
use workersql.Kv.{Kv}
use workersql.Migration.{
  ShardMigrationState, ShardSplitRequest, state_key, index_key, state_doc, no_tenants, no_targets,
  index_migration, migration_key_eq, MigrationDoc, tenant_key, id_doc, as_id, already_participating,
  MigrationError, discovery_failed, invalid_assignment, Answer, done, failed, find_participating,
  save_state, mark_tenants, unmark_tenants, tables_of, assign_from, start_split, new_state,
}

refusal :
    {x : MigrationError} {r : Answer ShardMigrationState} {state : ShardMigrationState}
    → r ≡ done state
    → r ≡ failed x
    → ⊥
refusal e f = absurd (ground (arith, sym f ∙ e))

not_none : (t : String) (ts : List String) → includes t ts ≡ true → (length ts == 0) ≡ false
not_none t [] h = absurd (ground (arith, h))
not_none t (x ∷ ts) h = ground arith

module _ (kv : Kv migration_key_eq MigrationDoc) where
  get-mark_tenants :
      (s : kv.Store) (ts : List String) (id u : String)
      → kv.get (mark_tenants kv s ts id) (tenant_key u)
        ≡ (if includes u ts then some (id_doc id) else kv.get s (tenant_key u))
  unfolding mark_tenants
  get-mark_tenants s [] id u = refl
  get-mark_tenants s (t ∷ ts) id u =
      get-mark_tenants (kv.put s (tenant_key t) (id_doc id)) ts id u
      ∙ rw (kv.get-put s (tenant_key t) (tenant_key u) (id_doc id)) (elim (Bool-cases (t == u)) [
        | inl e ↦ rw e (elim (Bool-cases (includes u ts)) [ inl f ↦ rw f refl | inr f ↦ rw f refl ])
        | inr e ↦ rw e refl
      ])

  pub get-unmark_tenants :
      (s : kv.Store) (ts : List String) (u : String)
      → kv.get (unmark_tenants kv s ts) (tenant_key u)
        ≡ (if includes u ts then none else kv.get s (tenant_key u))
  unfolding unmark_tenants
  get-unmark_tenants s [] u = refl
  get-unmark_tenants s (t ∷ ts) u =
      get-unmark_tenants (kv.delete s (tenant_key t)) ts u
      ∙ rw (kv.get-delete s (tenant_key t) (tenant_key u)) (elim (Bool-cases (t == u)) [
        | inl e ↦ rw e (elim (Bool-cases (includes u ts)) [ inl f ↦ rw f refl | inr f ↦ rw f refl ])
        | inr e ↦ rw e refl
      ])

  -- The tenant is marked with the migration.
  abbrev pub IsMarked : kv.Store → String → String → Type 0
  IsMarked s tenant id = as_id (kv.get s (tenant_key tenant)) ≡ some id

  found_participating :
      (s : kv.Store) (ts : List String) (t id : String)
      → includes t ts ≡ true
      → IsMarked s t id
      → (other : String) × (find_participating kv s ts ≡ some other)
        × ((u : String) × (includes u ts ≡ true) × IsMarked s u other)
  unfolding find_participating
  found_participating s [] t id member e = absurd (ground (arith, member))
  found_participating s (u ∷ ts) t id member e =
      elim (Option-cases (as_id (kv.get s (tenant_key u)))) [
        | inr (other, f) ↦
            (other, rw (f, find_participating) refl, (u, ground (arith, beq_refl u), f))
        | inl f ↦ elim (beq_cases u t) [
          | inl (same, _) ↦
              absurd (ground (arith, subst (λ k. as_id (kv.get s (tenant_key k)) ≡ none) same f, e))
          | inr miss ↦
              let (other, g, (v, in_rest, marked)) =
                found_participating s ts t id (ground (arith, member, miss)) e in
              (other, rw (f, find_participating) g, (v, ground (arith, in_rest), marked))
        ]
      ]

  -- A call of `startSplit`.
  pub record Start : Type 0 where
    pub version : ℕ
    pub request : ShardSplitRequest
    pub id : String
    pub discovered : Option (List String)
    pub now : ℕ

  unfoldable pub start : kv.Store → Start → Answer ShardMigrationState × kv.Store
  unfolding start_split
  start s call = start_split kv s call.version call.request call.id call.discovered call.now

  -- The store after calls of `startSplit`, one after the other.
  unfoldable pub starts : kv.Store → List Start → kv.Store
  unfolding start
  starts s [] = s
  starts s (call ∷ calls) = starts (start s call).1 calls

  -- A start changes nothing, or none of its tenants was marked and all of them are marked last.
  record Started (s : kv.Store) (call : Start) : Type 0 where
    state : ShardMigrationState
    free : find_participating kv s call.request.tenants ≡ none
    marked : start s call ≡ (
      done state,
      mark_tenants kv
          (index_migration kv (save_state kv s state) call.id)
          call.request.tenants
          call.id,
    )

  refused :
      (s : kv.Store) (call : Start) (other : String)
      → (length call.request.tenants == 0) ≡ false
      → (length call.request.target_shards == 0) ≡ false
      → find_participating kv s call.request.tenants ≡ some other
      → start s call ≡ (failed (already_participating other), s)
  unfolding start start_split
  refused s call other e f g = rw (e, f, g, start_split) refl

  start_cases :
      (s : kv.Store) (call : Start)
      → ((x : MigrationError) × (start s call ≡ (failed x, s))) ⊎ Started s call
  unfolding start start_split
  start_cases s call = elim (Bool-cases (length call.request.tenants == 0)) [
    | inl p ↦ inl (no_tenants, rw (p, start_split) refl)
    | inr p ↦ elim (Bool-cases (length call.request.target_shards == 0)) [
      | inl q ↦ inl (no_targets, rw (p, q, start_split) refl)
      | inr q ↦ elim (Option-cases (find_participating kv s call.request.tenants)) [
        | inr (other, f) ↦ inl (already_participating other, refused s call other p q f)
        | inl f ↦ elim (Option-cases (tables_of kv call.request.tables call.discovered)) [
          | inl g ↦ inl (discovery_failed, rw (p, q, f, g, start_split) refl)
          | inr (tables, g) ↦
              elim (Option-cases
                (assign_from call.request.target_shards [] 0 call.request.tenants)) [
                  | inl h ↦ inl (invalid_assignment, rw (p, q, f, g, h, start_split) refl)
                  | inr (assignments, h) ↦ inr (record {
                    state =
                        new_state kv call.request call.id call.version tables assignments call.now;
                    free = f;
                    marked = rw (p, q, f, g, h, start_split) refl;
                  })
                ]
        ]
      ]
    ]
  ]

  kept_key :
      (s : kv.Store) (state : ShardMigrationState) (id tenant : String)
      → kv.get (index_migration kv (save_state kv s state) id) (tenant_key tenant)
        ≡ kv.get s (tenant_key tenant)
  unfolding index_migration save_state
  kept_key s state id tenant =
      kv.get-put _ index_key (tenant_key tenant) _
      ∙ kv.get-put s (state_key state.id) (tenant_key tenant) (state_doc state)

  marked_away :
      (s : kv.Store) (state : ShardMigrationState) (id tenant : String) (tenants : List String)
      → includes tenant tenants ≡ false
      → kv.get
          (mark_tenants kv (index_migration kv (save_state kv s state) id) tenants id)
          (tenant_key tenant)
        ≡ kv.get s (tenant_key tenant)
  marked_away s state id tenant tenants away =
      get-mark_tenants _ tenants id tenant ∙ rw away (kept_key s state id tenant)

  -- A mark outlasts every later start.
  start-IsMarked :
      (s : kv.Store) (call : Start) (tenant id : String)
      → IsMarked s tenant id
      → IsMarked (start s call).1 tenant id
  start-IsMarked s call tenant id e = elim (start_cases s call) [
    | inl (x, f) ↦ rw f e
    | inr st ↦ rw (st.marked) (elim (Bool-cases (includes tenant call.request.tenants)) [
      | inl member ↦
          let (other, found, _) = found_participating s _ tenant id member e in
          absurd (ground (arith, sym found ∙ st.free))
      | inr away ↦ ap as_id (marked_away s st.state call.id tenant call.request.tenants away) ∙ e
    ])
  ]

  starts-IsMarked :
      (calls : List Start) (s : kv.Store) (tenant id : String)
      → IsMarked s tenant id
      → IsMarked (starts s calls) tenant id
  unfolding starts
  starts-IsMarked [] s tenant id e = e
  starts-IsMarked (call ∷ calls) s tenant id e =
      starts-IsMarked calls (start s call).1 tenant id (start-IsMarked s call tenant id e)

  started_mark :
      (s : kv.Store) (call : Start) (tenant : String) (state : ShardMigrationState)
      → (start s call).0 ≡ done state
      → (call.id == "") ≡ false
      → includes tenant call.request.tenants ≡ true
      → IsMarked (start s call).1 tenant call.id
  started_mark s call tenant state e named member = elim (start_cases s call) [
    | inl (x, f) ↦ absurd (refusal e (ap (λ r. r.0) f))
    | inr st ↦ rw (st.marked) (
        ap as_id (get-mark_tenants _ call.request.tenants call.id tenant) ∙ rw (member, named) refl)
  ]

  -- After a start that succeeded under an identifier that is not empty, and any later starts with any requests,
  -- successful or not, every start with one of the tenants of the first and at least one target is refused, with the
  -- name of a migration that one of its tenants is marked with, and changes nothing. No completion or rollback comes in
  -- between, and none of the marks expires, which they do after a day.
  pub start_split-excludes :
      (s : kv.Store) (first second : Start) (calls : List Start) (tenant : String)
      (state : ShardMigrationState)
      → (start s first).0 ≡ done state
      → (first.id == "") ≡ false
      → includes tenant first.request.tenants ≡ true
      → includes tenant second.request.tenants ≡ true
      → (length second.request.target_shards == 0) ≡ false
      → let t = starts (start s first).1 calls in
        (other : String) × (u : String) × (start t second
          ≡ (failed (already_participating other), t))
        × (includes u second.request.tenants ≡ true)
        × IsMarked t u other
  start_split-excludes s first second calls tenant state e named in_first in_second targets =
      let mark =
        starts-IsMarked calls (start s first).1 tenant first.id
          (started_mark s first tenant state e named in_first) in
      let (other, f, (u, member, marked)) =
        found_participating _ second.request.tenants tenant first.id in_second mark in
      (
        other,
        u,
        refused _ second other (not_none tenant second.request.tenants in_second) targets f,
        member,
        marked,
      )
