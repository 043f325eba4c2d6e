-- ===== src/Routing/Diff.antt =====
-- What `getPolicyDiff` of src/services/RoutingVersionManager.ts reports.
use workersql.Base.{
  all, ◌≡◌, refl, ap, sym, ◌∙◌, inl, inr, Bool, true, false, not, ◌&&◌, ◌||◌, List, [], ◌∷◌, ◌++◌,
  Option, none, some, String, arith, if◌then◌else◌, ◌==◌, string_eq, Bool-cases, All, All-append,
  includes, any, includes-filter, beq_refl, beq_cases,
}
use workersql.Dict
use workersql.Dict.{Dict, has-get, has-get_some}
use workersql.Routing.{RoutingPolicy, ChangedTenant, policy_diff, changed_from, changed_tenant}

-- The shard of a tenant moved from one named shard to another.
abbrev pub is_moved : Option String → Option String → Bool
is_moved (some a) (some b) = not (a == "") && (not (b == "") && not (a == b))
is_moved _ _ = false

any-append :
    {A : Type 0} (p : A → Bool) (xs ys : List A) → any p (xs ++ ys) ≡ (any p xs || any p ys)
any-append p [] ys = refl
any-append p (x ∷ xs) ys = ground (arith, any-append p xs ys)

-- Which tenant an entry of the report is about.
abbrev pub concerns : String → ChangedTenant → Bool
concerns t c = c.tenant_id == t

changed_tenant-any :
    (t id : String) (a b : Option String)
    → any (concerns t) (changed_tenant id a b) ≡ (is_moved a b && (id == t))
unfolding changed_tenant
changed_tenant-any t id (some a) (some b) = ground arith
changed_tenant-any t id none b = ground arith
changed_tenant-any t id (some a) none = ground arith

module _ (old new : Dict String String) where
  abbrev pub Accurate : ChangedTenant → Type 0
  Accurate c =
      (Dict.get old c.tenant_id ≡ some c.old_shard) × (Dict.get new c.tenant_id ≡ some c.new_shard)

  abbrev pub moves : String → Bool
  moves t = Dict.has new t && is_moved (Dict.get old t) (Dict.get new t)

  entry_any :
      (t id : String)
      → any
          (concerns t)
          (if Dict.has new id then changed_tenant id (Dict.get old id) (Dict.get new id) else [])
        ≡ (moves id && (id == t))
  entry_any t id = ground (arith, changed_tenant-any t id (Dict.get old id) (Dict.get new id))

  changed_from-any :
      (t : String) (ids : List String)
      → any (concerns t) (changed_from old new ids) ≡ (includes t ids && moves t)
  unfolding changed_from
  changed_from-any t [] = refl
  changed_from-any t (id ∷ ids) =
      any-append (concerns t)
        (if Dict.has new id then changed_tenant id (Dict.get old id) (Dict.get new id) else [])
        (changed_from old new ids)
      ∙ rw (entry_any t id, changed_from-any t ids)
          (elim (beq_cases id t) [
            | inl (same, hit) ↦ rw same (rw (beq_refl t) (ground arith))
            | inr miss ↦ rw miss (ground arith)
          ])

  changed_tenant-Accurate :
      (id : String) (a b : Option String)
      → Dict.get old id ≡ a
      → Dict.get new id ≡ b
      → All Accurate (changed_tenant id a b)
  unfolding changed_tenant
  changed_tenant-Accurate id (some a) (some b) e f =
      elim (Bool-cases (not (a == "") && (not (b == "") && not (a == b)))) [
        | inl h ↦ rw h ((e, f), tt)
        | inr h ↦ rw h tt
      ]
  changed_tenant-Accurate id none b e f = tt
  changed_tenant-Accurate id (some a) none e f = tt

  changed_from-Accurate : (ids : List String) → All Accurate (changed_from old new ids)
  unfolding changed_from
  changed_from-Accurate [] = tt
  changed_from-Accurate (id ∷ ids) =
      All-append Accurate _ _
        (elim (Bool-cases (Dict.has new id)) [
          | inl h ↦ rw h (changed_tenant-Accurate id (Dict.get old id) (Dict.get new id) refl refl)
          | inr h ↦ rw h tt
        ])
        (changed_from-Accurate ids)

-- Every tenant that has a shard has one with a name.
abbrev pub NamesShards : Dict String String → Type 0
NamesShards m = (t s : String) → Dict.get m t ≡ some s → (s == "") ≡ false

some-injective : (a b : String) → some a ≡ some b → a ≡ b
some-injective a b h = ground arith

pub all-NamesShards : (m : Dict String String) → all (λ t. not (t.1 == "")) m ≡ true → NamesShards m
unfolding Dict.get
all-NamesShards [] h t s e = cc
all-NamesShards ((k, v) ∷ m) h t s e = elim (Bool-cases (k == t)) [
  | inl hit ↦ rw (← some-injective v s (ground (arith, e, hit))) (ground arith)
  | inr miss ↦ all-NamesShards m (ground (arith, h)) t s (ground (arith, e, miss))
]

module _ (p q : RoutingPolicy) where
  -- Tenant by tenant, the report of the change from `p` to `q`: added are those of `q` alone, removed
  -- those of `p` alone, changed those of both whose shards are nonempty and differ; and an entry for a
  -- changed tenant names the shard that it has in `p` and the one that it has in `q`.
  pub policy_diff_tenants :
      ((t : String)
        → (includes t (policy_diff p q).added_tenants
            ≡ (Dict.has q.tenants t && not (Dict.has p.tenants t)))
          × (includes t (policy_diff p q).removed_tenants
              ≡ (Dict.has p.tenants t && not (Dict.has q.tenants t)))
          × (any (concerns t) (policy_diff p q).changed_tenants ≡ (
              Dict.has p.tenants t
              && (Dict.has q.tenants t && is_moved (Dict.get p.tenants t) (Dict.get q.tenants t)))))
      × All (Accurate p.tenants q.tenants) (policy_diff p q).changed_tenants
  unfolding policy_diff
  policy_diff_tenants = (
    λ t. (
      includes-filter t (λ t. not (Dict.has p.tenants t)) (Dict.keys q.tenants)
          ∙ rw (Dict.includes-keys q.tenants t),
      includes-filter t (λ t. not (Dict.has q.tenants t)) (Dict.keys p.tenants)
          ∙ rw (Dict.includes-keys p.tenants t),
      changed_from-any p.tenants q.tenants t (Dict.keys p.tenants)
          ∙ rw (Dict.includes-keys p.tenants t),
    ),
    changed_from-Accurate p.tenants q.tenants (Dict.keys p.tenants),
  )

  get-eq :
      (t : String) (a b : Option String)
      → Dict.get p.tenants t ≡ a
      → Dict.get q.tenants t ≡ b
      → (Dict.has q.tenants t && not (Dict.has p.tenants t)) ≡ false
      → (Dict.has p.tenants t && not (Dict.has q.tenants t)) ≡ false
      → (Dict.has p.tenants t && (Dict.has q.tenants t && is_moved a b)) ≡ false
      → NamesShards p.tenants
      → NamesShards q.tenants
      → a ≡ b
  get-eq t none none e f h k l m n = refl
  get-eq t none (some b) e f h k l m n =
      ground (arith, has-get p.tenants t e, has-get_some q.tenants t b f)
  get-eq t (some a) none e f h k l m n =
      ground (arith, has-get q.tenants t f, has-get_some p.tenants t a e)
  get-eq t (some a) (some b) e f h k l m n = elim (beq_cases a b) [
    | inl (same, _) ↦ ap some same
    | inr miss ↦
        ground (
          arith,
          has-get_some p.tenants t a e,
          has-get_some q.tenants t b f,
          m t a e,
          n t b f,
          miss,
        )
  ]

  -- A report with no added, removed or changed tenant means that the two policies send every tenant to
  -- the same shard, if no tenant is sent to the empty name.
  pub policy_diff_silent :
      NamesShards p.tenants
      → NamesShards q.tenants
      → (policy_diff p q).added_tenants ≡ []
      → (policy_diff p q).removed_tenants ≡ []
      → (policy_diff p q).changed_tenants ≡ []
      → (t : String) → Dict.get p.tenants t ≡ Dict.get q.tenants t
  policy_diff_silent m n a r c t =
      let (added, removed, changed) = policy_diff_tenants.0 t in
      get-eq t _ _ refl refl (sym added ∙ rw a) (sym removed ∙ rw r) (sym changed ∙ rw c) m n
