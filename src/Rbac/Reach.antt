-- ===== src/Rbac/Reach.antt =====
-- Which roles `resolveUserRoles` of src/services/RBACService.ts finds: those that the user's role ids
-- reach by inheritance, and it ends also when roles inherit from each other in a circle.
use workersql.Base.{
  ℕ, zero, suc, ◌+◌, ◌<◌, ◌≤◌, ◌≡◌, ◌↔◌, refl, subst, ap, ◌∙◌, inl, inr, Bool, true, false, not,
  List, [], ◌∷◌, ◌++◌, some, String, arith, string_eq, includes, includes-append, length, count,
  Bool-cases, Option-cases, beq_refl, beq_cases,
}
use workersql.Dict
use workersql.Dict.{Dict, includes-keys, has-get_some}
use workersql.Rbac.Types.{Role}
use workersql.Rbac.Roles.{Resolution, inherited, for_each, resolve_role, resolve_user_roles}
use workersql.Rbac.Growth.{
  Reaches, start, inherit, roles_of, Grows, Grows-refl, Grows-then, Grows-unknown, Grows-known,
}

-- The roles that are still to be visited.
abbrev pub left : Dict String Role → Resolution → ℕ
left roles s = count (λ k. not (includes k s.visited)) (Dict.keys roles)

count_mono :
    (p q : String → Bool) (ks : List String)
    → ((k : String) → p k ≡ true → q k ≡ true)
    → count p ks ≤ count q ks
count_mono p q [] h = omega arith
count_mono p q (k ∷ ks) h = ground (arith, count_mono p q ks h, h k)

count-strict :
    (p q : String → Bool) (ks : List String) (j : String)
    → ((k : String) → p k ≡ true → q k ≡ true)
    → includes j ks ≡ true
    → p j ≡ false
    → q j ≡ true
    → count p ks < count q ks
count-strict p q [] j h member out inside = absurd (ground (arith, member))
count-strict p q (k ∷ ks) j h member out inside = elim (beq_cases k j) [
  | inl (same, hit) ↦ ground (arith, count_mono p q ks h, ap p same, ap q same, out, inside)
  | inr miss ↦ ground (arith, count-strict p q ks j h, member, miss, out, inside, h k)
]

left-Grows :
    (roles : Dict String Role) (s t : Resolution) (ids : List String)
    → Grows roles s ids t
    → left roles t ≤ left roles s
left-Grows roles s t ids g =
    count_mono (λ k. not (includes k t.visited)) (λ k. not (includes k s.visited)) (Dict.keys roles)
      (λ k h. ground (arith, h, g.0 k))

left-visited :
    (roles : Dict String Role) (s : Resolution) (resolved : List Role) (id : String) (role : Role)
    → includes id s.visited ≡ false
    → Dict.get roles id ≡ some role
    → left roles (record { visited = s.visited ++ id ∷ []; resolved = resolved }) < left roles s
left-visited roles s resolved id role e found =
    count-strict (λ k. not (includes k (s.visited ++ id ∷ []))) (λ k. not (includes k s.visited))
      (Dict.keys roles) id (λ k h. ground (arith, h, includes-append k s.visited (id ∷ [])))
      (includes-keys roles id ∙ has-get_some roles id role found)
      (ground (arith, includes-append id s.visited (id ∷ []), beq_refl id)) (ground (arith, e))

count-keys-le :
    (p : String → Bool) (roles : Dict String Role) → count p (Dict.keys roles) ≤ length roles
count-keys-le p [] = omega arith
count-keys-le p ((k, role) ∷ roles) = ground (arith, count-keys-le p roles)

left_le : (roles : Dict String Role) (s : Resolution) → left roles s ≤ length roles
left_le roles s = count-keys-le (λ k. not (includes k s.visited)) roles

visits_lem :
    (fuel : ℕ) (roles : Dict String Role)
    → ((s : Resolution) (id : String)
        → left roles s < fuel
        → (t : Resolution) × (resolve_role fuel roles id s ≡ some t) × Grows roles s (id ∷ []) t)
    → (s : Resolution) (ids : List String) → left roles s < fuel
    → (t : Resolution) × (for_each (resolve_role fuel roles) ids s ≡ some t) × Grows roles s ids t
unfolding for_each
visits_lem fuel roles visit s [] h = (s, refl, Grows-refl roles s)
visits_lem fuel roles visit s (id ∷ ids) h =
    let (t, e, g) = visit s id h in
    let (u, f, k) =
      visits_lem fuel roles visit t ids (omega (arith, h, left-Grows roles s t (id ∷ []) g)) in
    (u, rw (e, for_each) f, Grows-then roles s t u id ids g k)

-- While fewer roles are left than there is fuel, a visit ends.
visit_lem :
    (fuel : ℕ) (roles : Dict String Role) (s : Resolution) (id : String)
    → left roles s < fuel
    → (t : Resolution) × (resolve_role fuel roles id s ≡ some t) × Grows roles s (id ∷ []) t
unfolding resolve_role
visit_lem zero roles s id h = absurd (omega (arith, h))
visit_lem (suc fuel) roles s id h = elim (Bool-cases (includes id s.visited)) [
  | inl e ↦ (
    s,
    rw (e, resolve_role) refl,
    (
      λ x m. m,
      λ x m. elim (beq_cases id x) [
        | inl (same, hit) ↦ subst (λ k. includes k s.visited ≡ true) same e
        | inr miss ↦ absurd (ground (arith, m, miss))
      ],
      λ x y role m out. absurd (ground (arith, m, out)),
      λ x m. inl m,
      λ q. q,
    ),
  )
  | inr e ↦ elim (Option-cases (Dict.get roles id)) [
    | inl unknown ↦ (
      record s { visited = s.visited ++ id ∷ [] },
      rw (e, unknown, resolve_role) refl,
      Grows-unknown roles s id unknown,
    )
    | inr (role, found) ↦
        let (t, f, g) =
          visits_lem fuel roles (visit_lem fuel roles)
            (record { visited = s.visited ++ id ∷ []; resolved = s.resolved ++ role ∷ [] })
            (inherited role)
            (omega (arith, h, left-visited roles s (s.resolved ++ role ∷ []) id role e found)) in
        (t, rw (e, found, resolve_role) f, Grows-known roles s t id role found g)
  ]
]

abbrev nothing : Resolution
nothing = record { visited = []; resolved = [] }

reached_visited :
    (roles : Dict String Role) (ids : List String) (t : Resolution)
    → Grows roles nothing ids t
    → (x : String) → Reaches roles ids x
    → includes x t.visited ≡ true
reached_visited roles ids t g _ (start x m) = g.1 x m
reached_visited roles ids t g _ (inherit x y role r found child) =
    g.2 x y role (reached_visited roles ids t g x r) refl found child

-- For any schema, cyclic inheritance included, and any role ids of a user, the resolution ends. Each role
-- id that it visits is one that the user's ids reach by inheritance, and each one reached is visited. The
-- roles that it gives are those of the visited ids that the schema knows, in the order of the visits.
pub resolve_user_roles_lem :
    (roles : Dict String Role) (ids : List String)
    → (t : Resolution) × (resolve_user_roles roles ids ≡ some t)
      × (t.resolved ≡ roles_of roles t.visited)
      × ((x : String) → (includes x t.visited ≡ true) ↔ Reaches roles ids x)
unfolding resolve_user_roles
resolve_user_roles_lem roles ids =
    let (t, e, g) =
      visits_lem (length roles + 1) roles (visit_lem (length roles + 1) roles) nothing ids
        (omega (arith, left_le roles nothing)) in
    (
      t,
      e,
      g.4 refl,
      λ x. (
        λ m. elim (g.3 x m) [ inl none_yet ↦ absurd (ground (arith, none_yet)) | inr r ↦ r ],
        reached_visited roles ids t g x,
      ),
    )
