-- ===== src/Rbac/Collecting.antt =====
-- `resolveRolePermissions` of src/services/RBACService.ts.
use workersql.Base.{
  ◌≡◌, refl, sym, ap, ◌∙◌, inl, inr, Bool, ◌&&◌, ◌||◌, List, [], ◌∷◌, ◌++◌, none, some, String,
  arith, string_eq, includes, includes-append, any, Bool-cases, Option-cases, beq_cases,
}
use workersql.Dict
use workersql.Dict.{Dict, has-get, has-get_some}
use workersql.Rbac.Types.{Role, Permission}
use workersql.Rbac.Roles.{Collected, collect, collect_all, resolve_role_permissions}

-- The permissions of the ids that have one, in their order.
abbrev pub permissions_of : Dict String Permission → List String → List Permission
permissions_of known [] = []
permissions_of known (id ∷ ids) = elim (Dict.get known id) [
  | none ↦ permissions_of known ids
  | some p ↦ p ∷ permissions_of known ids
]

permissions_of-append :
    (known : Dict String Permission) (ids : List String) (id : String) (p : Permission)
    → Dict.get known id ≡ some p
    → permissions_of known (ids ++ id ∷ []) ≡ permissions_of known ids ++ p ∷ []
permissions_of-append known [] id p h = rw (h, permissions_of) refl
permissions_of-append known (j ∷ ids) id p h = elim (Option-cases (Dict.get known j)) [
  | inl e ↦ rw (e, permissions_of) (permissions_of-append known ids id p h)
  | inr (q, e) ↦ rw (e, permissions_of) (ap (λ ps. q ∷ ps) (permissions_of-append known ids id p h))
]

-- From one collection to a later one, by way of some ids.
abbrev Collects : Dict String Permission → (String → Bool) → Collected → Collected → Type 0
Collects known wanted c d =
    ((x : String) → includes x d.ids ≡ (includes x c.ids || (wanted x && Dict.has known x)))
    × (c.permissions ≡ permissions_of known c.ids → d.permissions ≡ permissions_of known d.ids)

collect-Collects :
    (known : Dict String Permission) (ids : List String) (c : Collected)
    → Collects known (λ x. includes x ids) c (collect known ids c)
unfolding collect
collect-Collects known [] c = (λ x. ground arith, λ h. h)
collect-Collects known (id ∷ ids) c = elim (Bool-cases (includes id c.ids)) [
  | inl e ↦
      let (i, p) = collect-Collects known ids c in
      rw (e, collect)
        (
          λ x. elim (beq_cases id x) [
            | inl (same, hit) ↦ ground (arith, i x, hit, ap (λ k. includes k c.ids) same, e)
            | inr miss ↦ ground (arith, i x, miss)
          ],
          p,
        )
  | inr e ↦ elim (Option-cases (Dict.get known id)) [
    | inl unknown ↦
        let (i, p) = collect-Collects known ids c in
        rw (e, unknown, collect)
          (
            λ x. elim (beq_cases id x) [
              | inl (same, hit) ↦
                  ground
                    (arith, i x, hit, ap (λ k. Dict.has known k) same, has-get known id unknown)
              | inr miss ↦ ground (arith, i x, miss)
            ],
            p,
          )
    | inr (q, found) ↦
        let (i, p) =
          collect-Collects known ids
            (record { ids = c.ids ++ id ∷ []; permissions = c.permissions ++ q ∷ [] }) in
        rw (e, found, collect)
          (
            λ x. elim (beq_cases id x) [
              | inl (same, hit) ↦ ground (
                arith,
                i x,
                hit,
                includes-append x c.ids (id ∷ []),
                ap (λ k. Dict.has known k) same,
                has-get_some known id q found,
              )
              | inr miss ↦ ground (arith, i x, miss, includes-append x c.ids (id ∷ []))
            ],
            λ h. p (ap (λ ps. ps ++ q ∷ []) h ∙ sym (permissions_of-append known c.ids id q found)),
          )
  ]
]

-- Whether one of the roles has a permission id.
abbrev pub listed_by : List Role → String → Bool
listed_by roles id = any (λ role. includes id role.permissions) roles

collect_all-Collects :
    (known : Dict String Permission) (roles : List Role) (c : Collected)
    → Collects known (listed_by roles) c (collect_all known roles c)
unfolding collect_all
collect_all-Collects known [] c = (λ x. ground arith, λ h. h)
collect_all-Collects known (role ∷ roles) c =
    let (i, p) = collect-Collects known role.permissions c in
    let (j, q) = collect_all-Collects known roles (collect known role.permissions c) in
    (λ x. ground (arith, i x, j x), λ h. q (p h))

-- The permissions of some roles are those of a list of ids, and the ids in it are exactly the ones that a
-- role lists and the schema knows: an unknown id is left out, and a known one is never lost.
pub resolve_role_permissions_lem :
    (roles : List Role) (known : Dict String Permission)
    → (ids : List String) × (resolve_role_permissions roles known ≡ permissions_of known ids)
      × ((x : String) → includes x ids ≡ (listed_by roles x && Dict.has known x))
unfolding resolve_role_permissions
resolve_role_permissions_lem roles known =
    let (i, p) = collect_all-Collects known roles (record { ids = []; permissions = [] }) in
    ((collect_all known roles (record { ids = []; permissions = [] })).ids, p refl, i)
