-- ===== src/Rbac/Growth.antt =====
-- One visit of the resolution of roles in src/services/RBACService.ts, and visits in a row: what they add
-- to the ids and roles found so far.
use workersql.Base.{
  ◌≡◌, refl, subst, sym, ap, ◌∙◌, ◌⊎◌, inl, inr, true, false, List, [], ◌∷◌, ◌++◌, none, some,
  String, arith, string_eq, includes, includes-append, Bool-cases, Option-cases, beq_refl, beq_true,
  beq_cases,
}
use workersql.Dict
use workersql.Dict.{Dict, includes-keys, has-get_some}
use workersql.Rbac.Types.{Role}
use workersql.Rbac.Roles.{Resolution, inherited}

-- A role id that is one of the given ids, or that a role so reached inherits.
pub data Reaches (roles : Dict String Role) (ids : List String) : String → Type 0 where
  start : (x : String) → includes x ids ≡ true → Reaches roles ids x
  inherit :
      (x y : String) (role : Role)
      → Reaches roles ids x
      → Dict.get roles x ≡ some role
      → includes y (inherited role) ≡ true
      → Reaches roles ids y

pub reaches_more :
    (roles : Dict String Role) (ids js : List String)
    → ((y : String) → includes y ids ≡ true → Reaches roles js y)
    → (x : String) → Reaches roles ids x
    → Reaches roles js x
reaches_more roles ids js more _ (start x h) = more x h
reaches_more roles ids js more _ (inherit x y role r found h) =
    inherit x y role (reaches_more roles ids js more x r) found h

-- The roles of the ids that have one, in their order.
abbrev pub roles_of : Dict String Role → List String → List Role
roles_of roles [] = []
roles_of roles (id ∷ ids) = elim (Dict.get roles id) [
  | none ↦ roles_of roles ids
  | some role ↦ role ∷ roles_of roles ids
]

roles_of-unknown :
    (roles : Dict String Role) (ids : List String) (id : String)
    → Dict.get roles id ≡ none
    → roles_of roles (ids ++ id ∷ []) ≡ roles_of roles ids
roles_of-unknown roles [] id h = rw (h, roles_of) refl
roles_of-unknown roles (j ∷ ids) id h = elim (Option-cases (Dict.get roles j)) [
  | inl e ↦ rw (e, roles_of) (roles_of-unknown roles ids id h)
  | inr (role, e) ↦ rw (e, roles_of) (ap (λ rs. role ∷ rs) (roles_of-unknown roles ids id h))
]

roles_of-known :
    (roles : Dict String Role) (ids : List String) (id : String) (role : Role)
    → Dict.get roles id ≡ some role
    → roles_of roles (ids ++ id ∷ []) ≡ roles_of roles ids ++ role ∷ []
roles_of-known roles [] id role h = rw (h, roles_of) refl
roles_of-known roles (j ∷ ids) id role h = elim (Option-cases (Dict.get roles j)) [
  | inl e ↦ rw (e, roles_of) (roles_of-known roles ids id role h)
  | inr (r, e) ↦ rw (e, roles_of) (ap (λ rs. r ∷ rs) (roles_of-known roles ids id role h))
]

same_role :
    (roles : Dict String Role) (id x : String) (role r : Role)
    → id ≡ x
    → Dict.get roles id ≡ some role
    → Dict.get roles x ≡ some r
    → r ≡ role
same_role roles id x role r same found known =
    ground (arith, ap (Dict.get roles) same, found, known)

-- From one state to a later one, with the ids that are visited in between and what they inherit.
abbrev pub Grows : Dict String Role → Resolution → List String → Resolution → Type 0
Grows roles s ids t =
    ((x : String) → includes x s.visited ≡ true → includes x t.visited ≡ true)
    × ((x : String) → includes x ids ≡ true → includes x t.visited ≡ true)
    × ((x y : String) (role : Role)
        → includes x t.visited ≡ true
        → includes x s.visited ≡ false
        → Dict.get roles x ≡ some role
        → includes y (inherited role) ≡ true
        → includes y t.visited ≡ true)
    × ((x : String)
        → includes x t.visited ≡ true
        → (includes x s.visited ≡ true) ⊎ Reaches roles ids x)
    × (s.resolved ≡ roles_of roles s.visited → t.resolved ≡ roles_of roles t.visited)

pub Grows-refl : (roles : Dict String Role) (s : Resolution) → Grows roles s [] s
Grows-refl roles s = (
  λ x h. h,
  λ x h. absurd (ground (arith, h)),
  λ x y role h out. absurd (ground (arith, h, out)),
  λ x h. inl h,
  λ h. h,
)

-- A visit, and the visits of the ids that follow it.
pub Grows-then :
    (roles : Dict String Role) (s t u : Resolution) (id : String) (ids : List String)
    → Grows roles s (id ∷ []) t
    → Grows roles t ids u
    → Grows roles s (id ∷ ids) u
Grows-then roles s t u id ids g h = (
  λ x m. h.0 x (g.0 x m),
  λ x m. elim (beq_cases id x) [
    | inl (same, hit) ↦ h.0 x (g.1 x (ground (arith, hit)))
    | inr miss ↦ h.1 x (ground (arith, m, miss))
  ],
  λ x y role m out found child. elim (Bool-cases (includes x t.visited)) [
    | inl before ↦ h.0 y (g.2 x y role before out found child)
    | inr after ↦ h.2 x y role m after found child
  ],
  λ x m. elim (h.3 x m) [
    | inl before ↦ elim (g.3 x before) [
      | inl known ↦ inl known
      | inr r ↦
          inr (reaches_more roles (id ∷ []) (id ∷ ids) (λ y e. start y (ground (arith, e))) x r)
    ]
    | inr r ↦ inr (reaches_more roles ids (id ∷ ids) (λ y e. start y (ground (arith, e))) x r)
  ],
  λ e. h.4 (g.4 e),
)

-- A visit of an id without a role.
pub Grows-unknown :
    (roles : Dict String Role) (s : Resolution) (id : String)
    → Dict.get roles id ≡ none
    → Grows roles s (id ∷ []) (record s { visited = s.visited ++ id ∷ [] })
Grows-unknown roles s id none_such = (
  λ x m. ground (arith, m, includes-append x s.visited (id ∷ [])),
  λ x m. ground (arith, m, includes-append x s.visited (id ∷ [])),
  λ x y role m out found child. absurd (
      ground
        (arith, m, out, includes-append x s.visited (id ∷ []), beq_true id x, none_such, found)),
  λ x m. elim (Bool-cases (includes x s.visited)) [
    | inl e ↦ inl e
    | inr e ↦ inr (start x (ground (arith, m, e, includes-append x s.visited (id ∷ []))))
  ],
  λ e. e ∙ sym (roles_of-unknown roles s.visited id none_such),
)

-- A visit of an id with a role, after the visits of what the role inherits.
pub Grows-known :
    (roles : Dict String Role) (s t : Resolution) (id : String) (role : Role)
    → Dict.get roles id ≡ some role
    → Grows roles
        (record { visited = s.visited ++ id ∷ []; resolved = s.resolved ++ role ∷ [] })
        (inherited role)
        t
    → Grows roles s (id ∷ []) t
Grows-known roles s t id role found h = (
  λ x m. h.0 x (ground (arith, m, includes-append x s.visited (id ∷ []))),
  λ x m. h.0 x (ground (arith, m, includes-append x s.visited (id ∷ []))),
  λ x y r m out known child. elim (beq_cases id x) [
    | inl (same, hit) ↦ h.1 y (
        subst (λ q. includes y (inherited q) ≡ true) (same_role roles id x role r same found known)
          child)
    | inr miss ↦
        h.2 x y r m (ground (arith, out, miss, includes-append x s.visited (id ∷ []))) known child
  ],
  λ x m. elim (h.3 x m) [
    | inl before ↦ elim (Bool-cases (includes x s.visited)) [
      | inl e ↦ inl e
      | inr e ↦ inr (start x (ground (arith, before, e, includes-append x s.visited (id ∷ []))))
    ]
    | inr r ↦ inr (
        reaches_more roles (inherited role) (id ∷ [])
          (λ y e. inherit id y role (start id (ground (arith, beq_refl id))) found e) x r)
  ],
  λ e. h.4 (ap (λ rs. rs ++ role ∷ []) e ∙ sym (roles_of-known roles s.visited id role found)),
)
