-- ===== src/Rbac/Roles.antt =====
-- `resolveUserRoles` and `resolveRolePermissions` of src/services/RBACService.ts. The depth of the
-- recursion is bounded by fuel; one more than the number of roles is enough. The
-- keys of an object are its own; those that every object inherits are left out.
use workersql.Base.{
  ℕ, zero, suc, ◌+◌, List, [], ◌∷◌, ◌++◌, Option, none, some, String, string_eq, if◌then◌else◌,
  includes, length,
}
use workersql.Dict
use workersql.Dict.{Dict}
use workersql.Rbac.Types.{Role, Permission}

pub record Resolution : Type 0 where
  pub visited : List String
  pub resolved : List Role

abbrev pub inherited : Role → List String
inherited role = elim role.inherits [ none ↦ [] | some ids ↦ ids ]

-- `ids.forEach(visit)`
unfoldable pub for_each :
    (String → Resolution → Option Resolution) → List String → Resolution → Option Resolution
for_each visit [] s = some s
for_each visit (id ∷ ids) s = elim (visit id s) [ none ↦ none | some t ↦ for_each visit ids t ]

unfoldable pub resolve_role : ℕ → Dict String Role → String → Resolution → Option Resolution
unfolding for_each
resolve_role zero roles id s = none
resolve_role (suc fuel) roles id s =
    let visited = s.visited ++ id ∷ [] in
    let deeper = resolve_role fuel roles in
    if includes id s.visited then some s else elim (Dict.get roles id) [
      | none ↦ some (record s { visited = visited })
      | some role ↦
          for_each deeper (inherited role)
            (record { visited = visited; resolved = s.resolved ++ role ∷ [] })
    ]

unfoldable pub resolve_user_roles : Dict String Role → List String → Option Resolution
resolve_user_roles roles ids =
    for_each (resolve_role (length roles + 1) roles) ids (record { visited = []; resolved = [] })

pub record Collected : Type 0 where
  pub ids : List String
  pub permissions : List Permission

unfoldable pub collect : Dict String Permission → List String → Collected → Collected
collect known [] c = c
collect known (id ∷ ids) c = collect known ids (
    if includes id c.ids then c else elim (Dict.get known id) [
      | none ↦ c
      | some permission ↦ record {
        ids = c.ids ++ id ∷ [];
        permissions = c.permissions ++ permission ∷ [];
      }
    ])

unfoldable pub collect_all : Dict String Permission → List Role → Collected → Collected
unfolding collect
collect_all known [] c = c
collect_all known (role ∷ roles) c = collect_all known roles (collect known role.permissions c)

unfoldable pub resolve_role_permissions : List Role → Dict String Permission → List Permission
resolve_role_permissions roles known =
    (collect_all known roles (record { ids = []; permissions = [] })).permissions
