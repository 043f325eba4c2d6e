-- ===== src/Rbac/Tests.antt =====
-- The theorems on src/services/RBACService.ts at concrete inputs.
use workersql.Base.{
  ◌≡◌, ◌↔◌, refl, ◌⊎◌, true, false, List, [], ◌∷◌, none, some, String, string_eq, includes,
}
use workersql.Dict
use workersql.Dict.{Dict}
use workersql.Rbac.Types.{
  Permission, Role, Policy, allow, deny, RbacSchema, AuthContext, AccessRequest, AccessDecision,
  direct_permission, denied_by,
}
use workersql.Rbac.Roles.{Resolution, resolve_user_roles}
use workersql.Rbac.Growth.{Reaches, roles_of}
use workersql.Rbac.Reach.{resolve_user_roles_lem}
use workersql.Rbac.Decisions.{
  Regex, some_of, match_resource, direct_grant, policy_applies, conditions_met, decision_of, decide,
  evaluate_policies, permission_grants,
}
use workersql.Rbac.Laws.{FirstDecides, Granted, NoneGrants, evaluate_policies_lem}
use workersql.Rbac.Service.{Rbac, validate_schema, get_default_schema, check_permission}
use workersql.Rbac.Schemas.{plain_user, default_schema_denies}

-- Two roles that inherit from each other, and one that is inherited by no other.
abbrev circle : Dict String Role
circle =
    ("a", record { id = "a"; permissions = "p" ∷ []; inherits = some ("b" ∷ "gone" ∷ []) })
    ∷ ("b", record { id = "b"; permissions = []; inherits = some ("a" ∷ []) })
    ∷ ("c", record { id = "c"; permissions = []; inherits = none })
    ∷ []

resolve_user_roles_lem_example :
    (t : Resolution) × (resolve_user_roles circle ("a" ∷ []) ≡ some t)
    × (t.resolved ≡ roles_of circle t.visited)
    × ((x : String) → (includes x t.visited ≡ true) ↔ Reaches circle ("a" ∷ []) x)
resolve_user_roles_lem_example = resolve_user_roles_lem circle ("a" ∷ [])

abbrev no_regex : Regex
no_regex pattern subject = none

abbrev someone : AuthContext
someone = record { tenant_id = "t1"; user_id = some "u1"; permissions = "a" ∷ []; token_hash = "h" }

abbrev write_table : AccessRequest
write_table = record { action = "write"; resource = "orders"; context = none }

abbrev policies : List Policy
policies =
    record {
      id = "p0";
      name = "Others";
      effect = allow;
      subjects = "z" ∷ [];
      actions = "*" ∷ [];
      resources = "*" ∷ [];
      conditions = none;
    }
    ∷ record {
      id = "p1";
      name = "No orders";
      effect = deny;
      subjects = "a" ∷ [];
      actions = "write" ∷ [];
      resources = "orders" ∷ [];
      conditions = none;
    }
    ∷ []

abbrev denied : AccessDecision
denied = record {
  allowed = false;
  reason = denied_by "No orders";
  applied_policies = "p1" ∷ [];
  conditions = [];
}

-- A permission for another action.
abbrev one_permission : List Permission
one_permission =
    (record { id = "p0"; action = "read"; resource = "orders"; conditions = none }) ∷ []

someone-denied :
    evaluate_policies no_regex someone write_table one_permission (some policies) ≡ some denied
unfolding evaluate_policies direct_grant permission_grants decide policy_applies some_of
    match_resource conditions_met decision_of
someone-denied = refl

evaluate_policies_lem_example :
    ((denied.allowed ≡ true)
      × (denied.reason ≡ direct_permission)
      × Granted no_regex someone write_table one_permission)
    ⊎ (NoneGrants no_regex someone write_table one_permission
        × FirstDecides no_regex someone write_table policies denied)
evaluate_policies_lem_example =
    evaluate_policies_lem no_regex someone write_table one_permission policies denied someone-denied

-- A service that has cached the default schema for two tenants.
abbrev cached : Rbac
cached = record {
  schema_cache = ("t1", get_default_schema) ∷ ("t2", get_default_schema) ∷ [];
  app_cache = [];
}

abbrev small_schema : RbacSchema
small_schema = record {
  version = "2";
  roles = some circle;
  permissions = some [];
  policies = some policies;
}

small_schema-valid : validate_schema small_schema ≡ true
unfolding validate_schema
small_schema-valid = refl

abbrev read_table : AccessRequest
read_table = record { action = "read"; resource = "orders"; context = none }

uncached : Dict.get cached.schema_cache "t9" ≡ none
unfolding Dict.get
uncached = refl

unstored : Dict.get cached.app_cache "t9" ≡ none
unfolding Dict.get
unstored = refl

default_schema_denies_example :
    (check_permission no_regex cached true (plain_user "t9" (some "u7") "h") read_table).0.allowed
    ≡ false
default_schema_denies_example =
    default_schema_denies no_regex cached true "t9" "h" (some "u7") read_table uncached unstored
      refl

abbrev admin : Role
admin = record { id = "admin"; permissions = "p" ∷ "gone" ∷ []; inherits = none }

abbrev known : Dict String Permission
known = ("p", record { id = "p"; action = "read"; resource = "*"; conditions = none }) ∷ []
