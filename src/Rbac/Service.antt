-- ===== src/Rbac/Service.antt =====
-- The operations of src/services/RBACService.ts: the schema of a tenant, its checks and its update. The
-- keys `rbac_schema_<tenant>` of the cache and `rbac:schema:<tenant>` of the KV namespace stand one for
-- one for the tenants, so both are maps from tenants. A schema is written as JSON and read back as it was
-- written; its expiry after a day is left out. A KV write succeeds; the argument
-- `readable` says whether the read does.
use workersql.Base.{
  is_some, Bool, false, not, ◌&&◌, List, [], ◌∷◌, Option, none, some, String, ◌==◌, string_eq,
  if◌then◌else◌,
}
use workersql.Dict
use workersql.Dict.{Dict}
use workersql.Rbac.Values.{text}
use workersql.Rbac.Types.{
  eq, Condition, Role, Permission, deny, RbacSchema, AuthContext, AccessRequest, check_failed,
  AccessDecision, Policy,
}
use workersql.Rbac.Roles.{resolve_user_roles, resolve_role_permissions}
use workersql.Rbac.Decisions.{Regex, evaluate_policies}

pub record Rbac : Type 0 where
  pub schema_cache : Dict String RbacSchema
  pub app_cache : Dict String RbacSchema

-- Whether `validateSchema` does not throw.
unfoldable pub validate_schema : RbacSchema → Bool
validate_schema schema =
    not (schema.version == "") && (is_some schema.roles && is_some schema.permissions)

abbrev pub own_tenant : Condition
own_tenant = record { field = "auth.tenantId"; operator = eq; value = text "{{tenant_id}}" }

abbrev pub own_data : String → String → Permission
own_data id action = record {
  id = id;
  action = action;
  resource = "*";
  conditions = some (own_tenant ∷ []);
}

abbrev role : String → List String → String × Role
role id permissions = (id, record { id = id; permissions = permissions; inherits = none })

abbrev pub default_deny : Policy
default_deny = record {
  id = "default_deny";
  name = "Default Deny";
  effect = deny;
  subjects = "*" ∷ [];
  actions = "*" ∷ [];
  resources = "*" ∷ [];
  conditions = none;
}

unfoldable pub get_default_schema : RbacSchema
get_default_schema = record {
  version = "1.0";
  roles = some (
      role "admin" ("admin_all" ∷ [])
      ∷ role "user" ("read_own_data" ∷ "write_own_data" ∷ [])
      ∷ role "readonly" ("read_own_data" ∷ [])
      ∷ []);
  permissions = some (
      ("admin_all", record { id = "admin_all"; action = "*"; resource = "*"; conditions = none })
      ∷ ("read_own_data", own_data "read_own_data" "read")
      ∷ ("write_own_data", own_data "write_own_data" "write")
      ∷ []);
  policies = some (default_deny ∷ []);
}

-- What the KV namespace gives, if it can be read and is valid, and the default otherwise.
unfoldable pub stored_schema : Rbac → Bool → String → RbacSchema
unfolding validate_schema get_default_schema
stored_schema s readable tenant = elim (Dict.get s.app_cache tenant) [
  | none ↦ get_default_schema
  | some schema ↦ if readable && validate_schema schema then schema else get_default_schema
]

unfoldable pub load_schema : Rbac → Bool → String → RbacSchema × Rbac
unfolding stored_schema
load_schema s readable tenant = elim (Dict.get s.schema_cache tenant) [
  | some schema ↦ (schema, s)
  | none ↦ (
    stored_schema s readable tenant,
    record s { schema_cache = Dict.put s.schema_cache tenant (stored_schema s readable tenant) },
  )
]

-- The decision for a schema, or `none` for an exception.
unfoldable pub decide_by : Regex → RbacSchema → AuthContext → AccessRequest → Option AccessDecision
unfolding resolve_user_roles resolve_role_permissions evaluate_policies
decide_by regex_test schema auth request = elim schema.roles [
  | none ↦ none
  | some roles ↦ elim schema.permissions [
    | none ↦ none
    | some known ↦ elim (resolve_user_roles roles auth.permissions) [
      | none ↦ none
      | some t ↦
          evaluate_policies regex_test auth request (resolve_role_permissions t.resolved known)
            schema.policies
    ]
  ]
]

unfoldable pub check_permission :
    Regex → Rbac → Bool → AuthContext → AccessRequest → AccessDecision × Rbac
unfolding load_schema decide_by
check_permission regex_test s readable auth request =
    let loaded = load_schema s readable auth.tenant_id in
    (
      elim (decide_by regex_test loaded.0 auth request) [
        | some decision ↦ decision
        | none ↦ record {
          allowed = false;
          reason = check_failed;
          applied_policies = [];
          conditions = [];
        }
      ],
      loaded.1,
    )

-- `updateSchema`: nothing where the schema is not valid, and an exception then.
unfoldable pub update_schema : Rbac → String → RbacSchema → Option Rbac
unfolding validate_schema
update_schema s tenant schema =
    if validate_schema schema
    then some (record {
      app_cache = Dict.put s.app_cache tenant schema;
      schema_cache = Dict.delete s.schema_cache tenant;
    })
    else none
