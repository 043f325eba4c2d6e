-- ===== src/Rbac/Schemas.antt =====
-- The schema of a tenant in src/services/RBACService.ts, stored and default.
use workersql.Base.{
  ◌≡◌, refl, ap, ◌∙◌, inl, inr, Bool, true, false, ◌||◌, List, [], ◌∷◌, ◌++◌, Option, none, some,
  String, ◌==◌, string_eq, Bool-cases, Option-cases, beq_refl,
}
use workersql.Dict
use workersql.Dict.{Dict, get-put, get-delete}
use workersql.Rbac.Values.{text, strict_eq, walk, split_dots, push_code, field, codes_eq}
use workersql.Rbac.Types.{
  Condition, RbacSchema, AuthContext, AccessRequest, AccessDecision, no_match, denied_by,
}
use workersql.Rbac.Roles.{
  resolve_user_roles, resolve_role, for_each, resolve_role_permissions, collect_all, collect,
}
use workersql.Rbac.Decisions.{
  Regex, evaluate_condition, get_context_value, auth_fields, user_field, match_resource,
  evaluate_conditions, conditions_met, permission_grants, direct_grant, policy_applies, decide,
  some_of, decision_of, evaluate_policies,
}
use workersql.Rbac.Service.{
  Rbac, load_schema, stored_schema, update_schema, validate_schema, check_permission,
  get_default_schema, decide_by, own_tenant, own_data, default_deny,
}

updated : Rbac → String → RbacSchema → Rbac
updated s tenant schema = record {
  app_cache = Dict.put s.app_cache tenant schema;
  schema_cache = Dict.delete s.schema_cache tenant;
}

load_updated :
    (s : Rbac) (tenant : String) (schema : RbacSchema)
    → validate_schema schema ≡ true
    → (load_schema (updated s tenant schema) true tenant).0 ≡ schema
unfolding updated load_schema
load_updated s tenant schema valid =
    rw (get-delete s.schema_cache tenant tenant, beq_refl tenant, load_schema)
      (rw (get-put s.app_cache tenant tenant schema, beq_refl tenant, stored_schema)
        (rw valid refl))

load_other :
    (s : Rbac) (tenant : String) (schema : RbacSchema) (other : String) (readable : Bool)
    → (tenant == other) ≡ false
    → (load_schema (updated s tenant schema) readable other).0 ≡ (load_schema s readable other).0
unfolding updated load_schema
load_other s tenant schema other readable apart =
    elim (Option-cases (Dict.get s.schema_cache other)) [
      | inr (known, e) ↦ rw (get-delete s.schema_cache tenant other, apart, e, load_schema) refl
      | inl e ↦
          rw (get-delete s.schema_cache tenant other, apart, e, load_schema)
            (rw (get-put s.app_cache tenant other schema, apart, stored_schema) refl)
    ]

-- An update with a valid schema succeeds. The next load for that tenant gives this schema where the KV
-- namespace can be read, whatever was cached before; loads for every other tenant give what they gave.
pub update_schema_lem :
    (s : Rbac) (tenant : String) (schema : RbacSchema)
    → validate_schema schema ≡ true
    → (t : Rbac) × (update_schema s tenant schema ≡ some t)
      × ((load_schema t true tenant).0 ≡ schema)
      × ((other : String) (readable : Bool)
          → (tenant == other) ≡ false
          → (load_schema t readable other).0 ≡ (load_schema s readable other).0)
unfolding update_schema updated
update_schema_lem s tenant schema valid = (
  updated s tenant schema,
  rw (valid, update_schema) refl,
  load_updated s tenant schema valid,
  load_other s tenant schema,
)

-- A user whose only role is the default schema's `user`.
abbrev pub plain_user : String → Option String → String → AuthContext
plain_user tenant user token = record {
  tenant_id = tenant;
  user_id = user;
  permissions = "user" ∷ [];
  token_hash = token;
}

abbrev allowed_in : Option AccessDecision → Bool
allowed_in none = false
allowed_in (some d) = d.allowed

tenant_value :
    (tenant token : String) (user : Option String) (request : AccessRequest)
    → get_context_value "auth.tenantId" (plain_user tenant user token) request ≡ text tenant
unfolding get_context_value walk split_dots field codes_eq push_code auth_fields user_field
tenant_value tenant token user request = refl

own_tenant-fails :
    (regex_test : Regex) (tenant token : String) (user : Option String) (request : AccessRequest)
    → (tenant == "{{tenant_id}}") ≡ false
    → conditions_met regex_test (some (own_tenant ∷ [])) (plain_user tenant user token) request
      ≡ some (false, (own_tenant, false) ∷ [])
unfolding conditions_met evaluate_conditions
own_tenant-fails regex_test tenant token user request h =
    rw (tenant_value tenant token user request, evaluate_conditions)
      (unfold evaluate_condition strict_eq in (rw h refl))

own_data-grants :
    (regex_test : Regex) (tenant token id action : String) (user : Option String)
    (request : AccessRequest)
    → (tenant == "{{tenant_id}}") ≡ false
    → (messages : List (Condition × Bool)) × (permission_grants regex_test
          (plain_user tenant user token)
          request
          (own_data id action)
        ≡ some (false, messages))
unfolding permission_grants match_resource
own_data-grants regex_test tenant token id action user request h =
    elim (Bool-cases (action == request.action || action == "*")) [
      | inl e ↦ (
        (own_tenant, false) ∷ [],
        rw (e, permission_grants) (own_tenant-fails regex_test tenant token user request h),
      )
      | inr e ↦ ([], rw (e, permission_grants) refl)
    ]

new_tenant_default :
    (s : Rbac) (readable : Bool) (tenant : String)
    → Dict.get s.schema_cache tenant ≡ none
    → Dict.get s.app_cache tenant ≡ none
    → (load_schema s readable tenant).0 ≡ get_default_schema
unfolding load_schema stored_schema
new_tenant_default s readable tenant fresh empty =
    rw (fresh, load_schema) (rw (empty, stored_schema) refl)

user_permissions :
    (regex_test : Regex) (tenant token : String) (user : Option String) (request : AccessRequest)
    → decide_by regex_test get_default_schema (plain_user tenant user token) request
      ≡ evaluate_policies regex_test
          (plain_user tenant user token)
          request
          (own_data "read_own_data" "read" ∷ own_data "write_own_data" "write" ∷ [])
          get_default_schema.policies
unfolding decide_by get_default_schema resolve_user_roles resolve_role for_each
    resolve_role_permissions collect_all collect Dict.get
user_permissions regex_test tenant token user request = refl

-- The default policy applies to no one but a user whose identifier is `*`, and then it denies.
default_policy-denies :
    (regex_test : Regex) (tenant token : String) (user : Option String) (request : AccessRequest)
    (messages : List (Condition × Bool))
    → (d : AccessDecision) × (decide regex_test
          (plain_user tenant user token)
          request
          (default_deny ∷ [])
          []
          messages
        ≡ some d)
      × (d.allowed ≡ false)
unfolding decide policy_applies some_of match_resource conditions_met decision_of
default_policy-denies regex_test tenant token none request messages = (_, refl, refl)
default_policy-denies regex_test tenant token (some id) request messages =
    elim (Bool-cases (id == "*")) [
      | inr e ↦ (
        record { allowed = false; reason = no_match; applied_policies = []; conditions = messages },
        rw (e, decide) refl,
        refl,
      )
      | inl e ↦ (
        record {
          allowed = false;
          reason = denied_by "Default Deny";
          applied_policies = "default_deny" ∷ [];
          conditions = messages ++ [];
        },
        elim (Bool-cases ("*" == request.action)) [
          | inl f ↦ rw (e, f, decide) refl
          | inr f ↦ rw (e, f, decide) refl
        ],
        refl,
      )
    ]

user_decided :
    (regex_test : Regex) (tenant token : String) (user : Option String) (request : AccessRequest)
    → (tenant == "{{tenant_id}}") ≡ false
    → (d : AccessDecision) × (decide_by regex_test get_default_schema
          (plain_user tenant user token)
          request
        ≡ some d)
      × (d.allowed ≡ false)
unfolding evaluate_policies get_default_schema direct_grant
user_decided regex_test tenant token user request h =
    let (m, reads) =
      own_data-grants regex_test tenant token "read_own_data" "read" user request h in
    let (n, writes) =
      own_data-grants regex_test tenant token "write_own_data" "write" user request h in
    let (d, decided, denied) =
      default_policy-denies regex_test tenant token user request (m ++ n) in
    (
      d,
      user_permissions regex_test tenant token user request
          ∙ rw (reads, evaluate_policies, direct_grant) (rw (writes, direct_grant) decided),
      denied,
    )

-- A tenant without a schema of its own gets the default one, under which a user of it, with or without an
-- identifier, whose only role is `user`, is denied every request, a read of the tenant's own data included,
-- unless the tenant's name is the text of the placeholder `{{tenant_id}}`.
pub default_schema_denies :
    (regex_test : Regex) (s : Rbac) (readable : Bool) (tenant token : String) (user : Option String)
    (request : AccessRequest)
    → Dict.get s.schema_cache tenant ≡ none
    → Dict.get s.app_cache tenant ≡ none
    → (tenant == "{{tenant_id}}") ≡ false
    → (check_permission regex_test s readable (plain_user tenant user token) request).0.allowed
      ≡ false
unfolding check_permission
default_schema_denies regex_test s readable tenant token user request fresh empty h =
    let (d, decided, denied) = user_decided regex_test tenant token user request h in
    let loaded =
      ap (λ schema. decide_by regex_test schema (plain_user tenant user token) request)
        (new_tenant_default s readable tenant fresh empty) in
    rw (loaded ∙ decided, check_permission) denied
