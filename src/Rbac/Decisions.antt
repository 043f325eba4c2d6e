-- ===== src/Rbac/Decisions.antt =====
-- `evaluatePolicies` of src/services/RBACService.ts and what it calls. `new RegExp(source).test(text)` is
-- the argument `regex_test`, which gives nothing where the constructor throws. A result `none` is that
-- exception, or the one of iterating over policies that a schema does not have.
use workersql.Base.{
  Bool, true, false, not, ◌&&◌, ◌||◌, List, [], ◌∷◌, ◌++◌, Option, none, some, String, ◌==◌,
  string_eq, if◌then◌else◌, includes, any,
}
use workersql.Split.Texts.{codes}
use workersql.Rbac.Values.{
  Value, text, array, object, Fields, no_fields, and_field, strict_eq, values_include, texts,
  text_starts_with, text_includes, wildcard_regex, split_dots, walk,
}
use workersql.Rbac.Types.{
  eq, ne, in_list, not_in, contains, starts_with, regex, other, Condition, Permission, allow, deny,
  Policy, AuthContext, AccessRequest, direct_permission, denied_by, granted_by, no_match,
  AccessDecision,
}

abbrev pub Regex : Type 0
Regex = String → String → Option Bool

-- `xs.some(test)`, where the test may throw.
unfoldable pub some_of {ℓ} : {A : Type ℓ} → (A → Option Bool) → List A → Option Bool
some_of test [] = some false
some_of test (x ∷ xs) = elim (test x) [
  | none ↦ none
  | some true ↦ some true
  | some false ↦ some_of test xs
]

unfoldable pub match_resource : Regex → String → String → Option Bool
match_resource regex_test pattern resource =
    if pattern == "*"
    then some true
    else if pattern == resource
    then some true
    else if text_includes pattern "*"
    then regex_test (wildcard_regex pattern) resource
    else some false

both_texts : Value → Value → (String → String → Option Bool) → Option Bool
both_texts (text s) (text t) test = test s t
both_texts _ _ test = some false

unfoldable pub evaluate_condition : Regex → Condition → Value → Option Bool
unfolding both_texts
evaluate_condition regex_test condition value = elim condition.operator [
  | eq ↦ some (strict_eq value condition.value)
  | ne ↦ some (not (strict_eq value condition.value))
  | in_list ↦ elim condition.value [ array vs ↦ some (values_include vs value) | _ ↦ some false ]
  | not_in ↦ elim condition.value [
    | array vs ↦ some (not (values_include vs value))
    | _ ↦ some false
  ]
  | contains ↦ both_texts value condition.value (λ s t. some (text_includes s t))
  | starts_with ↦ both_texts value condition.value (λ s t. some (text_starts_with s t))
  | regex ↦ both_texts value condition.value (λ s t. regex_test t s)
  | other name ↦ some false
]

unfoldable pub user_field : Option String → Fields → Fields
user_field none fields = fields
user_field (some id) fields = and_field "userId" (text id) fields

context_field : Option Fields → Fields
context_field none = no_fields
context_field (some fields) = and_field "context" (object fields) no_fields

-- The objects that `getContextValue` starts from.
unfoldable pub auth_fields : AuthContext → Fields
unfolding user_field
auth_fields auth = and_field "tenantId" (text auth.tenant_id) (
    user_field auth.user_id (
      and_field "permissions" (array (texts auth.permissions))
        (and_field "tokenHash" (text auth.token_hash) no_fields)))

request_fields : AccessRequest → Fields
unfolding context_field
request_fields request =
    and_field "action" (text request.action)
      (and_field "resource" (text request.resource) (context_field request.context))

unfoldable pub get_context_value : String → AuthContext → AccessRequest → Value
unfolding auth_fields request_fields
get_context_value field auth request =
    walk
      (object (
        and_field "auth" (object (auth_fields auth)) (
          and_field "request" (object (request_fields request)) (
            and_field "context"
              (object (elim request.context [ none ↦ no_fields | some fields ↦ fields ]))
              no_fields))))
      (split_dots (codes field))

-- Whether all conditions hold, with a message for each up to the first that does not.
unfoldable pub evaluate_conditions :
    Regex → List Condition → AuthContext → AccessRequest → Option (Bool × List (Condition × Bool))
unfolding evaluate_condition get_context_value
evaluate_conditions regex_test [] auth request = some (true, [])
evaluate_conditions regex_test (condition ∷ conditions) auth request =
    elim (evaluate_condition regex_test condition
      (get_context_value condition.field auth request)) [
        | none ↦ none
        | some false ↦ some (false, (condition, false) ∷ [])
        | some true ↦ elim (evaluate_conditions regex_test conditions auth request) [
          | none ↦ none
          | some (success, messages) ↦ some (success, (condition, true) ∷ messages)
        ]
      ]

-- Conditions that are absent hold without a message.
unfoldable pub conditions_met :
    Regex
    → Option (List Condition)
    → AuthContext
    → AccessRequest
    → Option (Bool × List (Condition × Bool))
unfolding evaluate_conditions
conditions_met regex_test none auth request = some (true, [])
conditions_met regex_test (some conditions) auth request =
    evaluate_conditions regex_test conditions auth request

-- One permission: whether it grants the request, with the messages of its conditions.
unfoldable pub permission_grants :
    Regex → AuthContext → AccessRequest → Permission → Option (Bool × List (Condition × Bool))
unfolding match_resource conditions_met
permission_grants regex_test auth request permission =
    elim (match_resource regex_test permission.resource request.resource) [
      | none ↦ none
      | some matches ↦
          if (permission.action == request.action || permission.action == "*") && matches
          then conditions_met regex_test permission.conditions auth request
          else some (false, [])
    ]

-- `permissions.some(…)`, which adds to the messages as it goes.
unfoldable pub direct_grant :
    Regex
    → AuthContext
    → AccessRequest
    → List Permission
    → List (Condition × Bool)
    → Option (Bool × List (Condition × Bool))
unfolding permission_grants
direct_grant regex_test auth request [] messages = some (false, messages)
direct_grant regex_test auth request (permission ∷ permissions) messages =
    elim (permission_grants regex_test auth request permission) [
      | none ↦ none
      | some (true, more) ↦ some (true, messages ++ more)
      | some (false, more) ↦ direct_grant regex_test auth request permissions (messages ++ more)
    ]

-- A subject of a policy is a role id that the user holds, or the user's id.
abbrev pub is_subject : AuthContext → String → Bool
is_subject auth subject =
    includes subject auth.permissions
    || (elim auth.user_id [ none ↦ false | some id ↦ id == subject ])

unfoldable pub policy_applies : Regex → Policy → AuthContext → AccessRequest → Option Bool
unfolding some_of match_resource
policy_applies regex_test policy auth request =
    if not (any (is_subject auth) policy.subjects)
    then some false
    else if not (includes request.action policy.actions || includes "*" policy.actions)
    then some false
    else some_of (λ resource. match_resource regex_test resource request.resource) policy.resources

unfoldable pub decision_of : Policy → List String → List (Condition × Bool) → AccessDecision
decision_of policy applied messages = elim policy.effect [
  | deny ↦ record {
    allowed = false;
    reason = denied_by policy.name;
    applied_policies = applied;
    conditions = messages;
  }
  | allow ↦ record {
    allowed = true;
    reason = granted_by policy.name;
    applied_policies = applied;
    conditions = messages;
  }
]

-- The loop over the policies of a schema.
unfoldable pub decide :
    Regex
    → AuthContext
    → AccessRequest
    → List Policy
    → List String
    → List (Condition × Bool)
    → Option AccessDecision
unfolding policy_applies conditions_met decision_of
decide regex_test auth request [] applied messages = some (record {
  allowed = false;
  reason = no_match;
  applied_policies = applied;
  conditions = messages;
})
decide regex_test auth request (policy ∷ policies) applied messages =
    elim (policy_applies regex_test policy auth request) [
      | none ↦ none
      | some false ↦ decide regex_test auth request policies applied messages
      | some true ↦ elim (conditions_met regex_test policy.conditions auth request) [
        | none ↦ none
        | some (false, more) ↦
            decide regex_test auth request policies (applied ++ policy.id ∷ []) (messages ++ more)
        | some (true, more) ↦
            some (decision_of policy (applied ++ policy.id ∷ []) (messages ++ more))
      ]
    ]

unfoldable pub evaluate_policies :
    Regex
    → AuthContext
    → AccessRequest
    → List Permission
    → Option (List Policy)
    → Option AccessDecision
unfolding direct_grant decide
evaluate_policies regex_test auth request permissions policies =
    elim (direct_grant regex_test auth request permissions []) [
      | none ↦ none
      | some (true, messages) ↦ some (record {
        allowed = true;
        reason = direct_permission;
        applied_policies = [];
        conditions = messages;
      })
      | some (false, messages) ↦ elim policies [
        | none ↦ none
        | some list ↦ decide regex_test auth request list [] messages
      ]
    ]
