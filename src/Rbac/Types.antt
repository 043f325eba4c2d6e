-- ===== src/Rbac/Types.antt =====
-- The data model of src/services/RBACService.ts, with `AuthContext` of src/types/index.ts. Names,
-- descriptions and metadata that no operation reads are left out, and so is the field `resources`.
use workersql.Base.{Bool, List, Option, String}
use workersql.Dict.{Dict}
use workersql.Rbac.Values.{Value, Fields}

pub data Operator : Type 0 where
  eq ne in_list not_in contains starts_with regex : Operator
  other : String → Operator

pub record Condition : Type 0 where
  pub field : String
  pub operator : Operator
  pub value : Value

pub record Role : Type 0 where
  pub id : String
  pub permissions : List String
  pub inherits : Option (List String)

pub record Permission : Type 0 where
  pub id : String
  pub action : String
  pub resource : String
  pub conditions : Option (List Condition)

pub data Effect : Type 0 where
  allow deny : Effect

pub record Policy : Type 0 where
  pub id : String
  pub name : String
  pub effect : Effect
  pub subjects : List String
  pub actions : List String
  pub resources : List String
  pub conditions : Option (List Condition)

-- A schema as it is stored: only the version, the roles and the permissions are validated.
pub record RbacSchema : Type 0 where
  pub version : String
  pub roles : Option (Dict String Role)
  pub permissions : Option (Dict String Permission)
  pub policies : Option (List Policy)

pub record AuthContext : Type 0 where
  pub tenant_id : String
  pub user_id : Option String
  pub permissions : List String
  pub token_hash : String

pub record AccessRequest : Type 0 where
  pub action : String
  pub resource : String
  pub context : Option Fields

-- A reason names the policy that decided; a message is a condition with its result.
pub data Reason : Type 0 where
  direct_permission : Reason
  denied_by granted_by : String → Reason
  no_match check_failed : Reason

pub record AccessDecision : Type 0 where
  pub allowed : Bool
  pub reason : Reason
  pub applied_policies : List String
  pub conditions : List (Condition × Bool)
