-- ===== src/Routing.antt =====
-- src/services/RoutingVersionManager.ts, with `RoutingPolicy` of src/types/index.ts: versions of the
-- routing policy in the key-value namespace. A key of the namespace is a value of `Key` (the source
-- prints it with a prefix of its own for each kind and the version in decimal), a document is kept as
-- the value that its JSON text stands for. `Date.now()` is the argument `now`. The text digest of the
-- platform's `crypto.subtle` is the parameter `digest`.
pub mod Versions
pub mod Tests
pub mod Diff
pub mod History
pub mod Compat
use Prim.Native.String.{◌++◌ as str_append}
use workersql.Base.{
  ℕ, zero, suc, ◌+◌, ◌-◌, ◌≡◌, refl, ◌⊎◌, inl, inr, Bool, true, false, not, ◌&&◌, ◌||◌, List, [],
  ◌∷◌, ◌++◌, map, Option, none, some, String, arith, if◌then◌else◌, ltb, Eq, ◌==◌, nat_beq,
  nat_beq_iff, filter, all, any, includes, length, ◌↔◌, nat_eq, string_eq,
}
use workersql.Base.Sort.{sort_by}
use workersql.Dict
use workersql.Dict.{Dict}
use workersql.Kv.{Kv}
use workersql.Errors.{
  Error, invalid_policy, incompatible_policy, version_not_found, Result, ok, err, ◌>>=◌,
}

pub record Range : Type 0 where
  pub prefix : String
  pub shard : String

pub record RoutingPolicy : Type 0 where
  pub version : ℕ
  pub tenants : Dict String String
  pub ranges : List Range

pub record PolicyVersionInfo : Type 0 where
  pub version : ℕ
  pub timestamp : ℕ
  pub description : Option String
  pub checksum : String

pub record ChangedTenant : Type 0 where
  pub tenant_id : String
  pub old_shard : String
  pub new_shard : String

pub record PolicyDiff : Type 0 where
  pub added_tenants : List String
  pub removed_tenants : List String
  pub changed_tenants : List ChangedTenant
  pub added_ranges : List Range
  pub removed_ranges : List Range

-- The keys `routing:policy:v<n>`, `routing:history:v<n>` and `routing:current_version`.
pub data Key : Type 0 where
  policy_key history_key : ℕ → Key
  version_key : Key

abbrev pub key_beq : Key → Key → Bool
key_beq (policy_key a) (policy_key b) = nat_beq a b
key_beq (history_key a) (history_key b) = nat_beq a b
key_beq version_key version_key = true
key_beq _ _ = false

pub key_beq_iff : (a b : Key) → (key_beq a b ≡ true) ↔ (a ≡ b)
key_beq_iff (policy_key a) (policy_key b) = ground arith
key_beq_iff (history_key a) (history_key b) = ground arith
key_beq_iff version_key version_key = ground arith
key_beq_iff _ _ = ground arith

instance abbrev pub key_eq : Eq Key
key_eq = record { beq = key_beq; beq_iff = key_beq_iff }

pub data Doc : Type 0 where
  policy_doc : RoutingPolicy → Doc
  history_doc : PolicyVersionInfo → Doc
  version_doc : ℕ → Doc

-- The casts of a document that was read, `as RoutingPolicy` and `as PolicyVersionInfo`.
abbrev pub as_policy : Option Doc → Option RoutingPolicy
as_policy (some (policy_doc p)) = some p
as_policy _ = none

abbrev pub as_info : Option Doc → Option PolicyVersionInfo
as_info (some (history_doc i)) = some i
as_info _ = none

-- `version ? parseInt(version) : 1`
abbrev pub as_version : Option Doc → ℕ
as_version (some (version_doc n)) = n
as_version _ = 1

-- `description && { description }`: an empty description is left out.
abbrev pub truthy : Option String → Option String
truthy none = none
truthy (some s) = if s == "" then none else some s

-- What `JSON.stringify(policy, Object.keys(policy).sort())` keeps. The array is the list of the
-- property names that are written, at every depth: of the tenants only those that are spelled like a
-- field of the policy, and of a range nothing, so a list of ranges is as many empty objects.
pub record Stringified : Type 0 where
  pub range_objects : ℕ
  pub tenants : Dict String String
  pub version : ℕ

abbrev pub policy_keys : List String
policy_keys = "ranges" ∷ "tenants" ∷ "version" ∷ []

abbrev pub stringify_with_keys : RoutingPolicy → Stringified
stringify_with_keys p = record {
  range_objects = length p.ranges;
  tenants = filter (λ t. includes t.0 policy_keys) p.tenants;
  version = p.version;
}

-- `validatePolicy`; a missing `tenants` or `ranges` is ruled out by the type.
unfoldable pub validate_policy : RoutingPolicy → Bool
validate_policy p = not (p.version == 0 || ltb p.version 1)

-- `new Set` of the truthy shards of a policy, as a list.
unfoldable pub shards_of : RoutingPolicy → List String
shards_of p =
    filter (λ s. not (s == "")) (Dict.values p.tenants)
    ++ filter (λ s. not (s == "")) (map (λ r. r.shard) p.ranges)

unfoldable pub validate_policy_compatibility : RoutingPolicy → RoutingPolicy → Bool
unfolding shards_of
validate_policy_compatibility new_policy current_policy =
    let available_shards = shards_of current_policy ++ shards_of new_policy in
    all (λ t. includes t.1 available_shards) new_policy.tenants
    && all (λ r. includes r.shard available_shards) new_policy.ranges

-- `fromShard && toShard && fromShard !== toShard`
changed_tenant : String → Option String → Option String → List ChangedTenant
changed_tenant id (some a) (some b) =
    if not (a == "") && (not (b == "") && not (a == b))
    then record { tenant_id = id; old_shard = a; new_shard = b } ∷ []
    else []
changed_tenant id _ _ = []

changed_from : Dict String String → Dict String String → List String → List ChangedTenant
unfolding changed_tenant
changed_from old new [] = []
changed_from old new (id ∷ ids) =
    (if Dict.has new id then changed_tenant id (Dict.get old id) (Dict.get new id) else [])
    ++ changed_from old new ids

-- The keys `${r.prefix}:${r.shard}` of the range sets.
abbrev pub range_key : Range → String
range_key r = str_append r.prefix (str_append ":" r.shard)

unfoldable pub policy_diff : RoutingPolicy → RoutingPolicy → PolicyDiff
unfolding changed_from
policy_diff from_policy to_policy = record {
  added_tenants = filter (λ t. not (Dict.has from_policy.tenants t)) (Dict.keys to_policy.tenants);
  removed_tenants =
      filter (λ t. not (Dict.has to_policy.tenants t)) (Dict.keys from_policy.tenants);
  changed_tenants =
      changed_from from_policy.tenants to_policy.tenants (Dict.keys from_policy.tenants);
  added_ranges =
      filter (λ r. not (includes (range_key r) (map range_key from_policy.ranges)))
        to_policy.ranges;
  removed_ranges =
      filter (λ r. not (includes (range_key r) (map range_key to_policy.ranges)))
        from_policy.ranges;
}

module _ (kv : Kv key_eq Doc) where
  open kv use {Store, get, put}

  unfoldable pub get_current_version : Store → ℕ
  get_current_version s = as_version (get s version_key)

  unfoldable pub get_policy_by_version : Store → ℕ → Option RoutingPolicy
  get_policy_by_version s version = as_policy (get s (policy_key version))

  unfoldable pub rollback_to_version : Store → ℕ → Result Bool × Store
  rollback_to_version s version = elim (get_policy_by_version s version) [
    | none ↦ (err version_not_found, s)
    | some policy ↦ (ok true, put s version_key (version_doc version))
  ]

  -- The rounds of the loop of `listVersions` from `v` on.
  history_from : Store → ℕ → ℕ → List PolicyVersionInfo
  history_from s v zero = []
  history_from s v (suc rounds) =
      let rest = history_from s (v + 1) rounds in
      elim (as_info (get s (history_key v))) [ none ↦ rest | some info ↦ info ∷ rest ]

  unfoldable pub list_versions : Store → List PolicyVersionInfo
  unfolding history_from get_current_version
  list_versions s = sort_by (λ i. i.version) (history_from s 1 (get_current_version s))

  unfoldable pub get_policy_diff : Store → ℕ → ℕ → Result PolicyDiff
  get_policy_diff s from_version to_version = elim (get_policy_by_version s from_version) [
    | none ↦ err version_not_found
    | some from_policy ↦ elim (get_policy_by_version s to_version) [
      | none ↦ err version_not_found
      | some to_policy ↦ ok (policy_diff from_policy to_policy)
    ]
  ]

  module _ (digest : Stringified → String) where
    unfoldable pub calculate_policy_checksum : RoutingPolicy → String
    calculate_policy_checksum p = digest (stringify_with_keys p)

    unfoldable pub version_info : RoutingPolicy → Option String → ℕ → ℕ → PolicyVersionInfo
    unfolding calculate_policy_checksum
    version_info p description now new_version = record {
      version = new_version;
      timestamp = now;
      description = truthy description;
      checksum = calculate_policy_checksum p;
    }

    unfoldable pub create_new_version : Store → RoutingPolicy → Option String → ℕ → Result ℕ × Store
    unfolding validate_policy
    create_new_version s policy description now =
        if validate_policy policy
        then (let new_version = get_current_version s + 1 in
            let with_policy = put s (policy_key new_version) (policy_doc policy) in
            let with_history =
              put with_policy (history_key new_version)
                (history_doc (version_info policy description now new_version)) in
            (ok new_version, put with_history version_key (version_doc new_version)))
        else (err invalid_policy, s)

    unfoldable pub update_current_policy :
        Store → RoutingPolicy → Option String → ℕ → Result ℕ × Store
    update_current_policy s policy description now =
        elim (get_policy_by_version s (get_current_version s)) [
          | none ↦ create_new_version s policy description now
          | some current_policy ↦
              if validate_policy_compatibility policy current_policy
              then create_new_version s policy description now
              else (err incompatible_policy, s)
        ]
