-- ===== src/Routing/Compat.antt =====
-- What `validatePolicyCompatibility` and `calculatePolicyChecksum` of
-- src/services/RoutingVersionManager.ts can tell apart.
use workersql.Base.{
  ◌≡◌, refl, ap, ◌∙◌, Bool, true, false, not, ◌&&◌, ◌||◌, List, [], ◌∷◌, ◌++◌, map, String, arith,
  ◌==◌, string_eq, All, length, filter, includes, all, includes-append, includes-filter, beq_refl,
  ap,
}
use workersql.Dict
use workersql.Dict.{Dict}
use workersql.Kv.{Kv}
use workersql.Routing.{
  RoutingPolicy, Range, key_eq, Doc, Stringified, policy_keys, shards_of,
  validate_policy_compatibility, calculate_policy_checksum,
}

abbrev pub is_named : String → Bool
is_named s = not (s == "")

includes-shards_of :
    (s : String) (p : RoutingPolicy)
    → includes s (shards_of p) ≡ (
        (includes s (Dict.values p.tenants) || includes s (map (λ r. r.shard) p.ranges))
        && is_named s)
unfolding shards_of
includes-shards_of s p =
    includes-append s (filter is_named (Dict.values p.tenants))
      (filter is_named (map (λ r. r.shard) p.ranges))
    ∙ rw
        (
          includes-filter s is_named (Dict.values p.tenants),
          includes-filter s is_named (map (λ r. r.shard) p.ranges),
        )
        (ground arith)

module _ {A : Type 0} (shard : A → String) where
  All-includes-cons :
      (s : String) (more : List String) (xs : List A)
      → All (λ x. includes (shard x) more ≡ true) xs
      → All (λ x. includes (shard x) (s ∷ more) ≡ true) xs
  All-includes-cons s more [] h = tt
  All-includes-cons s more (x ∷ xs) h = (ground (arith, h.0), All-includes-cons s more xs h.1)

-- A test that agrees on every entry gives the same answer on the list.
all_agree :
    {A : Type 0} (p q : A → Bool) (xs : List A) → All (λ x. p x ≡ q x) xs → all p xs ≡ all q xs
all_agree p q [] h = refl
all_agree p q (x ∷ xs) h = rw (h.0, all_agree p q xs h.1)

values-include : (ts : Dict String String) → All (λ t. includes t.1 (Dict.values ts) ≡ true) ts
values-include [] = tt
values-include ((k, v) ∷ ts) =
    (rw (beq_refl v), All-includes-cons (λ t. t.1) v (Dict.values ts) ts (values-include ts))

ranges-include : (rs : List Range) → All (λ r. includes r.shard (map (λ q. q.shard) rs) ≡ true) rs
ranges-include [] = tt
ranges-include (r ∷ rs) =
    (rw (beq_refl r.shard), All-includes-cons (λ q. q.shard) r.shard _ rs (ranges-include rs))

module _ (p q : RoutingPolicy) where
  available_iff :
      (s : String)
      → (includes s (Dict.values p.tenants) || includes s (map (λ r. r.shard) p.ranges)) ≡ true
      → includes s (shards_of q ++ shards_of p) ≡ is_named s
  available_iff s h =
      includes-append s (shards_of q) (shards_of p)
      ∙ rw (includes-shards_of s q, includes-shards_of s p, h) (ground arith)

  available_tenants :
      (ts : Dict String String)
      → All (λ t. includes t.1 (Dict.values p.tenants) ≡ true) ts
      → All (λ t. includes t.1 (shards_of q ++ shards_of p) ≡ is_named t.1) ts
  available_tenants [] h = tt
  available_tenants (t ∷ ts) h = (available_iff t.1 (ground (arith, h.0)), available_tenants ts h.1)

  available_ranges :
      (rs : List Range)
      → All (λ r. includes r.shard (map (λ r. r.shard) p.ranges) ≡ true) rs
      → All (λ r. includes r.shard (shards_of q ++ shards_of p) ≡ is_named r.shard) rs
  available_ranges [] h = tt
  available_ranges (r ∷ rs) h =
      (available_iff r.shard (ground (arith, h.0)), available_ranges rs h.1)

  -- The compatibility check accepts a new policy exactly if every shard that it names is a nonempty
  -- text. The current policy plays no part in the answer.
  pub validate_policy_compatibility_lem :
      validate_policy_compatibility p q
      ≡ (all (λ t. is_named t.1) p.tenants && all (λ r. is_named r.shard) p.ranges)
  unfolding validate_policy_compatibility
  validate_policy_compatibility_lem = rw (
    all_agree (λ t. includes t.1 (shards_of q ++ shards_of p)) (λ t. is_named t.1) p.tenants
        (available_tenants p.tenants (values-include p.tenants)),
    all_agree (λ r. includes r.shard (shards_of q ++ shards_of p)) (λ r. is_named r.shard) p.ranges
        (available_ranges p.ranges (ranges-include p.ranges)),
  )

-- No tenant is spelled like a field of the policy.
abbrev pub HasPlainTenants : RoutingPolicy → Type 0
HasPlainTenants p = All (λ t. includes t.0 policy_keys ≡ false) p.tenants

no_tenant_kept :
    (ts : Dict String String)
    → All (λ t. includes t.0 policy_keys ≡ false) ts
    → filter (λ t. includes t.0 policy_keys) ts ≡ []
no_tenant_kept [] h = refl
no_tenant_kept (t ∷ ts) h = rw (h.0) (no_tenant_kept ts h.1)

-- The checksum sees neither the tenants' shards nor the ranges' contents: two policies with the same
-- version and as many ranges have one checksum, wherever they send the tenants.
pub calculate_policy_checksum-blind :
    (kv : Kv key_eq Doc) (digest : Stringified → String) (p q : RoutingPolicy)
    → p.version ≡ q.version
    → length p.ranges ≡ length q.ranges
    → HasPlainTenants p
    → HasPlainTenants q
    → calculate_policy_checksum kv digest p ≡ calculate_policy_checksum kv digest q
unfolding calculate_policy_checksum
calculate_policy_checksum-blind kv digest p q e f h k =
    ap digest (cc (no_tenant_kept p.tenants h, no_tenant_kept q.tenants k))
