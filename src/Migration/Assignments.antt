-- ===== src/Migration/Assignments.antt =====
-- How `assignTenants` of src/services/ShardMigrationService.ts spreads the tenants over the target shards.
use workersql.Base.{
  ℕ, zero, suc, ◌+◌, ◌%◌, ◌≡◌, ap, ◌∙◌, sym, inl, inr, false, ◌||◌, List, [], ◌∷◌, Option, none,
  some, String, arith, ◌==◌, includes, length, string_eq, Bool-cases, Option-cases, beq_refl, subst,
}
use workersql.Dict
use workersql.Dict.{Dict, get-put}
use workersql.Migration.{nth, assign_from}

-- Each tenant stands once.
abbrev pub IsDistinct : List String → Type 0
IsDistinct [] = Unit
IsDistinct (t ∷ ts) = (includes t ts ≡ false) × IsDistinct ts

-- The first step of a loop that succeeds.
first_step :
    (targets : List String) (m r : Dict String String) (i : ℕ) (t : String) (ts : List String)
    → assign_from targets m i (t ∷ ts) ≡ some r
    → (shard : String) × (nth targets (i % length targets) ≡ some shard)
      × (assign_from targets (Dict.put m t shard) (i + 1) ts ≡ some r)
unfolding assign_from
first_step targets m r i t ts e = elim (Option-cases (nth targets (i % length targets))) [
  | inl f ↦ absurd (ground (arith, f, e))
  | inr (shard, f) ↦ elim (Bool-cases (shard == "" || t == "")) [
    | inl g ↦ absurd (ground (arith, f, g, e))
    | inr g ↦ (shard, f, ground (arith, f, g, e))
  ]
]

abbrev map_or_empty : Option (Dict String String) → Dict String String
map_or_empty none = []
map_or_empty (some m) = m

abbrev text_or_empty : Option String → String
text_or_empty none = ""
text_or_empty (some t) = t

-- A tenant that the loop does not meet keeps its shard.
unmet :
    (targets : List String) (m r : Dict String String) (i : ℕ) (ts : List String) (u : String)
    → assign_from targets m i ts ≡ some r
    → includes u ts ≡ false
    → Dict.get r u ≡ Dict.get m u
unfolding assign_from
unmet targets m r i [] u e out = ap (λ d. Dict.get (map_or_empty d) u) (sym e)
unmet targets m r i (t ∷ ts) u e out =
    let (shard, _, rest) = first_step targets m r i t ts e in
    unmet targets (Dict.put m t shard) r (i + 1) ts u rest (ground (arith, out))
    ∙ (get-put m t u shard ∙ ground (arith, out))

assigned_from :
    (targets : List String) (m r : Dict String String) (i j : ℕ) (ts : List String) (t : String)
    → IsDistinct ts
    → assign_from targets m i ts ≡ some r
    → nth ts j ≡ some t
    → Dict.get r t ≡ nth targets ((i + j) % length targets)
unfolding nth
assigned_from targets m r i j [] t distinct e at = absurd (ground (arith, at))
assigned_from targets m r i zero (t ∷ ts) u (out, distinct) e at =
    let (shard, f, rest) = first_step targets m r i t ts e in
    subst (λ k. Dict.get r k ≡ nth targets ((i + 0) % length targets)) (ap text_or_empty at)
      (unmet targets (Dict.put m t shard) r (i + 1) ts t rest out
        ∙ (get-put m t t shard
            ∙ (rw (beq_refl t) (sym f)
                ∙ ap (λ n. nth targets (n % length targets)) {x = i} {y = i + 0} (omega arith))))
assigned_from targets m r i (suc j) (t ∷ ts) u (out, distinct) e at =
    let (shard, f, rest) = first_step targets m r i t ts e in
    assigned_from targets (Dict.put m t shard) r (i + 1) j ts u distinct rest at
    ∙ ap (λ n. nth targets (n % length targets)) {x = i + 1 + j} {y = i + suc j} (omega arith)

-- Distinct tenants are spread over the targets in turn: the one at position `j` goes to the target at the position
-- that is `j` modulo the number of targets.
pub assign_from_lem :
    (targets tenants : List String) (assignments : Dict String String) (j : ℕ) (tenant : String)
    → IsDistinct tenants
    → assign_from targets [] 0 tenants ≡ some assignments
    → nth tenants j ≡ some tenant
    → Dict.get assignments tenant ≡ nth targets (j % length targets)
assign_from_lem targets tenants assignments j tenant distinct e at =
    assigned_from targets [] assignments 0 j tenants tenant distinct e at
    ∙ ap (λ n. nth targets (n % length targets)) {x = 0 + j} {y = j} (omega arith)
