-- ===== src/Split/Routes.antt =====
-- Where src/services/ShardSplitService.ts sends the reads and the writes of a tenant.
use workersql.Base.{
  ◌≡◌, refl, ◌⊎◌, inl, inr, ◌∙◌, Bool, true, false, List, [], ◌∷◌, Option, none, some, String,
  arith, string_eq, if◌then◌else◌, includes, find, find-some, any, Bool-cases, Option-cases,
  beq_refl,
}
use workersql.Dict
use workersql.Dict.{Dict}
use workersql.Split.Types.{completed, cutover_pending, Plan, phase_beq, is_plan_active}
use workersql.Split.Store.{
  serves, read_shard, write_shards, resolve_read_shard, resolve_write_shards,
}

module _ {A : Type 0} (p : A → Bool) where
  pub find-none : (xs : List A) → find p xs ≡ none → any p xs ≡ false
  find-none [] h = refl
  find-none (y ∷ ys) h = ground (arith, find-none ys)

-- The phases in which the reads of a plan's tenants go to the target: the one before the cutover.
abbrev pub reads_from : Plan → String
reads_from plan =
    if phase_beq plan.phase cutover_pending then plan.target_shard else plan.source_shard

resolved :
    (splits : Dict String Plan) (tenant primary : String) (found : Option Plan)
    → find (serves tenant) (Dict.values splits) ≡ found
    → (resolve_read_shard splits tenant primary
        ≡ elim found [ some plan ↦ read_shard plan | none ↦ primary ])
      × (resolve_write_shards splits tenant primary
          ≡ elim found [ some plan ↦ write_shards plan | none ↦ primary ∷ [] ])
unfolding resolve_read_shard resolve_write_shards
resolved splits tenant primary found e = (rw (e, resolve_read_shard), rw (e, resolve_write_shards))

read_active : (plan : Plan) → is_plan_active plan ≡ true → read_shard plan ≡ reads_from plan
unfolding read_shard is_plan_active
read_active plan h = elim (Bool-cases (phase_beq plan.phase completed)) [
  | inl e ↦ ground arith
  | inr e ↦ ground arith
]

source_written :
    (plan : Plan)
    → is_plan_active plan ≡ true
    → includes plan.source_shard (write_shards plan) ≡ true
unfolding write_shards is_plan_active
source_written plan h = ground (arith, beq_refl plan.source_shard)

target_written :
    (plan : Plan)
    → is_plan_active plan ≡ true
    → includes plan.target_shard (write_shards plan) ≡ true
unfolding write_shards is_plan_active
target_written plan h = ground (arith, beq_refl plan.target_shard)

-- A tenant that no active plan moves is read and written at its primary shard alone. One that an
-- active plan moves is written at the plan's source and target, and read at the source until the
-- cutover is pending, then at the target.
pub resolve_shards_lem :
    (splits : Dict String Plan) (tenant primary : String)
    → ((any (serves tenant) (Dict.values splits) ≡ false)
        × (resolve_read_shard splits tenant primary ≡ primary)
        × (resolve_write_shards splits tenant primary ≡ primary ∷ []))
      ⊎ ((plan : Plan) × (find (serves tenant) (Dict.values splits) ≡ some plan)
          × (is_plan_active plan ≡ true)
          × (includes tenant plan.tenant_ids ≡ true)
          × (resolve_read_shard splits tenant primary ≡ reads_from plan)
          × (includes plan.source_shard (resolve_write_shards splits tenant primary) ≡ true)
          × (includes plan.target_shard (resolve_write_shards splits tenant primary) ≡ true))
resolve_shards_lem splits tenant primary =
    elim (Option-cases (find (serves tenant) (Dict.values splits))) [
      | inl e ↦ inl (
        find-none (serves tenant) (Dict.values splits) e,
        (resolved splits tenant primary none e).0,
        (resolved splits tenant primary none e).1,
      )
      | inr (plan, e) ↦
          let serving = find-some (serves tenant) (Dict.values splits) plan e in
          let (reads, writes) = resolved splits tenant primary (some plan) e in
          inr (
            plan,
            e,
            ground (arith, serving),
            ground (arith, serving),
            reads ∙ read_active plan (ground (arith, serving)),
            rw writes (source_written plan (ground (arith, serving))),
            rw writes (target_written plan (ground (arith, serving))),
          )
    ]

any-find : {A : Type 0} (p : A → Bool) (xs : List A) → any p xs ≡ false → find p xs ≡ none
any-find p [] h = refl
any-find p (x ∷ xs) h = ground (arith, any-find p xs)

pub unserved_read :
    (splits : Dict String Plan) (tenant primary : String)
    → any (serves tenant) (Dict.values splits) ≡ false
    → resolve_read_shard splits tenant primary ≡ primary
unserved_read splits tenant primary h =
    (resolved splits tenant primary none (any-find (serves tenant) (Dict.values splits) h)).0
