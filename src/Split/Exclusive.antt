-- ===== src/Split/Exclusive.antt =====
-- At most one active plan of src/services/ShardSplitService.ts moves a tenant.
use workersql.Base.{
  ◌≤◌, ◌≡◌, refl, Bool, true, false, List, [], ◌∷◌, none, some, String, arith, string_eq, includes,
  any, count,
}
use workersql.Dict
use workersql.Dict.{Dict}
use workersql.Dict.Counting.{count-put_new, count-put_old}
use workersql.Split.Types.{Plan}
use workersql.Split.Store.{serves}

any-count : {A : Type 0} (p : A → Bool) (xs : List A) → any p xs ≡ false → count p xs ≡ 0
any-count p [] h = refl
any-count p (x ∷ xs) h = ground (arith, any-count p xs)

-- No tenant is moved by two active plans.
abbrev pub Exclusive : Dict String Plan → Type 0
Exclusive splits = (tenant : String) → count (serves tenant) (Dict.values splits) ≤ 1

-- A new plan whose tenants no active plan serves keeps the plans exclusive.
pub put_new-Exclusive :
    (splits : Dict String Plan) (plan : Plan)
    → Dict.get splits plan.id ≡ none
    → ((u : String)
        → includes u plan.tenant_ids ≡ true
        → any (serves u) (Dict.values splits) ≡ false)
    → Exclusive splits
    → Exclusive (Dict.put splits plan.id plan)
put_new-Exclusive splits plan fresh unserved ex u = ground (
  arith,
  count-put_new (serves u) splits plan.id plan fresh,
  any-count (serves u) (Dict.values splits),
  unserved u,
  ex u,
)

-- So does a write of a plan that serves no more tenants than it did.
pub put_old-Exclusive :
    (splits : Dict String Plan) (old plan : Plan)
    → Dict.get splits plan.id ≡ some old
    → ((u : String) → serves u plan ≡ true → serves u old ≡ true)
    → Exclusive splits
    → Exclusive (Dict.put splits plan.id plan)
put_old-Exclusive splits old plan held less ex u =
    ground (arith, count-put_old (serves u) splits plan.id plan old held, less u, ex u)
