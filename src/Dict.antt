-- ===== src/Dict.antt =====
-- `Map` and `Record` of JavaScript as association lists in insertion order: writing to a key that is
-- there replaces its value in place, a new key goes to the end.
pub mod Counting
use workersql.Base.{
  ◌≡◌, refl, inl, inr, Bool, true, false, ◌||◌, List, [], ◌∷◌, Option, none, some, arith,
  if◌then◌else◌, Eq, ◌==◌, beq_refl, beq_cases, beq_true, includes,
}

abbrev pub Dict : Type 0 → Type 0 → Type 0
Dict K V = List (K × V)

module _ {K V : Type 0} ⦃e : Eq K⦄ where
  unfoldable pub get : Dict K V → K → Option V
  get [] k = none
  get ((j, v) ∷ m) k = if j == k then some v else get m k

  unfoldable pub has : Dict K V → K → Bool
  has [] k = false
  has ((j, v) ∷ m) k = j == k || has m k

  unfoldable pub put : Dict K V → K → V → Dict K V
  put [] k v = (k, v) ∷ []
  put ((j, w) ∷ m) k v = if j == k then (k, v) ∷ m else (j, w) ∷ put m k v

  unfoldable pub delete : Dict K V → K → Dict K V
  delete [] k = []
  delete ((j, w) ∷ m) k = if j == k then delete m k else (j, w) ∷ delete m k

  abbrev pub keys : Dict K V → List K
  keys [] = []
  keys ((j, v) ∷ m) = j ∷ keys m

  abbrev pub values : Dict K V → List V
  values [] = []
  values ((j, v) ∷ m) = v ∷ values m

  pub get-put :
      (m : Dict K V) (k j : K) (v : V) → get (put m k v) j ≡ (if k == j then some v else get m j)
  unfolding get put
  get-put [] k j v = refl
  get-put ((i, w) ∷ m) k j v = elim (beq_cases i k) [
    | inl (same, hit) ↦ rw same (rw (beq_refl k) (ground arith))
    | inr miss ↦ elim (beq_cases i j) [
      | inl (same, hit) ↦ elim (beq_cases k j) [
        | inl (eq, yes_k) ↦ absurd (ground (arith, beq_true i j hit, e.beq_iff i k, beq_refl i))
        | inr no_k ↦ rw (miss, hit, no_k) (ground (arith))
      ]
      | inr other ↦ rw (miss) (ground (arith, get-put m k j v))
    ]
  ]

  pub get-delete :
      (m : Dict K V) (k j : K) → get (delete m k) j ≡ (if k == j then none else get m j)
  unfolding get delete
  get-delete [] k j = ground arith
  get-delete ((i, w) ∷ m) k j = elim (beq_cases i k) [
    | inl (same, hit) ↦ rw same (rw (beq_refl k) (ground (arith, get-delete m k j)))
    | inr miss ↦ elim (beq_cases i j) [
      | inl (same, hit) ↦ elim (beq_cases k j) [
        | inl (eq, yes_k) ↦ absurd (ground (arith, beq_true i j hit, e.beq_iff i k, beq_refl i))
        | inr no_k ↦ rw (miss, hit, no_k) (ground (arith))
      ]
      | inr other ↦ rw (miss) (ground (arith, get-delete m k j))
    ]
  ]

  pub has-get : (m : Dict K V) (k : K) → get m k ≡ none → has m k ≡ false
  unfolding get has
  has-get [] k h = refl
  has-get ((i, w) ∷ m) k h = ground (arith, has-get m k)

  pub has-get_some : (m : Dict K V) (k : K) (v : V) → get m k ≡ some v → has m k ≡ true
  unfolding get has
  has-get_some [] k v h = ground arith
  has-get_some ((i, w) ∷ m) k v h = ground (arith, has-get_some m k v)

  pub includes-keys : (m : Dict K V) (k : K) → includes k (keys m) ≡ has m k
  unfolding has
  includes-keys [] k = refl
  includes-keys ((i, w) ∷ m) k = ground (arith, includes-keys m k)

  -- A `Map` has each key once.
  abbrev pub IsMap : Dict K V → Type 0
  IsMap [] = Unit
  IsMap ((k, v) ∷ m) = (has m k ≡ false) × IsMap m
