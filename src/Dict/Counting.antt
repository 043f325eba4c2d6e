-- ===== src/Dict/Counting.antt =====
-- Counting the entries of a `Map`, which has each key once.
use workersql.Base.{
  ℕ, suc, ◌+◌, ◌≤◌, length, ◌≡◌, refl, inl, inr, ap, Bool, false, ◌||◌, [], ◌∷◌, Option, none, some,
  String, arith, ◌==◌, string_eq, if◌then◌else◌, count, Bool-cases, beq_refl, beq_cases, beq_comm,
}
use workersql.Dict
use workersql.Dict.{Dict, IsMap, has-get_some}

-- How many entries of a map pass a test, after a write.
unfoldable pub count_was : {V : Type 0} (p : V → Bool) (o : Option V) → ℕ
count_was p none = 0
count_was p (some v) = if p v then 1 else 0

pub count-put :
    {V : Type 0} (p : V → Bool) (m : Dict String V) (k : String) (v : V)
    → count p (Dict.values (Dict.put m k v)) + count_was p (Dict.get m k)
      ≡ count p (Dict.values m) + (if p v then 1 else 0)
unfolding Dict.put Dict.get count_was
count-put p [] k v = omega arith
count-put p ((j, w) ∷ m) k v = elim (Bool-cases (j == k)) [
  | inl e ↦ rw e (omega arith)
  | inr e ↦ rw e (omega (arith, count-put p m k v))
]

pub count-put_new :
    {V : Type 0} (p : V → Bool) (m : Dict String V) (k : String) (v : V)
    → Dict.get m k ≡ none
    → count p (Dict.values (Dict.put m k v)) ≡ count p (Dict.values m) + (if p v then 1 else 0)
unfolding count_was
count-put_new p m k v h = ground (arith, count-put p m k v, ap (count_was p) h)

pub count-put_old :
    {V : Type 0} (p : V → Bool) (m : Dict String V) (k : String) (v old : V)
    → Dict.get m k ≡ some old
    → count p (Dict.values (Dict.put m k v)) + (if p old then 1 else 0)
      ≡ count p (Dict.values m) + (if p v then 1 else 0)
unfolding count_was
count-put_old p m k v old h = ground (arith, count-put p m k v, ap (count_was p) h)

module _ {V : Type 0} where
  has-put :
      (m : Dict String V) (k j : String) (v : V)
      → Dict.has (Dict.put m k v) j ≡ (k == j || Dict.has m j)
  unfolding Dict.has Dict.put
  has-put [] k j v = refl
  has-put ((i, w) ∷ m) k j v = elim (beq_cases i k) [
    | inl (same, hit) ↦ rw same (rw (beq_refl k) (ground arith))
    | inr miss ↦ rw miss (ground (arith, has-put m k j v))
  ]

  has-delete :
      (m : Dict String V) (k j : String)
      → Dict.has m j ≡ false
      → Dict.has (Dict.delete m k) j ≡ false
  unfolding Dict.has Dict.delete
  has-delete [] k j h = refl
  has-delete ((i, w) ∷ m) k j h = ground (arith, has-delete m k j)

  pub put-IsMap : (m : Dict String V) (k : String) (v : V) → IsMap m → IsMap (Dict.put m k v)
  unfolding Dict.put
  put-IsMap [] k v h = unfold Dict.has in (refl, tt)
  put-IsMap ((i, w) ∷ m) k v h = elim (beq_cases i k) [
    | inl (same, hit) ↦ rw (hit, IsMap) (rw (← same) h)
    | inr miss ↦
        rw (miss, IsMap)
          (ground (arith, has-put m k i v, h.0, beq_comm i k, miss), put-IsMap m k v h.1)
  ]

  pub delete-IsMap : (m : Dict String V) (k : String) → IsMap m → IsMap (Dict.delete m k)
  unfolding Dict.delete
  delete-IsMap [] k h = h
  delete-IsMap ((i, w) ∷ m) k h = elim (Bool-cases (i == k)) [
    | inl e ↦ rw (e, IsMap) (delete-IsMap m k h.1)
    | inr e ↦ rw (e, IsMap) (has-delete m k i h.0, delete-IsMap m k h.1)
  ]

  delete-absent : (m : Dict String V) (k : String) → Dict.has m k ≡ false → Dict.delete m k ≡ m
  unfolding Dict.has Dict.delete
  delete-absent [] k h = refl
  delete-absent ((i, w) ∷ m) k h = ground (arith, delete-absent m k)

  pub count-delete :
      (p : V → Bool) (m : Dict String V) (k : String) (v : V)
      → IsMap m
      → Dict.get m k ≡ some v
      → count p (Dict.values (Dict.delete m k)) + (if p v then 1 else 0) ≡ count p (Dict.values m)
  unfolding Dict.delete Dict.get
  count-delete p [] k v h e = cc
  count-delete p ((i, w) ∷ m) k v h e = elim (beq_cases i k) [
    | inl (same, hit) ↦
        ground
          (arith, hit, e, ap (λ d. count p (Dict.values d)) (delete-absent m k (rw (← same) h.0)))
    | inr miss ↦ rw miss (ground (arith, count-delete p m k v h.1, e, miss))
  ]

module _ {V : Type 0} where
  pub length-put : (m : Dict String V) (k : String) (v : V) → length (Dict.put m k v) ≤ length m + 1
  unfolding Dict.put
  length-put [] k v = omega arith
  length-put ((j, w) ∷ m) k v = ground (arith, length-put m k v)

  pub length-put_old :
      (m : Dict String V) (k : String) (v w : V)
      → Dict.get m k ≡ some w
      → length (Dict.put m k v) ≡ length m
  unfolding Dict.put Dict.get
  length-put_old [] k v w h = cc
  length-put_old ((j, u) ∷ m) k v w h = elim (Bool-cases (j == k)) [
    | inl e ↦ rw e refl
    | inr e ↦ rw e (ap suc (length-put_old m k v w (rw e at h)))
  ]

  pub length-delete : (m : Dict String V) (k : String) → length (Dict.delete m k) ≤ length m
  unfolding Dict.delete
  length-delete [] k = omega arith
  length-delete ((j, w) ∷ m) k = ground (arith, length-delete m k)
