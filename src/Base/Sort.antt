-- ===== src/Base/Sort.antt =====
-- `xs.sort((a, b) => key(b) - key(a))`: a stable sort, largest key first.
use mathlib.Core.Path.{◌∙◌}
use mathlib.Core.Bool.{◌||◌}
use workersql.Base.{
  any, ℕ, ◌≤◌, ◌≡◌, refl, inl, inr, Bool, List, [], ◌∷◌, arith, if◌then◌else◌, ltb, count, All,
  Bool-cases,
}

module _ {ℓ} {A : Type ℓ} (key : A → ℕ) where
  pub insert_by : A → List A → List A
  insert_by x [] = x ∷ []
  insert_by x (y ∷ ys) = if ltb (key x) (key y) then y ∷ insert_by x ys else x ∷ y ∷ ys

  unfoldable pub sort_by : List A → List A
  unfolding insert_by
  sort_by [] = []
  sort_by (x ∷ xs) = insert_by x (sort_by xs)

  abbrev pub IsDescending : List A → Type 0
  IsDescending [] = Unit
  IsDescending (x ∷ xs) = All (λ y. key y ≤ key x) xs × IsDescending xs

  All-insert_by {κ} :
      (P : A → Type κ) (x : A) (ys : List A) → P x → All P ys → All P (insert_by x ys)
  unfolding insert_by
  All-insert_by P x [] h k = (h, tt)
  All-insert_by P x (y ∷ ys) h k = elim (Bool-cases (ltb (key x) (key y))) [
    | inl e ↦ rw e (k.0, All-insert_by P x ys h k.1)
    | inr e ↦ rw e (h, k)
  ]

  All-le_trans : (a b : ℕ) (ys : List A) → a ≤ b → All (λ y. key y ≤ a) ys → All (λ y. key y ≤ b) ys
  All-le_trans a b [] h k = tt
  All-le_trans a b (y ∷ ys) h k = (omega arith, All-le_trans a b ys h k.1)

  insert_by-IsDescending : (x : A) (ys : List A) → IsDescending ys → IsDescending (insert_by x ys)
  unfolding insert_by
  insert_by-IsDescending x [] h = (tt, tt)
  insert_by-IsDescending x (y ∷ ys) h = elim (Bool-cases (ltb (key x) (key y))) [
    | inl e ↦ rw e (
      All-insert_by (λ z. key z ≤ key y) x ys (ground arith) h.0,
      insert_by-IsDescending x ys h.1,
    )
    | inr e ↦ rw e ((ground arith, All-le_trans (key y) (key x) ys (ground arith) h.0), h)
  ]

  pub sort_by-IsDescending : (xs : List A) → IsDescending (sort_by xs)
  unfolding sort_by
  sort_by-IsDescending [] = tt
  sort_by-IsDescending (x ∷ xs) = insert_by-IsDescending x (sort_by xs) (sort_by-IsDescending xs)

  count-insert_by :
      (p : A → Bool) (x : A) (ys : List A) → count p (insert_by x ys) ≡ count p (x ∷ ys)
  unfolding insert_by
  count-insert_by p x [] = refl
  count-insert_by p x (y ∷ ys) = ground (arith, count-insert_by p x ys)

  -- Sorting keeps every entry, as often.
  pub count-sort_by : (p : A → Bool) (xs : List A) → count p (sort_by xs) ≡ count p xs
  unfolding sort_by
  count-sort_by p [] = refl
  count-sort_by p (x ∷ xs) = omega (arith, count-insert_by p x (sort_by xs), count-sort_by p xs)

  pub All-sort_by {κ} : (P : A → Type κ) (xs : List A) → All P xs → All P (sort_by xs)
  unfolding sort_by
  All-sort_by P [] h = tt
  All-sort_by P (x ∷ xs) h = All-insert_by P x (sort_by xs) h.0 (All-sort_by P xs h.1)

  any-insert_by : (p : A → Bool) (x : A) (ys : List A) → any p (insert_by x ys) ≡ (p x || any p ys)
  unfolding insert_by
  any-insert_by p x [] = refl
  any-insert_by p x (y ∷ ys) = ground (arith, any-insert_by p x ys)

  pub any-sort_by : (p : A → Bool) (xs : List A) → any p (sort_by xs) ≡ any p xs
  unfolding sort_by
  any-sort_by p [] = refl
  any-sort_by p (x ∷ xs) = any-insert_by p x (sort_by xs) ∙ rw (any-sort_by p xs)

  -- `xs.sort((a, b) => key(a) - key(b))`: smallest key first.
  pub insert_up : A → List A → List A
  insert_up x [] = x ∷ []
  insert_up x (y ∷ ys) = if ltb (key y) (key x) then y ∷ insert_up x ys else x ∷ y ∷ ys

  unfoldable pub sort_up : List A → List A
  unfolding insert_up
  sort_up [] = []
  sort_up (x ∷ xs) = insert_up x (sort_up xs)

  abbrev pub IsAscending : List A → Type 0
  IsAscending [] = Unit
  IsAscending (x ∷ xs) = All (λ y. key x ≤ key y) xs × IsAscending xs

  All-insert_up {κ} :
      (P : A → Type κ) (x : A) (ys : List A) → P x → All P ys → All P (insert_up x ys)
  unfolding insert_up
  All-insert_up P x [] h k = (h, tt)
  All-insert_up P x (y ∷ ys) h k = elim (Bool-cases (ltb (key y) (key x))) [
    | inl e ↦ rw e (k.0, All-insert_up P x ys h k.1)
    | inr e ↦ rw e (h, k)
  ]

  All-ge_trans : (a b : ℕ) (ys : List A) → a ≤ b → All (λ y. b ≤ key y) ys → All (λ y. a ≤ key y) ys
  All-ge_trans a b [] h k = tt
  All-ge_trans a b (y ∷ ys) h k = (omega arith, All-ge_trans a b ys h k.1)

  insert_up-IsAscending : (x : A) (ys : List A) → IsAscending ys → IsAscending (insert_up x ys)
  unfolding insert_up
  insert_up-IsAscending x [] h = (tt, tt)
  insert_up-IsAscending x (y ∷ ys) h = elim (Bool-cases (ltb (key y) (key x))) [
    | inl e ↦
        rw e (
          All-insert_up (λ z. key y ≤ key z) x ys (ground arith) h.0,
          insert_up-IsAscending x ys h.1,
        )
    | inr e ↦ rw e ((ground arith, All-ge_trans (key x) (key y) ys (ground arith) h.0), h)
  ]

  pub sort_up-IsAscending : (xs : List A) → IsAscending (sort_up xs)
  unfolding sort_up
  sort_up-IsAscending [] = tt
  sort_up-IsAscending (x ∷ xs) = insert_up-IsAscending x (sort_up xs) (sort_up-IsAscending xs)
