-- ===== src/Router/Fleet/Laws.antt =====
-- The shard that `findOptimalShard` of src/services/RouterService.ts chooses.
use workersql.Base.{
  ℕ, zero, suc, ◌*◌, ◌<◌, ◌≤◌, ◌≡◌, refl, ap, ◌∙◌, inl, inr, Bool, true, false, ◌&&◌, ◌||◌, ◌↔◌,
  List, [], ◌∷◌, Option, none, some, String, arith, ◌==◌, if◌then◌else◌, ltb, includes, string_eq,
  Bool-cases, beq_cases, beq_refl, sym,
}
use native.Mathlib.Nat.{mul-lt-mul_of_pos_right, lt_of_mul-lt-mul_right}
use workersql.Dict
use workersql.Dict.{Dict, get-put}
use workersql.Router.Fleet.{
  ShardHealth, ShardHealthResponse, is_healthy, is_below, capacity_max, polled, poll_each,
  utilization_of, lowest,
}

module _ (gb : ℕ) (poll : String → Option ShardHealthResponse) (now : ℕ) where
  abbrev pub after_polls : Bool → String → Option ShardHealth → Option ShardHealth
  after_polls polled_now shard before =
      if polled_now then some (polled gb (poll shard) shard now) else before

  polled_put :
      (m : Dict String ShardHealth) (s shard : String) (b : Bool)
      → after_polls b shard (Dict.get (Dict.put m s (polled gb (poll s) s now)) shard)
        ≡ after_polls (s == shard || b) shard (Dict.get m shard)
  polled_put m s shard b =
      rw (get-put m s shard (polled gb (poll s) s now)) (elim (beq_cases s shard) [
        | inl (same, e) ↦
            rw same
              (rw (beq_refl shard) (elim (Bool-cases b) [ inl c ↦ rw c refl | inr c ↦ rw c refl ]))
        | inr e ↦ rw e refl
      ])

  -- The poll of each shard is kept under its name.
  pub get-poll_each :
      (m : Dict String ShardHealth) (ss : List String) (shard : String)
      → Dict.get (poll_each gb poll now m ss) shard
        ≡ after_polls (includes shard ss) shard (Dict.get m shard)
  unfolding poll_each
  get-poll_each m [] shard = refl
  get-poll_each m (s ∷ ss) shard =
      get-poll_each (Dict.put m s (polled gb (poll s) s now)) ss shard
      ∙ polled_put m s shard (includes shard ss)

  -- A shard that answers well and uses less than four fifths of its space.
  pub record Eligible (shard : String) (response : ShardHealthResponse) : Type 0 where
    pub answers : poll shard ≡ some response
    pub is_ok : response.ok_status ≡ true
    pub has_space : response.size_bytes * 5 < 4 * capacity_max gb

  abbrev pub room : Option ShardHealth → Bool
  room none = false
  room (some health) = is_healthy health.status && is_below health.utilization (4, 5)

  below_limit : (size max : ℕ) → is_below (size, max) (4, 5) ≡ true → size * 5 < 4 * max
  below_limit size zero h = cc
  below_limit size (suc m) h = ground arith

  limit_below : (size max : ℕ) → size * 5 < 4 * max → is_below (size, max) (4, 5) ≡ true
  limit_below size zero h = absurd (omega (arith, h))
  limit_below size (suc m) h = ground arith

  pub room-Eligible :
      (shard : String) (answer : Option ShardHealthResponse)
      → poll shard ≡ answer
      → room (some (polled gb answer shard now)) ≡ true
      → (response : ShardHealthResponse) × Eligible shard response
  unfolding polled
  room-Eligible shard none e h = cc
  room-Eligible shard (some response) e h = elim (Bool-cases response.ok_status) [
    | inl good ↦ (
      response,
      record {
        answers = e;
        is_ok = good;
        has_space = below_limit response.size_bytes (capacity_max gb) (rw good at h);
      },
    )
    | inr bad ↦ absurd (ground (arith, bad, h))
  ]

  pub Eligible-room :
      (shard : String) (response : ShardHealthResponse)
      → Eligible shard response
      → room (some (polled gb (poll shard) shard now)) ≡ true
  unfolding polled
  Eligible-room shard response e =
      rw (e.answers, e.is_ok, polled)
        (limit_below response.size_bytes (capacity_max gb) e.has_space)

  is_below_iff : (a b max : ℕ) → 0 < max → (is_below (a, max) (b, max) ≡ true) ↔ (a < b)
  is_below_iff a b zero h = absurd (omega (arith, h))
  is_below_iff a b (suc m) h = (
    λ e. lt_of_mul-lt-mul_right (suc m) (ground (arith, e)),
    λ lt. ground (arith, mul-lt-mul_of_pos_right {m = a} {n = b} {k = suc m} lt h),
  )

  -- The shard's utilization is `size` of the common maximum.
  abbrev pub IsSized : Dict String ShardHealth → String → ℕ → Type 0
  IsSized m shard size = utilization_of gb poll now (Dict.get m shard) ≡ (size, capacity_max gb)

  abbrev pub choose_lowest : Dict String ShardHealth → String → List String → String
  choose_lowest = lowest gb poll now

  -- What the loop for the lowest utilization gives: one of the shards, none of which is used less.
  pub record IsLeastUsed (m : Dict String ShardHealth) (shards : List String) (chosen : String)
      : Type 0 where
    pub size : ℕ
    pub is_sized : IsSized m chosen size
    pub is_one : includes chosen shards ≡ true
    pub least :
        (other : String) (k : ℕ) → includes other shards ≡ true → IsSized m other k → size ≤ k

  sized_unique :
      (m : Dict String ShardHealth) (a b : String) (n k : ℕ)
      → (a == b) ≡ true
      → IsSized m a n
      → IsSized m b k
      → n ≡ k
  sized_unique m a b n k same x y = elim (beq_cases a b) [
    | inl (e, _) ↦ ap (λ u. u.0) (sym x ∙ ap (λ t. utilization_of gb poll now (Dict.get m t)) e ∙ y)
    | inr e ↦ absurd (ground (arith, e, same))
  ]

  below_sized :
      (m : Dict String ShardHealth) (a b : String) (n k : ℕ) (answer : Bool)
      → 0 < capacity_max gb
      → IsSized m a n
      → IsSized m b k
      → is_below
          (utilization_of gb poll now (Dict.get m a))
          (utilization_of gb poll now (Dict.get m b))
        ≡ answer
      → ltb n k ≡ answer
  below_sized m a b n k answer pos x y e =
      let (to, back) = is_below_iff n k (capacity_max gb) pos in
      let below = rw (x, y) at e in ground (arith, to, back, below)

  least_of_two :
      (m : Dict String ShardHealth) (best s : String) (n k bound : ℕ) (ss : List String)
      → IsSized m best n
      → IsSized m s k
      → bound ≤ n
      → bound ≤ k
      → ((other : String) (j : ℕ) → includes other ss ≡ true → IsSized m other j → bound ≤ j)
      → (other : String) (j : ℕ) → includes other (best ∷ s ∷ ss) ≡ true
      → IsSized m other j
      → bound ≤ j
  least_of_two m best s n k bound ss x y le_n le_k rest other j member z =
      elim (Bool-cases (best == other)) [
        | inl e ↦ omega (arith, sized_unique m best other n j e x z, le_n)
        | inr e ↦ elim (Bool-cases (s == other)) [
          | inl f ↦ omega (arith, sized_unique m s other k j f y z, le_k)
          | inr f ↦ rest other j (ground (arith, member, e, f)) z
        ]
      ]

  moved_on :
      (m : Dict String ShardHealth) (best s : String) (n k : ℕ) (ss : List String) {chosen : String}
      → IsSized m best n
      → IsSized m s k
      → ltb k n ≡ true
      → IsLeastUsed m (s ∷ ss) chosen
      → IsLeastUsed m (best ∷ s ∷ ss) chosen
  moved_on m best s n k ss x y lt rest =
      let at_s = rest.least s k (ground (arith, beq_refl s)) y in
      record {
        size = rest.size;
        is_sized = rest.is_sized;
        is_one = ground (arith, rest.is_one);
        least =
            least_of_two m best s n k rest.size ss x y (ground (arith, at_s, lt)) at_s
              (λ other j member. rest.least other j (ground (arith, member)));
      }

  stayed :
      (m : Dict String ShardHealth) (best s : String) (n k : ℕ) (ss : List String) {chosen : String}
      → IsSized m best n
      → IsSized m s k
      → ltb k n ≡ false
      → IsLeastUsed m (best ∷ ss) chosen
      → IsLeastUsed m (best ∷ s ∷ ss) chosen
  stayed m best s n k ss x y not_lt rest =
      let at_best = rest.least best n (ground (arith, beq_refl best)) x in
      record {
        size = rest.size;
        is_sized = rest.is_sized;
        is_one = ground (arith, rest.is_one);
        least =
            least_of_two m best s n k rest.size ss x y at_best (ground (arith, at_best, not_lt))
              (λ other j member. rest.least other j (ground (arith, member)));
      }

  pub lowest-IsLeastUsed :
      (m : Dict String ShardHealth) (best : String) (n : ℕ) (ss : List String)
      → 0 < capacity_max gb
      → IsSized m best n
      → ((s : String) → includes s ss ≡ true → (k : ℕ) × IsSized m s k)
      → IsLeastUsed m (best ∷ ss) (choose_lowest m best ss)
  unfolding lowest
  lowest-IsLeastUsed m best n [] pos sized all = record {
    size = n;
    is_sized = sized;
    is_one = ground (arith, beq_refl best);
    least = λ other k member other_sized.
        omega (arith, sized_unique m best other n k (ground (arith, member)) sized other_sized);
  }
  lowest-IsLeastUsed m best n (s ∷ ss) pos sized all =
      let (k, s_sized) = all s (ground (arith, beq_refl s)) in
      elim (Bool-cases (
        is_below (utilization_of gb poll now (Dict.get m s))
          (utilization_of gb poll now (Dict.get m best)))) [
            | inl e ↦ rw e (
                let rest =
                  lowest-IsLeastUsed m s k ss pos s_sized (λ t h. all t (ground (arith, h))) in
                moved_on m best s n k ss sized s_sized
                  (below_sized m s best k n true pos s_sized sized e) rest)
            | inr e ↦ rw e (
                let rest =
                  lowest-IsLeastUsed m best n ss pos sized (λ t h. all t (ground (arith, h))) in
                stayed m best s n k ss sized s_sized
                  (below_sized m s best k n false pos s_sized sized e) rest)
          ]
