-- ===== src/Client/Attempts.antt =====
-- How often `RetryStrategy.execute` of sdk/node/src/retry-logic.ts calls its function, and what it comes to.
use workersql.Base.{
  ℕ, zero, suc, ◌+◌, ◌-◌, ◌*◌, ◌/◌, ◌^◌, ◌<◌, ◌≤◌, ◌≡◌, refl, ap, ◌⊎◌, inl, inr, true, false, List,
  [], ◌∷◌, arith, ◌==◌, if◌then◌else◌, length, min, nat_eq, Bool-cases, beq_cases, subst,
}
use native.Mathlib.Nat.{mul-le-mul_left}
use workersql.Client.Retry.{
  Failure, exhausted, RetryOptions, is_retryable, calculate_delay, add_jitter, Outcome, returned,
  threw, Execution, attempts_from, execute,
}

-- The delay after an attempt before the random part: exponential, and capped.
abbrev pub capped : RetryOptions → ℕ → ℕ
capped o attempt =
    min (o.initial_delay * o.backoff_multiplier ^ attempt / 1000 ^ attempt) o.max_delay

-- The delays of the attempts from `attempt` on: each is at least the capped one and at most 30 per cent more.
unfoldable pub AreDelays : RetryOptions → ℕ → List ℕ → Type 0
AreDelays o attempt [] = Unit
AreDelays o attempt (d ∷ ds) =
    (capped o attempt ≤ d) × (10 * d ≤ 13 * capped o attempt) × AreDelays o (attempt + 1) ds

add_jitter-le : (r d : ℕ) → r ≤ 1000 → 10 * add_jitter r d ≤ 13 * d
unfolding add_jitter
add_jitter-le r d h = let m : d * r ≤ d * 1000 = mul-le-mul_left d h in omega (arith, m)

Outcome-cases {ℓ} :
    {A : Type ℓ} (x : Outcome A) → ((a : A) × (x ≡ returned a)) ⊎ ((e : Failure) × (x ≡ threw e))
Outcome-cases (returned a) = inl (a, refl)
Outcome-cases (threw e) = inr (e, refl)

module _ {ℓ} {A : Type ℓ} (o : RetryOptions) (call : ℕ → Outcome A) (random : ℕ → ℕ) where
  -- A call whose error is worth another one.
  abbrev pub IsTransient : ℕ → Type ℓ
  IsTransient n = (e : Failure) × (call n ≡ threw e) × (is_retryable o e ≡ true)

  -- How the call `last` ends the execution: it returns, it throws what is worth no other call, or it is the last that
  -- is allowed.
  abbrev pub EndsBy : ℕ → Outcome A → Type ℓ
  EndsBy last outcome =
      ((a : A) × (call last ≡ returned a) × (outcome ≡ returned a))
      ⊎ ((e : Failure) × (call last ≡ threw e) × (is_retryable o e ≡ false) × (outcome ≡ threw e))
      ⊎ (IsTransient last
          × (last + 1 ≡ o.max_attempts)
          × (outcome ≡ threw (exhausted o.max_attempts)))

  -- What rounds from `attempt` on come to: all calls before the last one fail in a way that is worth another one,
  -- and each is followed by its delay.
  pub record Ends (attempt : ℕ) (x : Execution A) : Type ℓ where
    pub last : ℕ
    pub waits : ℕ
    pub reached : last ≡ attempt + waits
    pub in_bounds : last < o.max_attempts
    pub calls : x.calls ≡ last + 1
    pub waited : length x.delays ≡ waits
    pub delays : AreDelays o attempt x.delays
    pub before : (k : ℕ) → attempt ≤ k → k < last → IsTransient k
    pub ending : EndsBy last x.outcome

  returned_now :
      (r attempt : ℕ) (a : A)
      → call attempt ≡ returned a
      → attempts_from o call random (suc r) attempt
        ≡ record { outcome = returned a; calls = attempt + 1; delays = [] }
  unfolding attempts_from
  returned_now r attempt a e = rw (e, attempts_from)

  threw_now :
      (r attempt : ℕ) (e : Failure)
      → call attempt ≡ threw e
      → attempts_from o call random (suc r) attempt ≡ (
          if is_retryable o e
          then (if attempt == o.max_attempts - 1
              then record {
                outcome = threw (exhausted (attempt + 1));
                calls = attempt + 1;
                delays = [];
              }
              else record (attempts_from o call random r (attempt + 1)) {
                delays =
                    add_jitter (random attempt) (calculate_delay o attempt)
                    ∷ (attempts_from o call random r (attempt + 1)).delays;
              })
          else record { outcome = threw e; calls = attempt + 1; delays = [] })
  unfolding attempts_from
  threw_now r attempt e f = rw (f, attempts_from)

  stops :
      (attempt : ℕ) (outcome : Outcome A)
      → attempt < o.max_attempts
      → EndsBy attempt outcome
      → Ends attempt (record { outcome = outcome; calls = attempt + 1; delays = [] })
  unfolding AreDelays
  stops attempt outcome below ending = record {
    last = attempt;
    waits = 0;
    reached = omega arith;
    in_bounds = below;
    calls = refl;
    waited = refl;
    delays = tt;
    before = λ k le lt. absurd (omega (arith, le, lt));
    ending = ending;
  }

  goes_on :
      (attempt : ℕ) (x : Execution A)
      → random attempt < 1000
      → IsTransient attempt
      → Ends (attempt + 1) x
      → Ends attempt
          (record x { delays = add_jitter (random attempt) (calculate_delay o attempt) ∷ x.delays })
  unfolding calculate_delay AreDelays add_jitter
  goes_on attempt x drawn transient rest = record {
    last = rest.last;
    waits = suc rest.waits;
    reached = omega (arith, rest.reached);
    in_bounds = rest.in_bounds;
    calls = rest.calls;
    waited = omega (arith, rest.waited);
    delays = (omega arith, add_jitter-le (random attempt) _ (omega (arith, drawn)), rest.delays);
    before = λ k le lt. elim (beq_cases attempt k) [
      | inl (same, _) ↦ subst IsTransient same transient
      | inr e ↦ rest.before k (ground (arith, e, le)) lt
    ];
    ending = rest.ending;
  }

  -- A round that either stops, or would go on with `more`.
  round :
      (r attempt : ℕ)
      → attempt < o.max_attempts
      → ((e : Failure)
          → call attempt ≡ threw e
          → is_retryable o e ≡ true
          → Ends attempt (
              if attempt == o.max_attempts - 1
              then record {
                outcome = threw (exhausted (attempt + 1));
                calls = attempt + 1;
                delays = [];
              }
              else record (attempts_from o call random r (attempt + 1)) {
                delays =
                    add_jitter (random attempt) (calculate_delay o attempt)
                    ∷ (attempts_from o call random r (attempt + 1)).delays;
              }))
      → Ends attempt (attempts_from o call random (suc r) attempt)
  round r attempt below more = elim (Outcome-cases (call attempt)) [
    | inl (a, e) ↦
        rw (returned_now r attempt a e) (stops attempt (returned a) below (inl (a, e, refl)))
    | inr (e, f) ↦ rw (threw_now r attempt e f) (elim (Bool-cases (is_retryable o e)) [
      | inr fatal ↦ rw fatal (stops attempt (threw e) below (inr (inl (e, f, fatal, refl))))
      | inl worth ↦ rw worth (more e f worth)
    ])
  ]

  attempts_from-Ends :
      (r attempt : ℕ)
      → ((k : ℕ) → random k < 1000)
      → attempt + suc r ≡ o.max_attempts
      → Ends attempt (attempts_from o call random (suc r) attempt)
  attempts_from-Ends zero attempt drawn sum =
      let is_last : (attempt == o.max_attempts - 1) ≡ true = ground (arith, sum) in
      let all_used : attempt + 1 ≡ o.max_attempts = omega (arith, sum) in
      round zero attempt (omega (arith, sum)) (λ e f worth. rw is_last (
        stops attempt (threw (exhausted (attempt + 1))) (omega (arith, sum))
          (inr (inr ((e, f, worth), all_used, ap (λ n. threw (exhausted n)) all_used)))))
  attempts_from-Ends (suc r) attempt drawn sum =
      let not_last : (attempt == o.max_attempts - 1) ≡ false = ground (arith, sum) in
      round (suc r) attempt (omega (arith, sum)) (λ e f worth. rw not_last (
        goes_on attempt (attempts_from o call random (suc r) (attempt + 1)) (drawn attempt)
          (e, f, worth) (attempts_from-Ends r (attempt + 1) drawn (omega (arith, sum)))))

  -- With at least one attempt allowed, and numbers of thousandths below 1000 drawn, an execution ends with one of its
  -- calls and before the allowed number of them is over: each call before the last one failed with a retryable error
  -- and was followed by a delay, which is at least the capped exponential one and at most 30 per cent more, and the
  -- outcome is what the last call returned or threw, or, after the last call that is allowed, the
  -- error that says how many there were.
  pub execute-Ends :
      ((k : ℕ) → random k < 1000) → 0 < o.max_attempts → Ends 0 (execute o call random)
  unfolding execute
  execute-Ends drawn pos =
      subst (λ n. Ends 0 (attempts_from o call random n 0)) {x = suc (o.max_attempts - 1)}
        (omega (arith, pos)) (attempts_from-Ends (o.max_attempts - 1) 0 drawn (omega (arith, pos)))
