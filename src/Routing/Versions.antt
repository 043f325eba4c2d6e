-- ===== src/Routing/Versions.antt =====
-- The version operations of src/services/RoutingVersionManager.ts: publishing and rolling back.
use workersql.Base.{
  ℕ, ◌+◌, ◌<◌, ◌≡◌, refl, ◌∙◌, ◌⊎◌, inl, inr, ◌≢◌, ◌↔◌, true, Option, none, some, String, arith,
  if◌then◌else◌, ltb, nat_beq, nat_beq_refl, Bool-cases, Option-cases,
}
use workersql.Kv.{Kv}
use workersql.Errors.{invalid_policy, incompatible_policy, version_not_found, Result, ok, err}
use workersql.Routing.{
  RoutingPolicy, policy_key, history_key, version_key, key_eq, Doc, policy_doc, history_doc,
  version_doc, as_info, Stringified, validate_policy, validate_policy_compatibility,
  get_current_version, get_policy_by_version, rollback_to_version, create_new_version,
  update_current_policy, version_info,
}

pub validate_policy_iff : (p : RoutingPolicy) → (validate_policy p ≡ true) ↔ (0 < p.version)
unfolding validate_policy
validate_policy_iff p = ground arith

module _ (kv : Kv key_eq Doc) where
  open kv use {Store, get, put, get-put}

  -- Writing the pointer, or the history, leaves every policy as it was.
  pub policy_put_version :
      (s : Store) (n v : ℕ)
      → get_policy_by_version kv (put s version_key (version_doc n)) v
        ≡ get_policy_by_version kv s v
  unfolding get_policy_by_version
  policy_put_version s n v = simp get-put

  pub current_put_version :
      (s : Store) (n : ℕ) → get_current_version kv (put s version_key (version_doc n)) ≡ n
  unfolding get_current_version
  current_put_version s n = simp get-put

  pub rollback_found :
      (s : Store) (version : ℕ) (p : RoutingPolicy)
      → get_policy_by_version kv s version ≡ some p
      → rollback_to_version kv s version ≡ (ok true, put s version_key (version_doc version))
  unfolding rollback_to_version
  rollback_found s version p e = rw (e, rollback_to_version)

  pub rollback_missing :
      (s : Store) (version : ℕ)
      → get_policy_by_version kv s version ≡ none
      → rollback_to_version kv s version ≡ (err version_not_found, s)
  unfolding rollback_to_version
  rollback_missing s version e = rw (e, rollback_to_version)

  -- A rollback moves the pointer to a version that is stored, and touches no stored policy; to a
  -- version that is not stored it fails and changes nothing.
  pub rollback_to_version_lem :
      (s : Store) (version : ℕ)
      → ((p : RoutingPolicy) × (get_policy_by_version kv s version ≡ some p)
          × ((rollback_to_version kv s version).0 ≡ ok true)
          × (get_current_version kv (rollback_to_version kv s version).1 ≡ version)
          × ((v : ℕ)
              → get_policy_by_version kv (rollback_to_version kv s version).1 v
                ≡ get_policy_by_version kv s v))
        ⊎ ((get_policy_by_version kv s version ≡ none)
            × (rollback_to_version kv s version ≡ (err version_not_found, s)))
  rollback_to_version_lem s version = elim (Option-cases (get_policy_by_version kv s version)) [
    | inl e ↦ inr (e, rollback_missing s version e)
    | inr (p, e) ↦ inl (
      p,
      e,
      rw (rollback_found s version p e),
      rw (rollback_found s version p e) (current_put_version s version),
      λ v. rw (rollback_found s version p e) (policy_put_version s version v),
    )
  ]

  module _ (digest : Stringified → String) where
    -- The store after a version was published.
    pub published : Store → RoutingPolicy → Option String → ℕ → Store
    unfolding version_info
    published s p description now =
        put
          (put (put s (policy_key (get_current_version kv s + 1)) (policy_doc p))
            (history_key (get_current_version kv s + 1))
            (history_doc (version_info kv digest p description now (get_current_version kv s + 1))))
          version_key (version_doc (get_current_version kv s + 1))

    pub version-version_info :
        (p : RoutingPolicy) (d : Option String) (now n : ℕ)
        → (version_info kv digest p d now n).version ≡ n
    unfolding version_info
    version-version_info p d now n = refl

    pub create_valid :
        (s : Store) (p : RoutingPolicy) (d : Option String) (now : ℕ)
        → 0 < p.version
        → create_new_version kv digest s p d now
          ≡ (ok (get_current_version kv s + 1), published s p d now)
    unfolding create_new_version published
    create_valid s p d now h = rw ((validate_policy_iff p).1 h)

    pub create_invalid :
        (s : Store) (p : RoutingPolicy) (d : Option String) (now : ℕ)
        → p.version ≡ 0
        → create_new_version kv digest s p d now ≡ (err invalid_policy, s)
    unfolding create_new_version validate_policy
    create_invalid s p d now h = ground arith

    pub published_current :
        (s : Store) (p : RoutingPolicy) (d : Option String) (now : ℕ)
        → get_current_version kv (published s p d now) ≡ get_current_version kv s + 1
    unfolding published
    published_current s p d now = current_put_version _ _

    pub published_policy :
        (s : Store) (p : RoutingPolicy) (d : Option String) (now v : ℕ)
        → get_policy_by_version kv (published s p d now) v ≡ (
            if nat_beq (get_current_version kv s + 1) v
            then some p
            else get_policy_by_version kv s v)
    unfolding published get_policy_by_version
    published_policy s p d now v = elim (Bool-cases (nat_beq (get_current_version kv s + 1) v)) [
      | inl e ↦ simp (get-put, e)
      | inr e ↦ simp (get-put, e)
    ]

    pub published_history :
        (s : Store) (p : RoutingPolicy) (d : Option String) (now v : ℕ)
        → as_info (get (published s p d now) (history_key v)) ≡ (
            if nat_beq (get_current_version kv s + 1) v
            then some (version_info kv digest p d now (get_current_version kv s + 1))
            else as_info (get s (history_key v)))
    unfolding published
    published_history s p d now v = elim (Bool-cases (nat_beq (get_current_version kv s + 1) v)) [
      | inl e ↦ simp (get-put, e)
      | inr e ↦ simp (get-put, e)
    ]

    -- What a client can see of a publication of `p` from store `s` to store `t`.
    abbrev pub Publishes : Store → RoutingPolicy → Result ℕ × Store → Type 0
    Publishes s p (r, t) =
        (r ≡ ok (get_current_version kv s + 1))
        × (get_current_version kv t ≡ get_current_version kv s + 1)
        × (get_policy_by_version kv t (get_current_version kv s + 1) ≡ some p)
        × ((v : ℕ)
            → v ≢ get_current_version kv s + 1
            → get_policy_by_version kv t v ≡ get_policy_by_version kv s v)

    pub create-Publishes :
        (s : Store) (p : RoutingPolicy) (d : Option String) (now : ℕ)
        → 0 < p.version
        → Publishes s p (create_new_version kv digest s p d now)
    create-Publishes s p d now h = rw (create_valid s p d now h) (
      refl,
      published_current s p d now,
      published_policy s p d now (get_current_version kv s + 1)
          ∙ rw (nat_beq_refl (get_current_version kv s + 1)),
      λ v ne. published_policy s p d now v ∙ ground (arith, ne),
    )

    update_checked :
        (s : Store) (p q : RoutingPolicy) (d : Option String) (now : ℕ)
        → get_policy_by_version kv s (get_current_version kv s) ≡ some q
        → update_current_policy kv digest s p d now ≡ (
            if validate_policy_compatibility p q
            then create_new_version kv digest s p d now
            else (err incompatible_policy, s))
    unfolding update_current_policy
    update_checked s p q d now e = rw (e, update_current_policy)

    update_unchecked :
        (s : Store) (p : RoutingPolicy) (d : Option String) (now : ℕ)
        → get_policy_by_version kv s (get_current_version kv s) ≡ none
        → update_current_policy kv digest s p d now ≡ create_new_version kv digest s p d now
    unfolding update_current_policy
    update_unchecked s p d now e = rw (e, update_current_policy)

    -- The new policy stands up to the one that is current, if there is one.
    abbrev pub IsAcceptable : Store → RoutingPolicy → Type 0
    IsAcceptable s p =
        (q : RoutingPolicy)
        → get_policy_by_version kv s (get_current_version kv s) ≡ some q
        → validate_policy_compatibility p q ≡ true

    create_cases :
        (s : Store) (p : RoutingPolicy) (d : Option String) (now : ℕ)
        → ((0 < p.version) × Publishes s p (create_new_version kv digest s p d now))
          ⊎ ((p.version ≡ 0) × (create_new_version kv digest s p d now ≡ (err invalid_policy, s)))
    create_cases s p d now = elim (Bool-cases (ltb 0 p.version)) [
      | inl e ↦ inl (ground arith, create-Publishes s p d now (ground arith))
      | inr e ↦ inr (ground arith, create_invalid s p d now (ground arith))
    ]

    pub update_current_policy_lem :
        (s : Store) (p : RoutingPolicy) (d : Option String) (now : ℕ)
        → (IsAcceptable s p
            × (0 < p.version)
            × Publishes s p (update_current_policy kv digest s p d now))
          ⊎ (IsAcceptable s p
              × (p.version ≡ 0)
              × (update_current_policy kv digest s p d now ≡ (err invalid_policy, s)))
          ⊎ ((¬ IsAcceptable s p)
              × (update_current_policy kv digest s p d now ≡ (err incompatible_policy, s)))
    update_current_policy_lem s p d now =
        elim (Option-cases (get_policy_by_version kv s (get_current_version kv s))) [
          | inl e ↦ rw (update_unchecked s p d now e) (elim (create_cases s p d now) [
            | inl (h, k) ↦ inl ((λ q f. cc), h, k)
            | inr (h, k) ↦ inr (inl ((λ q f. cc), h, k))
          ])
          | inr (q, e) ↦
              rw (update_checked s p q d now e)
                (elim (Bool-cases (validate_policy_compatibility p q)) [
                  | inl c ↦ rw c (elim (create_cases s p d now) [
                    | inl (h, k) ↦ inl ((λ r f. ground arith), h, k)
                    | inr (h, k) ↦ inr (inl ((λ r f. ground arith), h, k))
                  ])
                  | inr c ↦ rw c (inr (inr ((λ all. ground (arith, all q e)), refl)))
                ])
        ]

    -- After a rollback to `v`, the next update that succeeds takes the number `v + 1` and puts its
    -- policy in place of the one that was published under that number.
    pub rollback_then_update_overwrites :
        (s : Store) (p q r : RoutingPolicy) (d : Option String) (now v n : ℕ)
        → get_policy_by_version kv s v ≡ some q
        → get_policy_by_version kv s (v + 1) ≡ some r
        → (update_current_policy kv digest (rollback_to_version kv s v).1 p d now).0 ≡ ok n
        → (n ≡ v + 1)
          × (get_policy_by_version kv
                (update_current_policy kv digest (rollback_to_version kv s v).1 p d now).1
                (v + 1)
              ≡ some p)
    rollback_then_update_overwrites s p q r d now v n e f h =
        elim (update_current_policy_lem (rollback_to_version kv s v).1 p d now) [
          | inl (_, _, (o, _, st, _)) ↦ (ground (arith, at_v), rw at_v at st)
          | inr (inl (_, _, x)) ↦ absurd (ground (arith, x))
          | inr (inr (_, x)) ↦ absurd (ground (arith, x))
        ]
      where
        at_v : get_current_version kv (rollback_to_version kv s v).1 ≡ v
        at_v = rw (rollback_found s v q e) (current_put_version s v)
