-- ===== src/Rbac/Laws.antt =====
-- What the decisions of src/services/RBACService.ts guarantee.
use workersql.Base.{
  ◌≡◌, refl, ap, ◌⊎◌, inl, inr, Bool, true, false, List, [], ◌∷◌, ◌++◌, Option, none, some, String,
  arith, string_eq,
}
use workersql.Rbac.Types.{
  Effect, allow, deny, Condition, Permission, Policy, AuthContext, AccessRequest, AccessDecision,
  direct_permission, no_match,
}
use workersql.Rbac.Decisions.{
  Regex, conditions_met, permission_grants, direct_grant, policy_applies, decision_of, decide,
  evaluate_policies,
}

-- What a policy does with a request: it throws, or it decides, or it is passed over.
unfoldable pub verdict : Regex → AuthContext → AccessRequest → Policy → Option Bool
verdict regex_test auth request policy = elim (policy_applies regex_test policy auth request) [
  | none ↦ none
  | some false ↦ some false
  | some true ↦ elim (conditions_met regex_test policy.conditions auth request) [
    | none ↦ none
    | some (success, messages) ↦ some success
  ]
]

abbrev pub allows : Effect → Bool
allows allow = true
allows deny = false

-- The first policy that decides, after some that are passed over, or none.
unfoldable pub FirstDecides :
    Regex → AuthContext → AccessRequest → List Policy → AccessDecision → Type 0
FirstDecides regex_test auth request [] d = (d.allowed ≡ false) × (d.reason ≡ no_match)
FirstDecides regex_test auth request (policy ∷ policies) d =
    ((verdict regex_test auth request policy ≡ some true) × (d.allowed ≡ allows policy.effect))
    ⊎ ((verdict regex_test auth request policy ≡ some false)
        × FirstDecides regex_test auth request policies d)

-- One permission of the list grants the request.
unfoldable pub Granted : Regex → AuthContext → AccessRequest → List Permission → Type 0
Granted regex_test auth request permissions =
    (p : Permission) × (before : List Permission) × (after : List Permission) × (messages : List
      (Condition × Bool))
    × (permissions ≡ before ++ p ∷ after)
    × (permission_grants regex_test auth request p ≡ some (true, messages))

-- Every permission of the list was tried and missed the request.
unfoldable pub NoneGrants : Regex → AuthContext → AccessRequest → List Permission → Type 0
NoneGrants regex_test auth request [] = Unit
NoneGrants regex_test auth request (p ∷ permissions) =
    ((messages : List (Condition × Bool)) × (permission_grants regex_test auth request p
        ≡ some (false, messages)))
    × NoneGrants regex_test auth request permissions

Answer-cases : (o : Option Bool) → (o ≡ none) ⊎ ((o ≡ some true) ⊎ (o ≡ some false))
Answer-cases none = inl refl
Answer-cases (some true) = inr (inl refl)
Answer-cases (some false) = inr (inr refl)

Outcome-cases :
    {M : Type 0} (o : Option (Bool × M))
    → (o ≡ none) ⊎ (((m : M) × (o ≡ some (true, m))) ⊎ ((m : M) × (o ≡ some (false, m))))
Outcome-cases none = inl refl
Outcome-cases (some (true, m)) = inr (inl (m, refl))
Outcome-cases (some (false, m)) = inr (inr (m, refl))

Effect-cases : (e : Effect) → (e ≡ allow) ⊎ (e ≡ deny)
Effect-cases allow = inl refl
Effect-cases deny = inr refl

allowed-decision_of :
    (policy : Policy) (applied : List String) (messages : List (Condition × Bool))
    → (decision_of policy applied messages).allowed ≡ allows policy.effect
unfolding decision_of
allowed-decision_of policy applied messages = elim (Effect-cases policy.effect) [
  | inl e ↦ rw (e, decision_of) refl
  | inr e ↦ rw (e, decision_of) refl
]

decide_lem :
    (regex_test : Regex) (auth : AuthContext) (request : AccessRequest) (policies : List Policy)
    (applied : List String) (messages : List (Condition × Bool)) (d : AccessDecision)
    → decide regex_test auth request policies applied messages ≡ some d
    → FirstDecides regex_test auth request policies d
unfolding decide FirstDecides verdict
decide_lem regex_test auth request [] applied messages d e = (ground (arith, e), ground (arith, e))
decide_lem regex_test auth request (policy ∷ policies) applied messages d e =
    elim (Answer-cases (policy_applies regex_test policy auth request)) [
      | inl throws ↦ absurd (ground (arith, rw (throws, decide) at e))
      | inr (inr away) ↦
          rw (away, verdict)
            (inr (
              refl,
              decide_lem regex_test auth request policies applied messages d
                  (rw (away, decide) at e),
            ))
      | inr (inl applies) ↦
          elim (Outcome-cases (conditions_met regex_test policy.conditions auth request)) [
            | inl throws ↦ absurd (ground (arith, rw (applies, throws, decide) at e))
            | inr (inl (more, met)) ↦
                rw (applies, met, verdict)
                  (inl (
                    refl,
                    ground (
                      arith,
                      rw (applies, met, decide) at e,
                      allowed-decision_of policy (applied ++ policy.id ∷ []) (messages ++ more),
                    ),
                  ))
            | inr (inr (more, unmet)) ↦
                rw (applies, unmet, verdict)
                  (inr (
                    refl,
                    decide_lem regex_test auth request policies (applied ++ policy.id ∷ [])
                        (messages ++ more) d (rw (applies, unmet, decide) at e),
                  ))
          ]
    ]

direct_grant_lem :
    (regex_test : Regex) (auth : AuthContext) (request : AccessRequest)
    (permissions : List Permission) (messages after : List (Condition × Bool))
    → direct_grant regex_test auth request permissions messages ≡ some (true, after)
    → Granted regex_test auth request permissions
unfolding direct_grant Granted
direct_grant_lem regex_test auth request [] messages after e = absurd (ground (arith, e))
direct_grant_lem regex_test auth request (p ∷ permissions) messages after e =
    elim (Outcome-cases (permission_grants regex_test auth request p)) [
      | inl throws ↦ absurd (ground (arith, rw (throws, direct_grant) at e))
      | inr (inl (more, grants)) ↦ (p, [], permissions, more, refl, grants)
      | inr (inr (more, misses)) ↦
          let (q, before, rest, found, same, grants) =
            direct_grant_lem regex_test auth request permissions (messages ++ more) after
              (rw (misses, direct_grant) at e) in
          (q, p ∷ before, rest, found, ap (λ ps. p ∷ ps) same, grants)
    ]

direct_grant_missed :
    (regex_test : Regex) (auth : AuthContext) (request : AccessRequest)
    (permissions : List Permission) (messages after : List (Condition × Bool))
    → direct_grant regex_test auth request permissions messages ≡ some (false, after)
    → NoneGrants regex_test auth request permissions
unfolding direct_grant NoneGrants
direct_grant_missed regex_test auth request [] messages after e = tt
direct_grant_missed regex_test auth request (p ∷ permissions) messages after e =
    elim (Outcome-cases (permission_grants regex_test auth request p)) [
      | inl throws ↦ absurd (ground (arith, rw (throws, direct_grant) at e))
      | inr (inl (more, grants)) ↦ absurd (ground (arith, rw (grants, direct_grant) at e))
      | inr (inr (more, misses)) ↦ (
        (more, misses),
        direct_grant_missed regex_test auth request permissions (messages ++ more) after
            (rw (misses, direct_grant) at e),
      )
    ]

-- Whenever a request is decided without an exception, one of two cases holds: one of the user's permissions
-- grants it, and it is allowed whatever the policies say; or every permission misses it, and then the first policy that applies with its conditions met decides, those before it being passed
-- over, or, where no policy does, it is denied.
pub evaluate_policies_lem :
    (regex_test : Regex) (auth : AuthContext) (request : AccessRequest)
    (permissions : List Permission) (policies : List Policy) (d : AccessDecision)
    → evaluate_policies regex_test auth request permissions (some policies) ≡ some d
    → ((d.allowed ≡ true)
        × (d.reason ≡ direct_permission)
        × Granted regex_test auth request permissions)
      ⊎ (NoneGrants regex_test auth request permissions
          × FirstDecides regex_test auth request policies d)
unfolding evaluate_policies
evaluate_policies_lem regex_test auth request permissions policies d e =
    elim (Outcome-cases (direct_grant regex_test auth request permissions [])) [
      | inl throws ↦ absurd (ground (arith, rw (throws, evaluate_policies) at e))
      | inr (inl (messages, grants)) ↦
          let decided = rw (grants, evaluate_policies) at e in
          inl (
            ground (arith, decided),
            ground (arith, decided),
            direct_grant_lem regex_test auth request permissions [] messages grants,
          )
      | inr (inr (messages, misses)) ↦ inr (
        direct_grant_missed regex_test auth request permissions [] messages misses,
        decide_lem regex_test auth request policies [] messages d
            (rw (misses, evaluate_policies) at e),
      )
    ]
