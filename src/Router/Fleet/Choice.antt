-- ===== src/Router/Fleet/Choice.antt =====
-- What `findOptimalShard` of src/services/RouterService.ts promises.
use workersql.Base.{
  ℕ, ◌≤◌, ◌≡◌, refl, ap, ◌∙◌, sym, ◌⊎◌, inl, inr, true, List, [], ◌∷◌, Option, some, String, arith,
  filter, includes, string_eq, includes-filter, beq_refl,
}
use workersql.Dict
use workersql.Dict.{Dict}
use workersql.Errors.{ok, err, no_healthy_shards}
use workersql.Router.Fleet.{
  ShardHealth, ShardHealthResponse, Fleet, get_available_shards, polled, poll_each, utilization_of,
  refresh_shard_health, has_room, find_optimal_shard,
}
use workersql.Router.Fleet.Laws.{
  Eligible, room, room-Eligible, Eligible-room, get-poll_each, IsSized, IsLeastUsed,
  lowest-IsLeastUsed, choose_lowest,
}

List-cases : {A : Type 0} (xs : List A) → (xs ≡ []) ⊎ ((y : A) × (ys : List A) × (xs ≡ y ∷ ys))
List-cases [] = inl refl
List-cases (x ∷ xs) = inr (x, xs, refl)

module _ (gb : ℕ) (poll : String → Option ShardHealthResponse) (now : ℕ) (f : Fleet) where
  abbrev shards : List String
  shards = get_available_shards gb

  abbrev healths : Dict String ShardHealth
  healths = poll_each gb poll now f.shard_health shards

  abbrev with_room : List String
  with_room = filter (has_room gb poll now healths) shards

  polled_health :
      (s : String) → includes s shards ≡ true → Dict.get healths s ≡ some (polled gb (poll s) s now)
  polled_health s h = get-poll_each gb poll now f.shard_health shards s ∙ rw h refl

  room-polled :
      (s : String)
      → includes s shards ≡ true
      → has_room gb poll now healths s ≡ room gb poll now (some (polled gb (poll s) s now))
  unfolding has_room
  room-polled s h = rw (has_room, polled_health s h) refl

  member_of :
      (s : String)
      → includes s with_room ≡ true
      → (includes s shards ≡ true) × ((r : ShardHealthResponse) × Eligible gb poll now s r)
  member_of s h =
      let both = sym (includes-filter s (has_room gb poll now healths) shards) ∙ h in
      let inside : includes s shards ≡ true = ground (arith, both) in
      (
        inside,
        room-Eligible gb poll now s (poll s) refl
            (sym (room-polled s inside) ∙ ground (arith, both)),
      )

  Eligible-member :
      (s : String) (r : ShardHealthResponse)
      → includes s shards ≡ true
      → Eligible gb poll now s r
      → includes s with_room ≡ true
  Eligible-member s r h e =
      includes-filter s (has_room gb poll now healths) shards
      ∙ rw (h, room-polled s h, Eligible-room gb poll now s r e) refl

  Eligible-IsSized :
      (s : String) (r : ShardHealthResponse)
      → includes s shards ≡ true
      → Eligible gb poll now s r
      → IsSized gb poll now healths s r.size_bytes
  Eligible-IsSized s r h e =
      ap (utilization_of gb poll now) (polled_health s h) ∙ (unfold polled in rw (e.answers) refl)

  member-IsSized :
      (s : String) → includes s with_room ≡ true → (k : ℕ) × IsSized gb poll now healths s k
  member-IsSized s h =
      let (inside, (r, e)) = member_of s h in (r.size_bytes, Eligible-IsSized s r inside e)

  -- A shard with room that is used at most as much as any other one with room.
  pub record IsOptimal (shard : String) : Type 0 where
    pub response : ShardHealthResponse
    pub is_available : includes shard shards ≡ true
    pub is_eligible : Eligible gb poll now shard response
    pub is_least :
        (other : String) (r : ShardHealthResponse)
        → includes other shards ≡ true
        → Eligible gb poll now other r
        → response.size_bytes ≤ r.size_bytes

  IsLeastUsed-IsOptimal :
      (s : String) (ss : List String)
      → with_room ≡ s ∷ ss
      → {chosen : String} → IsLeastUsed gb poll now healths (s ∷ s ∷ ss) chosen
      → (includes chosen shards ≡ true)
        × ((r : ShardHealthResponse) × Eligible gb poll now chosen r)
      → IsOptimal chosen
  IsLeastUsed-IsOptimal s ss e {chosen} best (inside, (r, eligible)) = record {
    response = r;
    is_available = inside;
    is_eligible = eligible;
    is_least = λ other q h other_eligible.
        let member = sym (ap (includes other) e) ∙ Eligible-member other q h other_eligible in
        let same : best.size ≡ r.size_bytes =
          ap (λ u. u.0) (sym best.is_sized ∙ Eligible-IsSized chosen r inside eligible) in
        omega (
          arith,
          same,
          best.least other q.size_bytes (ground (arith, member))
              (Eligible-IsSized other q h other_eligible),
        );
  }

  chosen-IsOptimal :
      (s : String) (ss : List String)
      → with_room ≡ s ∷ ss
      → IsOptimal (choose_lowest gb poll now healths s (s ∷ ss))
  chosen-IsOptimal s ss e =
      let in_room : (t : String) → includes t (s ∷ s ∷ ss) ≡ true → includes t with_room ≡ true =
        λ t h. ap (includes t) e ∙ ground (arith, h) in
      let (inside, (r, eligible)) = member_of s (in_room s (ground (arith, beq_refl s))) in
      let best =
        lowest-IsLeastUsed gb poll now healths s r.size_bytes (s ∷ ss)
          (omega (arith, eligible.has_space)) (Eligible-IsSized s r inside eligible)
          (λ t h. member-IsSized t (ap (includes t) e ∙ h)) in
      IsLeastUsed-IsOptimal s ss e best
        (member_of (choose_lowest gb poll now healths s (s ∷ ss)) (in_room _ best.is_one))

  found :
      (s : String) (ss : List String)
      → with_room ≡ s ∷ ss
      → (find_optimal_shard gb poll now f).0 ≡ ok (choose_lowest gb poll now healths s (s ∷ ss))
  unfolding find_optimal_shard refresh_shard_health
  found s ss e = rw (e, find_optimal_shard)

  not_found : with_room ≡ [] → (find_optimal_shard gb poll now f).0 ≡ err no_healthy_shards
  unfolding find_optimal_shard refresh_shard_health
  not_found e = rw (e, find_optimal_shard)

  -- The search polls every available shard and gives one that answers well, has a fifth of its space free and is used
  -- at most as much as any other such shard; it fails, with the error for this, exactly if there is none.
  pub find_optimal_shard_lem :
      ((shard : String) × ((find_optimal_shard gb poll now f).0 ≡ ok shard) × IsOptimal shard)
      ⊎ (((find_optimal_shard gb poll now f).0 ≡ err no_healthy_shards)
          × ((other : String) (r : ShardHealthResponse)
              → includes other shards ≡ true
              → ¬ Eligible gb poll now other r))
  find_optimal_shard_lem = elim (List-cases with_room) [
    | inl e ↦ inr (
      not_found e,
      λ other r h eligible.
          absurd (ground (arith, ap (includes other) e, Eligible-member other r h eligible)),
    )
    | inr (s, ss, e) ↦
        inl (choose_lowest gb poll now healths s (s ∷ ss), found s ss e, chosen-IsOptimal s ss e)
  ]
