-- ===== src/Split/Tailing.antt =====
-- Which events `replayTail` of src/services/ShardSplitService.ts applies, and in what order.
use workersql.Base.{
  subst, any, ℕ, ◌<◌, ◌≤◌, ◌≡◌, refl, ◌⊎◌, inl, inr, ap, sym, ◌∙◌, Bool, true, false, ◌&&◌, List,
  [], ◌∷◌, some, String, arith, ◌==◌, string_eq, nat_eq, if◌then◌else◌, ltb, max, All, Bool-cases,
}
use workersql.Base.Sort.{sort_up, IsAscending, sort_up-IsAscending}
use workersql.Kv.{Kv}
use workersql.Routing.{key_eq, Doc}
use workersql.Split.Types.{Plan, StoredPlan, or_else}
use workersql.Split.Store.{Service, persist_plan}
use workersql.Split.Texts.{is_ddl}
use workersql.Split.Shards.{Event, Shards}
use workersql.Split.Replay.{is_relevant, text_of, applied_plan, apply_events}

-- The events that a replay has to apply after the event `after_id`, in the order of the list.
abbrev pub pending : {P : Type 0} → List String → ℕ → List (Event P) → List (Event P)
pending tenants after_id [] = []
pending tenants after_id (e ∷ events) =
    let taken = e ∷ pending tenants e.id events in
    let skipped = pending tenants after_id events in
    if ltb after_id e.id && is_relevant tenants e then taken else skipped

-- Strictly rising event ids above a bound: no event stands twice.
abbrev pub RisesAbove : {P : Type 0} → ℕ → List (Event P) → Type 0
RisesAbove n [] = Unit
RisesAbove n (e ∷ events) = (n < e.id) × RisesAbove e.id events

pending-RisesAbove :
    {P : Type 0} (tenants : List String) (n : ℕ) (events : List (Event P))
    → RisesAbove n (pending tenants n events)
pending-RisesAbove tenants n [] = tt
pending-RisesAbove tenants n (e ∷ events) =
    elim (Bool-cases (ltb n e.id && is_relevant tenants e)) [
      | inl h ↦ rw (h, RisesAbove) (ground arith, pending-RisesAbove tenants e.id events)
      | inr h ↦ rw (h, RisesAbove) (pending-RisesAbove tenants n events)
    ]

-- The last id that a list of events leaves as the cursor.
abbrev pub last_id : {P : Type 0} → ℕ → List (Event P) → ℕ
last_id n [] = n
last_id n (e ∷ events) = last_id e.id events

last_id-ge :
    {P : Type 0} (n : ℕ) (events : List (Event P)) → RisesAbove n events → n ≤ last_id n events
last_id-ge n [] h = omega arith
last_id-ge n (e ∷ events) h = omega (arith, h.0, last_id-ge e.id events h.1)

-- Nothing is pending above a bound that no relevant event exceeds.
none_pending :
    {P : Type 0} (tenants : List String) (n m : ℕ) (events : List (Event P))
    → last_id n (pending tenants n events) ≤ m
    → pending tenants m events ≡ []
none_pending tenants n m [] h = refl
none_pending tenants n m (e ∷ events) h = ground (
  arith,
  none_pending tenants e.id m events,
  none_pending tenants n m events,
  last_id-ge e.id (pending tenants e.id events) (pending-RisesAbove tenants e.id events),
  last_id-ge n (pending tenants n events) (pending-RisesAbove tenants n events),
)

max_of_lt : (a b : ℕ) → a < b → max a b ≡ b
max_of_lt a b h = omega arith

-- The events of a list, applied one after another at the shard until one is refused: whether all
-- were applied, the id of the last that was, and the shards' state.
pub apply_all :
    (shards : Shards)
    → shards.World
    → String
    → ℕ
    → List (Event shards.Params)
    → (Bool × ℕ) × shards.World
apply_all shards w target last [] = ((true, last), w)
apply_all shards w target last (e ∷ events) =
    let (applied, world) =
      shards.apply_sql w target (is_ddl (text_of e.sql)) (text_of e.sql)
        (or_else e.params shards.no_params) (text_of e.tenant_id) in
    let rest = apply_all shards world target e.id events in
    if applied then rest else ((false, last), world)

module _ (shards : Shards) {rkv : Kv key_eq Doc} {pkv : Kv string_eq StoredPlan} where
  open shards use {World, Params, no_params, apply_sql}

  -- The loop applies exactly the pending events, in their order, each once, and stops at the first that
  -- the target refuses; the shards end in the state that this makes. The plan keeps its head, and its
  -- cursor is the id of the last event that was applied, so the next replay starts behind it.
  pub apply_events_lem :
      (s : Service rkv pkv World) (plan : Plan) (after_id : ℕ) (events : List (Event Params))
      (now : ℕ)
      → let r = apply_events shards s plan after_id events now in
        let spec =
          apply_all shards s.world plan.target_shard after_id
            (pending plan.tenant_ids after_id events) in
        (r.0.0 ≡ spec.0.0)
        × (r.1.world ≡ spec.1)
        × (r.0.1.head ≡ plan.head)
        × ((r.0.1.tail.last_event_id ≡ some spec.0.1) ⊎ ((r.0.1 ≡ plan) × (spec.0.1 ≡ after_id)))
        × RisesAbove after_id (pending plan.tenant_ids after_id events)
  unfolding apply_events apply_all applied_plan persist_plan
  apply_events_lem s plan after_id [] now = (refl, refl, refl, inr (refl, refl), tt)
  apply_events_lem s plan after_id (e ∷ events) now =
      elim (Bool-cases (ltb after_id e.id && is_relevant plan.tenant_ids e)) [
        | inr h ↦ rw (h, RisesAbove) (apply_events_lem s plan after_id events now)
        | inl h ↦
            let newer : after_id < e.id = ground arith in
            elim (Bool-cases
              (apply_sql s.world plan.target_shard (is_ddl (text_of e.sql)) (text_of e.sql)
                (or_else e.params no_params) (text_of e.tenant_id)).0) [
                  | inr k ↦
                      rw (h, RisesAbove, apply_all, k)
                        (
                          refl,
                          refl,
                          refl,
                          inr (refl, refl),
                          (newer, pending-RisesAbove plan.tenant_ids e.id events),
                        )
                  | inl k ↦
                      rw (h, RisesAbove, apply_all, k, max_of_lt after_id e.id newer)
                        (let ih = rw (max_of_lt after_id e.id newer) at (
                            apply_events_lem
                              (persist_plan
                                (record s {
                                  world =
                                      (apply_sql s.world plan.target_shard (is_ddl (text_of e.sql))
                                        (text_of e.sql) (or_else e.params no_params)
                                        (text_of e.tenant_id)).1;
                                })
                                (applied_plan plan after_id e now))
                              (applied_plan plan after_id e now) (max after_id e.id) events now) in
                          (
                            ih.0,
                            ih.1,
                            ih.2,
                            inl (elim ih.3 [
                              | inl at ↦ at
                              | inr (same, spec) ↦
                                  ap (λ p. p.tail.last_event_id) same ∙ ap some (sym spec)
                            ]),
                            (newer, ih.4),
                          ))
                ]
      ]

All-imp :
    {A : Type 0} (P Q R : A → Type 0) (xs : List A)
    → ((x : A) → P x → Q x → R x)
    → All P xs
    → All Q xs
    → All R xs
All-imp P Q R [] imp h k = tt
All-imp P Q R (x ∷ xs) imp h k = (imp x h.0 k.0, All-imp P Q R xs imp h.1 k.1)

-- A relevant event above the cursor is matched, by its id, by one that will be applied.
abbrev pub Served : {P : Type 0} → List String → ℕ → List (Event P) → Event P → Type 0
Served tenants n taken e =
    n < e.id → is_relevant tenants e ≡ true → any (λ f. f.id == e.id) taken ≡ true

Served-later :
    {P : Type 0} (tenants : List String) (n : ℕ) (taken : List (Event P)) (d : Event P)
    → n < d.id
    → (e : Event P) → d.id ≤ e.id
    → Served tenants d.id taken e
    → Served tenants n (d ∷ taken) e
Served-later tenants n taken d newer e above h at relevant = ground (arith, h)

module _ {P : Type 0} (tenants : List String) (n : ℕ) (d : Event P) (events : List (Event P)) where
  pending_taken :
      (ltb n d.id && is_relevant tenants d) ≡ true
      → pending tenants n (d ∷ events) ≡ d ∷ pending tenants d.id events
  pending_taken h = rw (h, pending)

  pending_skipped :
      (ltb n d.id && is_relevant tenants d) ≡ false
      → pending tenants n (d ∷ events) ≡ pending tenants n events
  pending_skipped h = rw (h, pending)

pending_sorted :
    {P : Type 0} (tenants : List String) (n : ℕ) (events : List (Event P))
    → IsAscending (λ e. e.id) events
    → All (Served tenants n (pending tenants n events)) events
pending_sorted tenants n [] asc = tt
pending_sorted tenants n (d ∷ events) asc =
    elim (Bool-cases (ltb n d.id && is_relevant tenants d)) [
      | inr h ↦
          subst (λ ps. All (Served tenants n ps) (d ∷ events))
            (sym (pending_skipped tenants n d events h))
            (
              (λ newer relevant. ground (arith, h, newer, relevant)),
              pending_sorted tenants n events asc.1,
            )
      | inl h ↦
          subst (λ ps. All (Served tenants n ps) (d ∷ events))
            (sym (pending_taken tenants n d events h))
            (
              (λ newer relevant. ground arith),
              All-imp (λ e. d.id ≤ e.id) (Served tenants d.id (pending tenants d.id events))
                  (Served tenants n (d ∷ pending tenants d.id events)) events
                  (Served-later tenants n (pending tenants d.id events) d (ground arith)) asc.0
                  (pending_sorted tenants d.id events asc.1),
            )
    ]

-- Of events sorted by id every relevant one above the cursor is pending, or another with the same id;
-- and behind the id of the last of them nothing is pending.
pending_complete :
    {P : Type 0} (tenants : List String) (n : ℕ) (events : List (Event P))
    → let sorted = sort_up (λ e. e.id) events in
      All (Served tenants n (pending tenants n sorted)) sorted
      × (pending tenants (last_id n (pending tenants n sorted)) sorted ≡ [])
pending_complete tenants n events = (
  pending_sorted tenants n (sort_up (λ e. e.id) events) (sort_up-IsAscending (λ e. e.id) events),
  none_pending tenants n _ (sort_up (λ e. e.id) events) (omega arith),
)
