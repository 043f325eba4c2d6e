-- ===== src/Shard/Queued.antt =====
-- What a mutation in a transaction of src/services/TableShard.ts leaves alone until the commit.
use workersql.Base.{
  ℕ, ◌-◌, ◌≡◌, refl, ◌∙◌, ◌⊎◌, inl, inr, Option, none, some, String, ltb, string_eq, Bool-cases,
  Option-cases,
}
use workersql.Dict
use workersql.Dict.{Dict, get-delete, get-put}
use workersql.Shard.Service.{
  Operation, Engine, Transaction, shard_capacity, failed, Shard, refresh_capacity_if_due,
  refresh_capacity, is_full, with_transaction, handle_mutation,
}

module _ (engine : Engine) (shard_id : String) (gb : ℕ) where
  open engine use {Db, Params}

  -- The database and the log of changes are the same.
  pub record Unchanged (s t : Shard engine) : Type 0 where
    pub same_db : t.db ≡ s.db
    pub same_events : t.events ≡ s.events

  refresh-Unchanged :
      (s : Shard engine) (now : ℕ) → Unchanged s (refresh_capacity_if_due engine shard_id gb s now)
  unfolding refresh_capacity_if_due refresh_capacity
  refresh-Unchanged s now = elim (Bool-cases (ltb 60000 (now - s.last_size_check))) [
    | inr e ↦ rw e (record { same_db = refl; same_events = refl })
    | inl e ↦ rw e (elim (Option-cases (engine.size s.db)) [
      | inl f ↦ rw (f, refresh_capacity) (record { same_db = refl; same_events = refl })
      | inr (bytes, f) ↦ rw (f, refresh_capacity) (record { same_db = refl; same_events = refl })
    ])
  ]

  queued-Unchanged :
      (s : Shard engine) (id : String) (found : Option (Transaction Params)) (op : Operation Params)
      → Unchanged s (with_transaction engine shard_id gb s id found op).1
  queued-Unchanged s id none op = record { same_db = refl; same_events = refl }
  queued-Unchanged s id (some txn) op = record { same_db = refl; same_events = refl }

  mutation_cases :
      (s : Shard engine) (tenant id : String) (op : Operation Params) (now : ℕ)
      → (handle_mutation engine shard_id gb s tenant (some id) op now
          ≡ (failed shard_capacity, refresh_capacity_if_due engine shard_id gb s now))
        ⊎ (handle_mutation engine shard_id gb s tenant (some id) op now
            ≡ with_transaction engine shard_id gb
                (refresh_capacity_if_due engine shard_id gb s now)
                id
                (Dict.get (refresh_capacity_if_due engine shard_id gb s now).transactions id)
                op)
  unfolding handle_mutation
  mutation_cases s tenant id op now =
      elim (Bool-cases
        (is_full engine shard_id gb (refresh_capacity_if_due engine shard_id gb s now))) [
          | inl e ↦ inl (rw e refl)
          | inr e ↦ inr (rw e refl)
        ]

  -- A mutation in a transaction, whatever it is answered, touches neither the database nor the log of changes.
  pub handle_mutation-Unchanged :
      (s : Shard engine) (tenant id : String) (op : Operation Params) (now : ℕ)
      → Unchanged s (handle_mutation engine shard_id gb s tenant (some id) op now).1
  handle_mutation-Unchanged s tenant id op now =
      let r = refresh-Unchanged s now in
      elim (mutation_cases s tenant id op now) [
        | inl e ↦ rw e r
        | inr e ↦ rw e (
            let q = queued-Unchanged (refresh_capacity_if_due engine shard_id gb s now) id _ op in
            record { same_db = q.same_db ∙ r.same_db; same_events = q.same_events ∙ r.same_events })
      ]
