-- ===== src/Shard/Execution.antt =====
-- How the statements of a transaction of src/services/TableShard.ts run, one after the other.
use workersql.Base.{
  ℕ, ◌+◌, true, if◌then◌else◌, ◌≡◌, refl, ap, ◌∙◌, ◌⊎◌, inl, inr, List, [], ◌∷◌, Option, none, some,
  String, string_eq, Bool-cases,
}
use workersql.Shard.Service.{Operation, Engine, Transaction, Shard, exec_all, exec_commit}

module _ (engine : Engine) (shard_id : String) (gb : ℕ) where
  open engine use {Db, Params}

  -- The statements run in order, up to one that throws, from a database: all of them, with the sum of their changes.
  abbrev pub Completes : Db → List (Operation Params) → ℕ → Db → Type 0
  Completes db [] total last = (total ≡ 0) × (last ≡ db)
  Completes db (op ∷ ops) total last =
      (n : ℕ) × (m : ℕ) × (next : Db) × (engine.exec db op.sql op.params ≡ (some n, next))
      × (total ≡ n + m)
      × Completes next ops m last

  -- The same where one of them throws: the database is what that one and those before it have made of it.
  abbrev pub BreaksOff : Db → List (Operation Params) → Db → Type 0
  BreaksOff db [] last = ⊥
  BreaksOff db (op ∷ ops) last =
      (engine.exec db op.sql op.params ≡ (none, last))
      ⊎ ((n : ℕ) × (next : Db) × (engine.exec db op.sql op.params ≡ (some n, next))
          × BreaksOff next ops last)

  Answer-cases :
      (r : Option ℕ × Db)
      → ((db : Db) × (r ≡ (none, db))) ⊎ ((n : ℕ) × (db : Db) × (r ≡ (some n, db)))
  Answer-cases (none, db) = inl (db, refl)
  Answer-cases (some n, db) = inr (n, db, refl)

  abbrev plus : ℕ → Option ℕ × Db → Option ℕ × Db
  plus n r = elim r.0 [ none ↦ (none, r.1) | some m ↦ (some (n + m), r.1) ]

  abbrev exec_after : Option ℕ × Db → List (Operation Params) → Option ℕ × Db
  exec_after r ops = elim r.0 [
    | none ↦ (none, r.1)
    | some n ↦ plus n (exec_all engine shard_id gb r.1 ops)
  ]

  exec_step :
      (op : Operation Params) (ops : List (Operation Params)) (db : Db)
      → exec_all engine shard_id gb db (op ∷ ops) ≡ exec_after (engine.exec db op.sql op.params) ops
  unfolding exec_all
  exec_step op ops db = refl

  exec_next :
      (op : Operation Params) (ops : List (Operation Params)) (db : Db) (n : ℕ) (next : Db)
      → engine.exec db op.sql op.params ≡ (some n, next)
      → exec_all engine shard_id gb db (op ∷ ops) ≡ plus n (exec_all engine shard_id gb next ops)
  exec_next op ops db n next e = exec_step op ops db ∙ ap (λ r. exec_after r ops) e

  exec_all_lem :
      (ops : List (Operation Params)) (db : Db)
      → ((total : ℕ) × (last : Db) × (exec_all engine shard_id gb db ops ≡ (some total, last))
          × Completes db ops total last)
        ⊎ ((last : Db) × (exec_all engine shard_id gb db ops ≡ (none, last))
            × BreaksOff db ops last)
  unfolding exec_all
  exec_all_lem [] db = inl (0, db, refl, (refl, refl))
  exec_all_lem (op ∷ ops) db = elim (Answer-cases (engine.exec db op.sql op.params)) [
    | inl (next, e) ↦ inr (next, exec_step op ops db ∙ ap (λ r. exec_after r ops) e, inl e)
    | inr (n, next, e) ↦ elim (exec_all_lem ops next) [
      | inl (m, last, f, done) ↦
          inl
            (n + m, last, exec_next op ops db n next e ∙ ap (plus n) f, (n, m, next, e, refl, done))
      | inr (last, f, broken) ↦
          inr (last, exec_next op ops db n next e ∙ ap (plus n) f, inr (n, next, e, broken))
    ]
  ]

  broken_all :
      (ops : List (Operation Params)) (db last : Db)
      → BreaksOff db ops last
      → exec_all engine shard_id gb db ops ≡ (none, last)
  unfolding exec_all
  broken_all [] db last broken = absurd broken
  broken_all (op ∷ ops) db last (inl e) = exec_step op ops db ∙ ap (λ r. exec_after r ops) e
  broken_all (op ∷ ops) db last (inr (n, next, e, broken)) =
      exec_next op ops db n next e ∙ ap (plus n) (broken_all ops next last broken)

  pub exec_commit_lem :
      (ops : List (Operation Params)) (db : Db)
      → ((total : ℕ) × (last : Db) × (exec_commit engine shard_id gb db ops ≡ (some total, last))
          × Completes db ops total last)
        ⊎ ((last : Db) × (exec_commit engine shard_id gb db ops
              ≡ (none, (if engine.transaction_sync then db else last)))
            × BreaksOff db ops last)
  unfolding exec_commit
  exec_commit_lem ops db = elim (exec_all_lem ops db) [
    | inl (total, last, e, done) ↦ elim (Bool-cases engine.transaction_sync) [
      | inl sync ↦ inl (total, last, rw (sync, e) refl, done)
      | inr plain ↦ inl (total, last, rw (plain, e) refl, done)
    ]
    | inr (last, e, broken) ↦ elim (Bool-cases engine.transaction_sync) [
      | inl sync ↦ inr (last, rw (sync, e) refl, broken)
      | inr plain ↦ inr (last, rw (plain, e) refl, broken)
    ]
  ]

  pub Breaks-exec_commit :
      (s : Shard engine) (txn : Transaction Params) (last : Db)
      → engine.transaction_sync ≡ true
      → BreaksOff s.db txn.operations last
      → exec_commit engine shard_id gb s.db txn.operations ≡ (none, s.db)
  unfolding exec_commit
  Breaks-exec_commit s txn last sync broken =
      rw (sync, broken_all txn.operations s.db last broken) refl
