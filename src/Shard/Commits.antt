-- ===== src/Shard/Commits.antt =====
-- The transactions of src/services/TableShard.ts.
use workersql.Base.{
  ℕ, if◌then◌else◌, ◌≡◌, refl, ap, ◌∙◌, sym, ◌⊎◌, inl, inr, List, [], ◌∷◌, ◌++◌, none, some, String,
  string_eq, Option-cases, beq_refl,
}
use mathlib.Core.List.{append_assoc, append-nil}
use workersql.Dict
use workersql.Dict.{Dict, get-delete}
use workersql.Shard.Service.{
  Operation, Engine, Change, mutation, Transaction, transaction_not_found, sql_error, Reply,
  rows_affected, failed, Shard, record_change_event, record_each, exec_commit, commit_transaction,
}
use workersql.Shard.Execution.{Completes, BreaksOff, exec_commit_lem}

module _ (engine : Engine) (shard_id : String) (gb : ℕ) where
  open engine use {Db, Params}

  -- What the log of changes says of each: its tenant and its statement.
  abbrev pub logged : List (Change Params) → List (String × Operation Params)
  logged [] = []
  logged (c ∷ cs) = (c.tenant_id, record { sql = c.sql; params = c.params }) ∷ logged cs

  abbrev pub entries : String → List (Operation Params) → List (String × Operation Params)
  entries tenant [] = []
  entries tenant (op ∷ ops) = (tenant, op) ∷ entries tenant ops

  logged-append : (cs ds : List (Change Params)) → logged (cs ++ ds) ≡ logged cs ++ logged ds
  logged-append [] ds = refl
  logged-append (c ∷ cs) ds =
      ap (λ r. (c.tenant_id, record { sql = c.sql; params = c.params }) ∷ r) (logged-append cs ds)

  -- What recording changes leaves alone.
  record Recorded (s : Shard engine) (tenant : String) (ops : List (Operation Params))
      (t : Shard engine) : Type 0 where
    same_db : t.db ≡ s.db
    same_transactions : t.transactions ≡ s.transactions
    log : logged t.events ≡ logged s.events ++ entries tenant ops

  record_each-Recorded :
      (s : Shard engine) (tenant : String) (ops : List (Operation Params)) (now : ℕ)
      → Recorded s tenant ops (record_each engine shard_id gb s tenant ops now)
  unfolding record_each record_change_event
  record_each-Recorded s tenant [] now = record {
    same_db = refl;
    same_transactions = refl;
    log = sym (append-nil (logged s.events));
  }
  record_each-Recorded s tenant (op ∷ ops) now =
      let rest =
        record_each-Recorded (record_change_event engine shard_id gb s mutation tenant op now)
          tenant ops now in
      record {
        same_db = rest.same_db;
        same_transactions = rest.same_transactions;
        log =
            rest.log
            ∙ (ap (λ l. l ++ entries tenant ops) (logged-append s.events _)
                ∙ append_assoc (logged s.events) ((tenant, op) ∷ []) (entries tenant ops));
      }

  commit_found :
      (s : Shard engine) (id : String) (now : ℕ) (txn : Transaction Params) (total : ℕ) (db : Db)
      → Dict.get s.transactions id ≡ some txn
      → exec_commit engine shard_id gb s.db txn.operations ≡ (some total, db)
      → let t =
          record_each engine shard_id gb (record s { db = db }) txn.tenant_id txn.operations now in
        commit_transaction engine shard_id gb s id now
        ≡ (rows_affected total, record t { transactions = Dict.delete t.transactions id })
  unfolding commit_transaction
  commit_found s id now txn total db e f = rw (commit_transaction, e) (rw f refl)

  commit_failed :
      (s : Shard engine) (id : String) (now : ℕ) (txn : Transaction Params) (db : Db)
      → Dict.get s.transactions id ≡ some txn
      → exec_commit engine shard_id gb s.db txn.operations ≡ (none, db)
      → commit_transaction engine shard_id gb s id now
        ≡ (failed sql_error, record s { db = db; transactions = Dict.delete s.transactions id })
  unfolding commit_transaction
  commit_failed s id now txn db e f = rw (commit_transaction, e) (rw f refl)

  commit_missing :
      (s : Shard engine) (id : String) (now : ℕ)
      → Dict.get s.transactions id ≡ none
      → commit_transaction engine shard_id gb s id now ≡ (failed transaction_not_found, s)
  unfolding commit_transaction
  commit_missing s id now e = simp (e, commit_transaction)

  deleted :
      (m : Dict String (Transaction Params)) (id : String) → Dict.get (Dict.delete m id) id ≡ none
  deleted m id = get-delete m id id ∙ rw (beq_refl id) refl

  -- All that a commit does to a shard, where it has the transaction.
  abbrev pub IsCommit : Shard engine → String → Transaction Params → Reply × Shard engine → Type 0
  IsCommit s id txn (reply, t) =
      (Dict.get t.transactions id ≡ none)
      × (((total : ℕ) × Completes engine shard_id gb s.db txn.operations total t.db
            × (reply ≡ rows_affected total)
            × (logged t.events ≡ logged s.events ++ entries txn.tenant_id txn.operations))
          ⊎ ((last : Db) × BreaksOff engine shard_id gb s.db txn.operations last
              × (reply ≡ failed sql_error)
              × (t.db ≡ (if engine.transaction_sync then s.db else last))
              × (t.events ≡ s.events)))

  -- A commit of a transaction that is there takes it off. It runs its statements in order. If none of them throws, it
  -- answers the sum of their changes and logs each of them for the transaction's tenant. If one throws, the
  -- commit fails and logs nothing; where the storage has `transactionSync` the database is as it was, and
  -- where it does not, it is what the statements up to the one that threw have made of it. A commit of a transaction
  -- that is not there changes nothing.
  pub commit_transaction_lem :
      (s : Shard engine) (id : String) (now : ℕ)
      → ((txn : Transaction Params) × (Dict.get s.transactions id ≡ some txn)
          × IsCommit s id txn (commit_transaction engine shard_id gb s id now))
        ⊎ ((Dict.get s.transactions id ≡ none)
            × (commit_transaction engine shard_id gb s id now ≡ (failed transaction_not_found, s)))
  commit_transaction_lem s id now = elim (Option-cases (Dict.get s.transactions id)) [
    | inl e ↦ inr (e, commit_missing s id now e)
    | inr (txn, e) ↦ elim (exec_commit_lem engine shard_id gb txn.operations s.db) [
      | inr (last, f, broken) ↦ inl (
        txn,
        e,
        rw (commit_failed s id now txn _ e f)
            (deleted s.transactions id, inr (last, broken, refl, refl, refl)),
      )
      | inl (total, last, f, done) ↦ inl (
        txn,
        e,
        rw (commit_found s id now txn total last e f) (
            let r =
              record_each-Recorded (record s { db = last }) txn.tenant_id txn.operations now in
            (deleted _ id, inl (total, rw r.same_db done, refl, r.log))),
      )
    ]
  ]

  -- The shard without its transactions.
  abbrev pub apart : Shard engine → Shard engine
  apart s = record s { transactions = [] }

  -- The shard in which the transaction has no statements.
  abbrev pub emptied : Shard engine → String → Transaction Params → Shard engine
  emptied s id txn = record s {
    transactions = Dict.put s.transactions id (record txn { operations = [] });
  }
