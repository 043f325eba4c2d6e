-- ===== src/Shard/Service.antt =====
-- The class `TableShard` of src/services/TableShard.ts. The database is the platform's: `Engine` is what the shard
-- asks of it, a statement that throws or gives its number of changes. The table `_events` is kept as the list of
-- its rows, and what is written to it does not fail. `transactionSync`, where the storage has it, runs its statements and
-- keeps none of them if one throws. The queue takes an event or refuses it. Identifiers of transactions are arguments. The rows of a
-- query, the time spent, logging, the export and import of rows and the administration of tables and bookmarks are
-- left out. A missing or empty identifier of a transaction is `none`.
use workersql.Base.{
  ℕ, ◌+◌, ◌-◌, ◌*◌, Bool, true, ◌&&◌, ◌||◌, List, [], ◌∷◌, ◌++◌, Option, none, some, String, max,
  min, ◌==◌, if◌then◌else◌, ltb, leb, filter, includes, string_eq, nat_eq,
}
use workersql.Dict
use workersql.Dict.{Dict}
use workersql.Text.{◌++◌ as ◌+++◌}
use workersql.Cache.{take}
use workersql.Split.Types.{or_else}
use workersql.Queue.Consumer.{Event}
use workersql.Shard.Statements.{touch_stmt_cache}

pub record Operation (Params : Type 0) : Type 0 where
  pub sql : String
  pub params : Params

pub record Engine : Type 1 where
  pub Db : Type 0
  pub Params : Type 0
  pub no_params : Params
  pub exec : Db → String → Params → Option ℕ × Db
  -- whether the storage has `transactionSync`
  pub transaction_sync : Bool
  pub size : Db → Option ℕ
  pub extract_table_name : String → String

pub data ChangeType : Type 0 where
  mutation ddl : ChangeType

-- A row of `_events`, its payload taken apart.
pub record Change (Params : Type 0) : Type 0 where
  pub id : ℕ
  pub ts : ℕ
  pub change_type : ChangeType
  pub tenant_id : String
  pub table : String
  pub sql : String
  pub params : Params

pub record Transaction (Params : Type 0) : Type 0 where
  pub operations : List (Operation Params)
  pub tenant_id : String
  pub start_time : ℕ

pub data ShardError : Type 0 where
  transaction_not_found invalid_operation shard_capacity sql_error : ShardError

pub data Reply : Type 0 where
  rows_affected : ℕ → Reply
  begun : String → Reply
  failed : ShardError → Reply

pub record Shard (engine : Engine) : Type 0 where
  pub db : engine.Db
  pub events : List (Change engine.Params)
  pub transactions : Dict String (Transaction engine.Params)
  pub size_bytes : ℕ
  pub last_size_check : ℕ
  pub pending_events : List Event
  pub sent : List Event
  pub stmt_cache : Dict String ℕ

-- The key of a new row of `_events`, an `INTEGER PRIMARY KEY`: one more than the largest one.
abbrev pub next_id : {P : Type 0} → List (Change P) → ℕ
next_id [] = 1
next_id (c ∷ cs) = max (c.id + 1) (next_id cs)

abbrev pub of_tenant : Option String → String → Bool
of_tenant none t = true
of_tenant (some id) t = id == "" || t == id

module _ (engine : Engine) (shard_id : String) (max_shard_size_gb : ℕ) where
  open engine use {Db, Params, no_params, exec, transaction_sync, size, extract_table_name}

  unfoldable pub refresh_capacity : Shard engine → ℕ → Shard engine
  refresh_capacity s now = elim (size s.db) [
    | none ↦ s
    | some bytes ↦ record s { size_bytes = bytes; last_size_check = now }
  ]

  unfoldable pub refresh_capacity_if_due : Shard engine → ℕ → Shard engine
  unfolding refresh_capacity
  refresh_capacity_if_due s now =
      if ltb 60000 (now - s.last_size_check) then refresh_capacity s now else s

  -- `checkCapacity`, and whether it throws.
  unfoldable pub is_full : Shard engine → Bool
  is_full s = leb (max_shard_size_gb * 1073741824) s.size_bytes

  unfoldable pub record_change_event :
      Shard engine → ChangeType → String → Operation Params → ℕ → Shard engine
  record_change_event s change_type tenant_id op now = record s {
    events =
        s.events
        ++ (record {
          id = next_id s.events;
          ts = now;
          change_type = change_type;
          tenant_id = tenant_id;
          table = extract_table_name op.sql;
          sql = op.sql;
          params = op.params;
        }
            ∷ []);
  }

  unfoldable pub record_each : Shard engine → String → List (Operation Params) → ℕ → Shard engine
  unfolding record_change_event
  record_each s tenant_id [] now = s
  record_each s tenant_id (op ∷ ops) now =
      record_each (record_change_event s mutation tenant_id op now) tenant_id ops now

  abbrev pub invalidation_event : String → String → ℕ → Event
  invalidation_event tenant_id table_name now = record {
    event_type = some "invalidate";
    shard_id = if shard_id == "" then none else some shard_id;
    timestamp = some now;
    keys = some ((tenant_id +++ (":" +++ table_name)) ∷ []);
  }

  -- The queue takes the event, or refuses it: then it stays pending.
  unfoldable pub emit_invalidation_event : Bool → Shard engine → String → String → ℕ → Shard engine
  emit_invalidation_event queue_works s tenant_id table_name now =
      let event = invalidation_event tenant_id table_name now in
      if queue_works
      then record s { sent = s.sent ++ event ∷ [] }
      else record s { pending_events = s.pending_events ++ event ∷ [] }

  unfoldable pub emit_each : Bool → Shard engine → String → List String → ℕ → Shard engine
  unfolding emit_invalidation_event
  emit_each queue_works s tenant_id [] now = s
  emit_each queue_works s tenant_id (t ∷ ts) now =
      emit_each queue_works (emit_invalidation_event queue_works s tenant_id t now) tenant_id ts now

  unfoldable pub execute_sql : Shard engine → Operation Params → ℕ → Reply × Shard engine
  unfolding touch_stmt_cache
  execute_sql s op now =
      let t = record s { stmt_cache = touch_stmt_cache s.stmt_cache op.sql now } in
      let (done, db) = exec s.db op.sql op.params in
      elim done [
        | none ↦ (failed sql_error, record t { db = db })
        | some changes ↦ (rows_affected changes, record t { db = db })
      ]

  -- The statements of a list one after the other, up to one that throws: the sum of their changes, where none does,
  -- and the database that they leave.
  unfoldable pub exec_all : Db → List (Operation Params) → Option ℕ × Db
  exec_all db [] = (some 0, db)
  exec_all db (op ∷ ops) =
      let (done, next) = exec db op.sql op.params in
      let (rest, last) = exec_all next ops in
      elim done [
        | none ↦ (none, next)
        | some changes ↦ elim rest [
          | none ↦ (none, last)
          | some total ↦ (some (changes + total), last)
        ]
      ]

  -- `transactionSync`: where a statement threw, the database is the one before.
  abbrev pub undone : Db → Option ℕ × Db → Option ℕ × Db
  undone db (none, last) = (none, db)
  undone db (some total, last) = (some total, last)

  -- The statements of a commit: without `transactionSync` they run outside of any transaction.
  unfoldable pub exec_commit : Db → List (Operation Params) → Option ℕ × Db
  unfolding exec_all
  exec_commit db ops = if transaction_sync then undone db (exec_all db ops) else exec_all db ops

  abbrev roll_back : Db → Option ℕ × Db
  roll_back db = (none, (exec db "ROLLBACK" no_params).1)

  -- After the statements of a batch: `COMMIT`, or, where they or this throws, `ROLLBACK`.
  abbrev conclude : Option ℕ × Db → Option ℕ × Db
  conclude (none, db) = roll_back db
  conclude (some total, db) =
      let (done, last) = exec db "COMMIT" no_params in
      elim done [ none ↦ roll_back last | some n ↦ (some total, last) ]

  -- The statements of a batch: without `transactionSync` between `BEGIN`, which may fail, and `COMMIT`.
  unfoldable pub exec_batch : Db → List (Operation Params) → Option ℕ × Db
  unfolding exec_all
  exec_batch db ops =
      if transaction_sync
      then undone db (exec_all db ops)
      else conclude (exec_all (exec db "BEGIN" no_params).1 ops)

  abbrev pub with_transaction :
      Shard engine → String → Option (Transaction Params) → Operation Params → Reply × Shard engine
  with_transaction s id none op = (failed transaction_not_found, s)
  with_transaction s id (some txn) op = (
    rows_affected 0,
    record s {
      transactions =
          Dict.put s.transactions id (record txn { operations = txn.operations ++ op ∷ [] });
    },
  )

  unfoldable pub handle_mutation :
      Shard engine → String → Option String → Operation Params → ℕ → Reply × Shard engine
  unfolding refresh_capacity_if_due is_full execute_sql record_change_event
  handle_mutation s0 tenant_id transaction_id op now =
      let s = refresh_capacity_if_due s0 now in
      let (reply, t) = execute_sql s op now in
      if is_full s then (failed shard_capacity, s) else (elim transaction_id [
        | some id ↦ with_transaction s id (Dict.get s.transactions id) op
        | none ↦ elim reply [
          | failed e ↦ (failed e, t)
          | rows_affected n ↦ (rows_affected n, record_change_event t mutation tenant_id op now)
          | begun id ↦ (begun id, t)
        ]
      ])

  -- The tables of statements, each of them once.
  unfoldable pub touched_tables : List String → List (Operation Params) → List String
  touched_tables tables [] = tables
  touched_tables tables (op ∷ ops) =
      touched_tables
        (if extract_table_name op.sql == "" || includes (extract_table_name op.sql) tables
          then tables
          else tables ++ extract_table_name op.sql ∷ [])
        ops

  unfoldable pub handle_mutation_batch :
      Bool → Shard engine → String → List (Operation Params) → ℕ → Reply × Shard engine
  unfolding refresh_capacity_if_due is_full exec_batch emit_each touched_tables record_each
  handle_mutation_batch queue_works s0 tenant_id [] now = (rows_affected 0, s0)
  handle_mutation_batch queue_works s0 tenant_id (op ∷ ops) now =
      let s = refresh_capacity_if_due s0 now in
      let (done, db) = exec_batch s.db (op ∷ ops) in
      if is_full s then (failed shard_capacity, s) else (elim done [
        | none ↦ (failed sql_error, record s { db = db })
        | some total ↦
            let emitted =
              emit_each queue_works (record s { db = db }) tenant_id (touched_tables [] (op ∷ ops))
                now in
            (
              rows_affected total,
              refresh_capacity_if_due (record_each emitted tenant_id (op ∷ ops) now) now,
            )
      ])

  unfoldable pub handle_ddl :
      Bool → Shard engine → String → Operation Params → ℕ → Reply × Shard engine
  unfolding execute_sql record_change_event emit_invalidation_event
  handle_ddl queue_works s tenant_id op now =
      let (reply, t) = execute_sql s op now in
      elim reply [
        | failed e ↦ (failed e, t)
        | rows_affected n ↦ (
          rows_affected n,
          emit_invalidation_event queue_works (record_change_event t ddl tenant_id op now) tenant_id
              "*" now,
        )
        | begun id ↦ (begun id, t)
      ]

  unfoldable pub begin_transaction : Shard engine → String → String → ℕ → Reply × Shard engine
  begin_transaction s id tenant_id now = (
    begun id,
    record s {
      transactions =
          Dict.put s.transactions id
            (record { operations = []; tenant_id = tenant_id; start_time = now });
    },
  )

  abbrev committed :
      Shard engine → String → Transaction Params → Option ℕ × Db → ℕ → Reply × Shard engine
  committed s id txn (none, db) now =
      (failed sql_error, record s { db = db; transactions = Dict.delete s.transactions id })
  committed s id txn (some total, db) now =
      let t = record_each (record s { db = db }) txn.tenant_id txn.operations now in
      (rows_affected total, record t { transactions = Dict.delete t.transactions id })

  unfoldable pub commit_transaction : Shard engine → String → ℕ → Reply × Shard engine
  unfolding exec_commit record_each
  commit_transaction s id now = elim (Dict.get s.transactions id) [
    | none ↦ (failed transaction_not_found, s)
    | some txn ↦ committed s id txn (exec_commit s.db txn.operations) now
  ]

  unfoldable pub rollback_transaction : Shard engine → String → Reply × Shard engine
  rollback_transaction s id = elim (Dict.get s.transactions id) [
    | none ↦ (failed transaction_not_found, s)
    | some txn ↦ (rows_affected 0, record s { transactions = Dict.delete s.transactions id })
  ]

  -- The `catch` of the endpoint: an error of a commit or a rollback is an empty result.
  abbrev pub or_empty : Reply × Shard engine → Reply × Shard engine
  or_empty (failed e, s) = (rows_affected 0, s)
  or_empty (rows_affected n, s) = (rows_affected n, s)
  or_empty (begun id, s) = (begun id, s)

  -- The transaction endpoint, with the operation's name, the transaction's identifier and a new one.
  unfoldable pub handle_transaction :
      Shard engine → String → Option String → String → String → ℕ → Reply × Shard engine
  unfolding begin_transaction commit_transaction rollback_transaction
  handle_transaction s operation transaction_id tenant_id new_id now =
      if operation == "BEGIN"
      then begin_transaction s new_id tenant_id now
      else if operation == "COMMIT"
      then (elim transaction_id [
        | none ↦ (rows_affected 0, s)
        | some id ↦ or_empty (commit_transaction s id now)
      ])
      else if operation == "ROLLBACK"
      then (elim transaction_id [
        | none ↦ (rows_affected 0, s)
        | some id ↦ or_empty (rollback_transaction s id)
      ])
      else (failed invalid_operation, s)

  -- The rows that the events endpoint asks for: those from `since` on, after an event and of a tenant where these are
  -- given, in the order of their keys, which is that of the list.
  unfoldable pub matching_events : Shard engine → ℕ → Option String → ℕ → List (Change Params)
  matching_events s since tenant_id after_id =
      filter
        (λ e.
          (leb since e.ts && of_tenant tenant_id e.tenant_id)
          && (after_id == 0 || ltb after_id e.id))
        s.events

  -- A start that is missing or not above 0 is five minutes ago.
  abbrev pub since_of : Option ℕ → ℕ → ℕ
  since_of none now = now - 300000
  since_of (some since) now = if since == 0 then now - 300000 else since

  abbrev pub limit_of : Option ℕ → ℕ
  limit_of limit = min (max (or_else limit 500) 1) 2000

  -- What is missing in the request is `none`.
  unfoldable pub handle_admin_events :
      Shard engine → Option ℕ → Option String → Option ℕ → Option ℕ → ℕ → List (Change Params)
  unfolding matching_events
  handle_admin_events s since tenant_id after_id limit now =
      take (limit_of limit) (matching_events s (since_of since now) tenant_id (or_else after_id 0))
