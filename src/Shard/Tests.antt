-- ===== src/Shard/Tests.antt =====
-- The theorems on src/services/TableShard.ts at concrete inputs. The database of these is the list of the statements
-- that it ran, and the statement `BAD` throws.
use workersql.Base.{
  true, false, ℕ, ◌+◌, ◌≤◌, ◌≡◌, refl, ◌⊎◌, List, [], ◌∷◌, ◌++◌, none, some, String, ◌==◌,
  if◌then◌else◌, length, string_eq,
}
use workersql.Dict
use workersql.Dict.{Dict}
use workersql.Cache.{get_materialized}
use workersql.Cache.Tests.{cache_kv, cache_listing}
use workersql.Queue.Consumer.{queue_consumer}
use workersql.Queue.Tests.{
  digest, stringify, cached, unseen, acme-IsName, orders-IsName, few_orders,
}
use workersql.Shard.Invalidation.{IsAmong, batch-invalidates}
use workersql.Shard.Service.{
  invalidation_event, handle_mutation_batch, refresh_capacity_if_due, is_full,
}
use workersql.Shard.Statements.{
  touch_stmt_cache, touch_all, touch_all-bounded, touch_stmt_cache-grows,
}
use workersql.Shard.Service.{
  Operation, Engine, Change, mutation, Transaction, transaction_not_found, rows_affected, failed,
  Shard, exec_all, exec_batch, exec_commit, commit_transaction,
}
use workersql.Shard.Commits.{IsCommit, commit_transaction_lem}

touch_all-bounded_example :
    (length (touch_stmt_cache (touch_all [] (("SELECT 1", 3) ∷ [])) "SELECT 2" 4) ≤ 200)
    × (Dict.get (touch_stmt_cache (touch_all [] (("SELECT 1", 3) ∷ [])) "SELECT 2" 4) "SELECT 2"
        ≡ some 4)
touch_all-bounded_example = touch_all-bounded (("SELECT 1", 3) ∷ []) "SELECT 2" 4 refl

abbrev kept : Dict String ℕ
kept = ("SELECT 1", 3) ∷ []

touch_stmt_cache-grows_example :
    (touch_stmt_cache (("", 1) ∷ kept) "SELECT 2" 4 ≡ ("", 1) ∷ Dict.put kept "SELECT 2" 4)
    × (length (touch_stmt_cache (("", 1) ∷ kept) "SELECT 2" 4) ≡ 2 + 1)
unfolding Dict.get
touch_stmt_cache-grows_example = touch_stmt_cache-grows 1 kept "SELECT 2" 4 refl refl

abbrev engine : Engine
engine = record {
  Db = List String;
  Params = List String;
  no_params = [];
  exec = λ db sql params. if sql == "BAD" then (none, db) else (some 1, db ++ sql ∷ []);
  transaction_sync = true;
  size = λ db. some (length db);
  extract_table_name = λ sql. "orders";
}

abbrev operation : String → Operation (List String)
operation sql = record { sql = sql; params = [] }

abbrev changes : List (Change (List String))
changes =
    (record {
      id = 1;
      ts = 10;
      change_type = mutation;
      tenant_id = "acme";
      table = "orders";
      sql = "DELETE FROM orders";
      params = [];
    })
    ∷ []

abbrev shard : List (Operation (List String)) → Shard engine
shard operations = record {
  db = [];
  events = changes;
  transactions =
      ("t1", record { operations = operations; tenant_id = "acme"; start_time = 5 }) ∷ [];
  size_bytes = 0;
  last_size_check = 0;
  pending_events = [];
  sent = [];
  stmt_cache = [];
}

abbrev two_inserts : List (Operation (List String))
two_inserts = operation "INSERT 1" ∷ operation "INSERT 2" ∷ []

committed_test :
    (commit_transaction engine "shard_0" 10 (shard two_inserts) "t1" 20).0 ≡ rows_affected 2
unfolding commit_transaction exec_commit exec_all Dict.get
committed_test = refl

commit_transaction_example :
    ((txn : Transaction (List String)) × (Dict.get (shard two_inserts).transactions "t1" ≡ some txn)
      × IsCommit engine "shard_0" 10
          (shard two_inserts)
          "t1"
          txn
          (commit_transaction engine "shard_0" 10 (shard two_inserts) "t1" 20))
    ⊎ ((Dict.get (shard two_inserts).transactions "t1" ≡ none)
        × (commit_transaction engine "shard_0" 10 (shard two_inserts) "t1" 20
            ≡ (failed transaction_not_found, shard two_inserts)))
commit_transaction_example = commit_transaction_lem engine "shard_0" 10 (shard two_inserts) "t1" 20

abbrev half_bad : List (Operation (List String))
half_bad = operation "INSERT 1" ∷ operation "BAD" ∷ []

-- Without `transactionSync` the first statement of a commit that fails stays done.
abbrev plain_engine : Engine
plain_engine = record engine { transaction_sync = false }

abbrev plain_shard : Shard plain_engine
plain_shard = record {
  db = [];
  events = changes;
  transactions = ("t1", record { operations = half_bad; tenant_id = "acme"; start_time = 5 }) ∷ [];
  size_bytes = 0;
  last_size_check = 0;
  pending_events = [];
  sent = [];
  stmt_cache = [];
}

plain_test :
    (commit_transaction plain_engine "shard_0" 10 plain_shard "t1" 20).1.db ≡ "INSERT 1" ∷ []
unfolding commit_transaction exec_commit exec_all Dict.get
plain_test = refl

-- The transaction `t1` whose second statement throws.
abbrev half_txn : Transaction (List String)
half_txn = record { operations = half_bad; tenant_id = "acme"; start_time = 5 }

accepted :
    (handle_mutation_batch engine "shard_0" 10 true (shard []) "acme" two_inserts 20).0
    ≡ rows_affected 2
unfolding handle_mutation_batch refresh_capacity_if_due is_full exec_batch exec_all
accepted = refl

batch-invalidates_example :
    IsAmong engine "shard_0" 10
      (invalidation_event engine "shard_0" 10 "acme" "orders" 20)
      (handle_mutation_batch engine "shard_0" 10 true (shard []) "acme" two_inserts 20).1.sent
    × ((get_materialized cache_kv digest stringify
          (queue_consumer cache_kv cache_listing cached
            (record {
              id = "m1";
              body = some (invalidation_event engine "shard_0" 10 "acme" "orders" 20);
              readable = true;
              writable = true;
            }
              ∷ [])
            200).1
          "acme"
          "orders"
          "SELECT 1"
          0
          300).0
        ≡ none)
batch-invalidates_example =
    batch-invalidates engine "shard_0" 10 cache_kv cache_listing cached digest stringify (shard [])
      "acme" (operation "INSERT 1" ∷ []) [] (operation "INSERT 2") 20 2 [] [] "m1" "SELECT 1" true
      true 0 200 300 accepted unseen acme-IsName orders-IsName few_orders
