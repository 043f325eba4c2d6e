-- ===== src/Queue/Tests.antt =====
-- The theorems on src/services/QueueEventSystem.ts at concrete inputs.
use Prim.Native.String.{String}
use workersql.Base.{
  ℕ, ◌+◌, ◌≤◌, ◌≡◌, refl, Bool, true, false, List, [], ◌∷◌, none, some, arith, filter, length, any,
  string_eq,
}
use workersql.Dict
use workersql.Dict.{Dict}
use workersql.Text.{◌++◌, has_char}
use workersql.Cache.{Held, get_materialized, read}
use workersql.Cache.Invalidation.{query_prefix, matching}
use workersql.Cache.Tests.{cache_kv, cache_listing, cached_query}
use workersql.Queue.Consumer.{Event, Delivery, acked, is_processed, is_well_formed, queue_consumer}
use workersql.Queue.Emptying.{IsName, queue_consumer-invalidates}
use workersql.Queue.Redelivery.{IsMarked, queue_consumer_redelivered}
use workersql.Queue.System.{QueueMessage, System, is_retryable, retry_failed_events}
use workersql.Queue.Retries.{has_id, retry_failed_events-forgets}

abbrev pub digest : String → String
digest text = "0a"

abbrev pub stringify : ℕ → String
stringify n = "[]"

abbrev pub cached : Dict String (Held ℕ)
cached = ("acme:q:orders:0a", cached_query) ∷ ("acme:q:users:0a", cached_query) ∷ []

abbrev orders_changed : Event
orders_changed = record {
  event_type = some "invalidate";
  shard_id = some "shard_0";
  timestamp = some 5;
  keys = some ("acme:orders" ∷ []);
}

abbrev delivery : Delivery
delivery = record { id = "m1"; body = some orders_changed; readable = true; writable = true }

pub acme-IsName : IsName "acme"
unfolding has_char
acme-IsName = record { no_colon = refl; no_star = refl; not_empty = refl }

pub orders-IsName : IsName "orders"
unfolding has_char
orders-IsName = record { no_colon = refl; no_star = refl; not_empty = refl }

pub unseen : is_processed cache_kv cache_listing cached "m1" 200 ≡ false
unfolding is_processed read Dict.get
unseen = refl

pub few_orders :
    length (matching cache_kv cache_listing cached (query_prefix "acme" "orders")) ≤ 1000
few_orders = omega arith

queue_consumer-invalidates_example :
    (get_materialized cache_kv digest stringify
      (queue_consumer cache_kv cache_listing cached (delivery ∷ []) 200).1
      "acme"
      "orders"
      "SELECT 1"
      0
      300).0
    ≡ none
queue_consumer-invalidates_example =
    queue_consumer-invalidates cache_kv cache_listing cached digest stringify [] [] delivery
      orders_changed "acme" "orders" "SELECT 1" 0 200 300 unseen refl refl acme-IsName orders-IsName
      few_orders

delivery-IsMarked : IsMarked cache_kv cache_listing cached delivery 200
unfolding is_well_formed
delivery-IsMarked = record { readable = refl; writable = refl; well_formed = refl; unseen = unseen }

queue_consumer_redelivered_example :
    queue_consumer cache_kv cache_listing
      (queue_consumer cache_kv cache_listing cached (delivery ∷ []) 200).1
      (delivery ∷ [])
      900
    ≡ (("m1", acked) ∷ [], (queue_consumer cache_kv cache_listing cached (delivery ∷ []) 200).1)
queue_consumer_redelivered_example =
    queue_consumer_redelivered cache_kv cache_listing cached [] [] delivery 200 900
      delivery-IsMarked (omega arith)

abbrev always_fails : Event → ℕ → Bool × ℕ
always_fails event calls = (false, calls + 1)

abbrev failed_key : String → String
failed_key name = name ++ "_failed"

abbrev waiting : QueueMessage
waiting = record {
  id = "m7";
  body = orders_changed;
  attempts = 1;
  max_retries = 3;
  delay_until = some 50;
}

abbrev system : System ℕ
system = record {
  metrics = record {
    total_processed = 0;
    total_failed = 0;
    dead_letter_queue_size = 0;
    last_processed_time = 0;
    event_type_counts = [];
  };
  dead_letter_queue = waiting ∷ [];
  max_retries = 3;
  retry_delay_ms = 1000;
  sent = some [];
  world = 0;
}

waiting-due :
    any (has_id "m7") (filter (is_retryable always_fails failed_key 60) system.dead_letter_queue)
    ≡ true
unfolding is_retryable
waiting-due = refl

retry_failed_events-forgets_example :
    any (has_id "m7") (retry_failed_events always_fails failed_key system 60).dead_letter_queue
    ≡ false
retry_failed_events-forgets_example =
    retry_failed_events-forgets always_fails failed_key system 60 "m7" waiting-due

abbrev messages : List (QueueMessage × ℕ)
messages = (waiting, 40) ∷ (waiting, 60) ∷ []
