-- ===== src/Queue/System.antt =====
-- The class `QueueEventSystem` of src/services/QueueEventSystem.ts: sending, processing with retries and the
-- dead letter queue. The platform's queue is the list of events that it has taken. The handlers of an
-- event are one function over the state of the world, which says whether none of them threw; the average
-- processing time, a floating-point number, is left out.
use workersql.Base.{
  ℕ, ◌+◌, ◌*◌, ◌^◌, Bool, false, not, ◌&&◌, ◌||◌, List, [], ◌∷◌, ◌++◌, Option, none, some, String,
  ◌==◌, if◌then◌else◌, filter, length, ltb, leb, string_eq, nat_eq, is_some, all,
}
use workersql.Dict
use workersql.Dict.{Dict}
use workersql.Queue.Consumer.{Event, is_type}

pub record QueueMessage : Type 0 where
  pub id : String
  pub body : Event
  pub attempts : ℕ
  pub max_retries : ℕ
  pub delay_until : Option ℕ

pub record QueueMetrics : Type 0 where
  pub total_processed : ℕ
  pub total_failed : ℕ
  pub dead_letter_queue_size : ℕ
  pub last_processed_time : ℕ
  pub event_type_counts : Dict String ℕ

pub record System (World : Type 0) : Type 0 where
  pub metrics : QueueMetrics
  pub dead_letter_queue : List QueueMessage
  pub max_retries : ℕ
  pub retry_delay_ms : ℕ
  pub sent : Option (List Event)
  pub world : World

pub data SendError : Type 0 where
  queue_send_failed queue_batch_send_failed : SendError

-- Whether `validateEvent` does not throw.
unfoldable pub validate_event : Event → Bool
validate_event event =
    (is_some event.event_type && (is_some event.shard_id && is_some event.timestamp))
    && (is_type event.event_type "invalidate"
        || (is_type event.event_type "prewarm" || is_type event.event_type "d1_sync"))

unfoldable pub send_event : {W : Type 0} → System W → Event → Option SendError × System W
unfolding validate_event
send_event s event = elim s.sent [
  | none ↦ (some queue_send_failed, s)
  | some events ↦
      if validate_event event
      then (none, record s { sent = some (events ++ event ∷ []) })
      else (some queue_send_failed, s)
]

unfoldable pub send_events : {W : Type 0} → System W → List Event → Option SendError × System W
unfolding validate_event
send_events s [] = (none, s)
send_events s (e ∷ es) = elim s.sent [
  | none ↦ (some queue_batch_send_failed, s)
  | some events ↦
      if all validate_event (e ∷ es)
      then (none, record s { sent = some (events ++ e ∷ es) })
      else (some queue_batch_send_failed, s)
]

abbrev count_of : Option ℕ → ℕ
count_of none = 0
count_of (some n) = n

abbrev type_name : Option String → String
type_name none = ""
type_name (some t) = t

unfoldable pub update_success_metrics : QueueMetrics → String → ℕ → QueueMetrics
update_success_metrics m event_type now = record m {
  total_processed = m.total_processed + 1;
  last_processed_time = now;
  event_type_counts =
      Dict.put m.event_type_counts event_type
        (count_of (Dict.get m.event_type_counts event_type) + 1);
}

unfoldable pub update_failure_metrics : QueueMetrics → String → QueueMetrics
update_failure_metrics m event_type = record m {
  total_failed = m.total_failed + 1;
  event_type_counts =
      Dict.put m.event_type_counts event_type
        (count_of (Dict.get m.event_type_counts event_type) + 1);
}

-- The message that goes to the dead letter queue after a failure.
unfoldable pub failed_message : ℕ → ℕ → QueueMessage → ℕ → QueueMessage
failed_message max_retries retry_delay_ms message now =
    if leb max_retries message.attempts
    then record message { attempts = message.attempts + 1 }
    else record message {
      attempts = message.attempts + 1;
      delay_until = some (now + retry_delay_ms * 2 ^ message.attempts);
    }

unfoldable pub handle_failed_message : {W : Type 0} → System W → QueueMessage → ℕ → System W
unfolding failed_message
handle_failed_message s message now = record s {
  dead_letter_queue =
      s.dead_letter_queue ++ failed_message s.max_retries s.retry_delay_ms message now ∷ [];
}

abbrev pub is_delayed : Option ℕ → ℕ → Bool
is_delayed none now = false
is_delayed (some t) now = ltb now t

-- The handlers of an event, and the name under which a failed event is counted.
module _ {W : Type 0} (handle : Event → W → Bool × W) (failed_key : String → String) where
  unfoldable pub process_message : System W → QueueMessage → ℕ → System W
  unfolding update_success_metrics update_failure_metrics handle_failed_message
  process_message s message now =
      let (done, world) = handle message.body s.world in
      let name = type_name message.body.event_type in
      if is_delayed message.delay_until now
      then s
      else if done
      then record s { world = world; metrics = update_success_metrics s.metrics name now }
      else (let t = handle_failed_message (record s { world = world }) message now in
          record t { metrics = update_failure_metrics s.metrics (failed_key name) })

  unfoldable pub is_retryable : ℕ → QueueMessage → Bool
  is_retryable now message =
      ltb message.attempts message.max_retries && not (is_delayed message.delay_until now)

  -- The loop of `retryFailedEvents`: `processMessage` catches every error, so each message is taken off.
  unfoldable pub retry_each : System W → List QueueMessage → ℕ → System W
  unfolding process_message
  retry_each s [] now = s
  retry_each s (message ∷ messages) now =
      let t = process_message s (record message { attempts = message.attempts + 1 }) now in
      retry_each
        (record t {
          dead_letter_queue = filter (λ m. not (m.id == message.id)) t.dead_letter_queue;
        })
        messages now

  unfoldable pub retry_failed_events : System W → ℕ → System W
  unfolding retry_each is_retryable
  retry_failed_events s now = retry_each s (filter (is_retryable now) s.dead_letter_queue) now

  unfoldable pub clear_dead_letter_queue : System W → System W
  clear_dead_letter_queue s = record s {
    dead_letter_queue = [];
    metrics = record s.metrics { dead_letter_queue_size = 0 };
  }

  unfoldable pub get_metrics : System W → QueueMetrics × System W
  get_metrics s =
      let metrics = record s.metrics { dead_letter_queue_size = length s.dead_letter_queue } in
      (metrics, record s { metrics = metrics })
