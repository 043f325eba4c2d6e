-- ===== src/Queue/Retries.antt =====
-- What becomes of messages in the dead letter queue of src/services/QueueEventSystem.ts.
use workersql.Base.{
  ℕ, ◌+◌, ◌≡◌, refl, inl, inr, ap, subst, ◌⊎◌, ◌∙◌, Bool, true, false, not, ◌||◌, List, [], ◌∷◌,
  ◌++◌, String, arith, ◌==◌, if◌then◌else◌, filter, length, length-append, any, string_eq,
  Bool-cases, beq_cases,
}
use workersql.Queue.Consumer.{Event}
use workersql.Queue.System.{
  QueueMessage, System, update_success_metrics, update_failure_metrics, failed_message,
  handle_failed_message, is_delayed, process_message, is_retryable, retry_each, retry_failed_events,
}

abbrev pub has_id : String → QueueMessage → Bool
has_id id m = m.id == id

any-append {ℓ} :
    {A : Type ℓ} (p : A → Bool) (xs ys : List A) → any p (xs ++ ys) ≡ (any p xs || any p ys)
any-append p [] ys = refl
any-append p (x ∷ xs) ys = ground (arith, any-append p xs ys)

any-filter_none {ℓ} :
    {A : Type ℓ} (p q : A → Bool) (xs : List A) → any p xs ≡ false → any p (filter q xs) ≡ false
any-filter_none p q [] h = refl
any-filter_none p q (x ∷ xs) h = ground (arith, any-filter_none p q xs, h)

any-filter_out :
    (id : String) (ms : List QueueMessage)
    → any (has_id id) (filter (λ m. not (m.id == id)) ms) ≡ false
any-filter_out id [] = refl
any-filter_out id (m ∷ ms) = elim (Bool-cases (m.id == id)) [
  | inl e ↦ rw e (any-filter_out id ms)
  | inr e ↦ rw e (rw e (any-filter_out id ms))
]

module _ {W : Type 0} (handle : Event → W → Bool × W) (failed_key : String → String) where
  -- One round of the loop leaves no message with another absent id, and none with its own.
  abbrev round : System W → QueueMessage → ℕ → System W
  round s message now =
      let t =
        process_message handle failed_key s (record message { attempts = message.attempts + 1 })
          now in
      record t { dead_letter_queue = filter (λ m. not (m.id == message.id)) t.dead_letter_queue }

  -- The three things that processing a message can do.
  process_message-cases :
      (s : System W) (message : QueueMessage) (now : ℕ)
      → let t = process_message handle failed_key s message now in
        ((is_delayed message.delay_until now ≡ true) × (t ≡ s))
        ⊎ (((is_delayed message.delay_until now ≡ false)
              × (t.dead_letter_queue ≡ s.dead_letter_queue)
              × (t.metrics.total_processed ≡ s.metrics.total_processed + 1)
              × (t.metrics.total_failed ≡ s.metrics.total_failed))
            ⊎ ((is_delayed message.delay_until now ≡ false)
                × (t.dead_letter_queue
                    ≡ s.dead_letter_queue
                      ++ failed_message s.max_retries s.retry_delay_ms message now ∷ [])
                × (t.metrics.total_processed ≡ s.metrics.total_processed)
                × (t.metrics.total_failed ≡ s.metrics.total_failed + 1)))
  unfolding process_message update_success_metrics update_failure_metrics handle_failed_message
  process_message-cases s message now = elim (Bool-cases (is_delayed message.delay_until now)) [
    | inl e ↦ inl (e, rw (e, process_message) refl)
    | inr e ↦ elim (Bool-cases (handle message.body s.world).0) [
      | inl done ↦ inr (
          inl (
            e,
            rw (e, done, process_message) refl,
            rw (e, done, process_message) refl,
            rw (e, done, process_message) refl,
          ))
      | inr fails ↦ inr (
          inr (
            e,
            rw (e, fails, process_message) refl,
            rw (e, fails, process_message) refl,
            rw (e, fails, process_message) refl,
          ))
    ]
  ]

  failed_message-id :
      (max delay : ℕ) (message : QueueMessage) (now : ℕ)
      → (failed_message max delay message now).id ≡ message.id
  unfolding failed_message
  failed_message-id max delay message now = ground arith

  process_message-queue :
      (s : System W) (message : QueueMessage) (now : ℕ) (id : String)
      → (message.id == id) ≡ false
      → any (has_id id) s.dead_letter_queue ≡ false
      → any (has_id id) (process_message handle failed_key s message now).dead_letter_queue ≡ false
  process_message-queue s message now id apart h = elim (process_message-cases s message now) [
    | inl (e, same) ↦ ap (λ t. any (has_id id) t.dead_letter_queue) same ∙ h
    | inr (inl (e, same, p, q)) ↦ ap (any (has_id id)) same ∙ h
    | inr (inr (e, longer, p, q)) ↦
        ap (any (has_id id)) longer
        ∙ any-append (has_id id) s.dead_letter_queue
            (failed_message s.max_retries s.retry_delay_ms message now ∷ [])
        ∙ rw (h, failed_message-id s.max_retries s.retry_delay_ms message now, apart) refl
  ]

  round-absent :
      (s : System W) (message : QueueMessage) (now : ℕ) (id : String)
      → any (has_id id) s.dead_letter_queue ≡ false
      → any (has_id id) (round s message now).dead_letter_queue ≡ false
  round-absent s message now id h = elim (beq_cases message.id id) [
    | inl (same, hit) ↦
        subst (λ i. any (has_id i) (round s message now).dead_letter_queue ≡ false) same
          (any-filter_out message.id
            (process_message handle failed_key s
              (record message { attempts = message.attempts + 1 }) now).dead_letter_queue)
    | inr apart ↦
        any-filter_none (has_id id) (λ m. not (m.id == message.id))
          (process_message handle failed_key s (record message { attempts = message.attempts + 1 })
            now).dead_letter_queue
          (process_message-queue s (record message { attempts = message.attempts + 1 }) now id apart
            h)
  ]

  retry_each-absent :
      (s : System W) (messages : List QueueMessage) (now : ℕ) (id : String)
      → any (has_id id) s.dead_letter_queue ≡ false
      → any (has_id id) (retry_each handle failed_key s messages now).dead_letter_queue ≡ false
  unfolding retry_each
  retry_each-absent s [] now id h = h
  retry_each-absent s (m ∷ ms) now id h =
      retry_each-absent (round s m now) ms now id (round-absent s m now id h)

  retry_each-taken :
      (s : System W) (messages : List QueueMessage) (now : ℕ) (id : String)
      → any (has_id id) messages ≡ true
      → any (has_id id) (retry_each handle failed_key s messages now).dead_letter_queue ≡ false
  unfolding retry_each
  retry_each-taken s [] now id h = absurd (ground (arith, h))
  retry_each-taken s (m ∷ ms) now id h = elim (beq_cases m.id id) [
    | inl (same, hit) ↦ retry_each-absent (round s m now) ms now id (
        subst (λ i. any (has_id i) (round s m now).dead_letter_queue ≡ false) same
          (any-filter_out m.id
            (process_message handle failed_key s (record m { attempts = m.attempts + 1 })
              now).dead_letter_queue))
    | inr miss ↦ retry_each-taken (round s m now) ms now id (ground (arith, h, miss))
  ]

  -- A message that is due for a retry is gone from the dead letter queue after the retries, whether or
  -- not its handlers fail again: a failed retry forgets the event.
  pub retry_failed_events-forgets :
      (s : System W) (now : ℕ) (id : String)
      → any (has_id id) (filter (is_retryable handle failed_key now) s.dead_letter_queue) ≡ true
      → any (has_id id) (retry_failed_events handle failed_key s now).dead_letter_queue ≡ false
  unfolding retry_failed_events
  retry_failed_events-forgets s now id due =
      retry_each-taken s (filter (is_retryable handle failed_key now) s.dead_letter_queue) now id
        due

  unfoldable pub process_all : System W → List (QueueMessage × ℕ) → System W
  process_all s [] = s
  process_all s ((message, now) ∷ rest) =
      process_all (process_message handle failed_key s message now) rest

  -- How many messages of a list are not delayed when they are processed.
  abbrev pub due : List (QueueMessage × ℕ) → ℕ
  due [] = 0
  due ((message, now) ∷ rest) = (if is_delayed message.delay_until now then 0 else 1) + due rest

  process_message-counts :
      (s : System W) (message : QueueMessage) (now : ℕ)
      → let t = process_message handle failed_key s message now in
        (t.metrics.total_processed + t.metrics.total_failed
          ≡ s.metrics.total_processed
            + s.metrics.total_failed
            + (if is_delayed message.delay_until now then 0 else 1))
        × (length t.dead_letter_queue + s.metrics.total_failed
            ≡ length s.dead_letter_queue + t.metrics.total_failed)
  process_message-counts s message now = elim (process_message-cases s message now) [
    | inl (e, same) ↦ rw (e, same) (omega arith, refl)
    | inr (inl (e, queue, p, q)) ↦ rw (e, p, q, queue) (omega arith, refl)
    | inr (inr (e, queue, p, q)) ↦
        rw (e, p, q, queue)
          (
            omega arith,
            omega (
              arith,
              length-append s.dead_letter_queue
                  (failed_message s.max_retries s.retry_delay_ms message now ∷ []),
            ),
          )
  ]

  -- Whatever the handlers do, each message that is not delayed counts as processed or as failed, once,
  -- and each failure adds one message to the dead letter queue.
  pub process_all-counts :
      (s : System W) (messages : List (QueueMessage × ℕ))
      → ((process_all s messages).metrics.total_processed
            + (process_all s messages).metrics.total_failed
          ≡ s.metrics.total_processed + s.metrics.total_failed + due messages)
        × (length (process_all s messages).dead_letter_queue + s.metrics.total_failed
            ≡ length s.dead_letter_queue + (process_all s messages).metrics.total_failed)
  unfolding process_all
  process_all-counts s [] = (omega arith, omega arith)
  process_all-counts s ((message, now) ∷ rest) = omega (
    arith,
    process_message-counts s message now,
    process_all-counts (process_message handle failed_key s message now) rest,
  )
