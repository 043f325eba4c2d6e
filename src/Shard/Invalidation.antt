-- ===== src/Shard/Invalidation.antt =====
-- From a batch of mutations of src/services/TableShard.ts to the cache: the events that it sends, consumed by
-- `queueConsumer` of src/services/QueueEventSystem.ts, take the cached queries of its tables out.
use workersql.Base.{
  ℕ, ◌-◌, ◌≤◌, ◌≡◌, refl, ap, ◌∙◌, sym, inl, inr, Bool, true, false, ◌&&◌, ◌||◌, List, [], ◌∷◌,
  ◌++◌, none, some, String, arith, ◌==◌, if◌then◌else◌, ltb, includes, includes-append, length,
  string_eq, Bool-cases, Option-cases, beq_cases, beq_refl,
}
use mathlib.Core.List.{append_assoc, append-nil}
use workersql.Kv.{Kv}
use workersql.Text.{◌++◌ as ◌+++◌}
use workersql.Cache.{Held, Listing, get_materialized}
use workersql.Cache.Invalidation.{query_prefix, matching}
use workersql.Queue.Consumer.{Event, Delivery, is_processed, queue_consumer}
use workersql.Queue.Emptying.{IsName, queue_consumer-invalidates}
use workersql.Shard.Service.{
  Operation, Engine, mutation, rows_affected, Shard, refresh_capacity, refresh_capacity_if_due,
  is_full, record_change_event, record_each, exec_batch, invalidation_event,
  emit_invalidation_event, emit_each, touched_tables, handle_mutation_batch,
}

module _ (engine : Engine) (shard_id : String) (gb : ℕ) where
  open engine use {Params, extract_table_name}

  events_of : String → List String → ℕ → List Event
  events_of tenant [] now = []
  events_of tenant (t ∷ ts) now =
      invalidation_event engine shard_id gb tenant t now ∷ events_of tenant ts now

  sent-emit_each :
      (s : Shard engine) (tenant : String) (ts : List String) (now : ℕ)
      → (emit_each engine shard_id gb true s tenant ts now).sent ≡ s.sent ++ events_of tenant ts now
  unfolding emit_each emit_invalidation_event events_of
  sent-emit_each s tenant [] now = sym (append-nil s.sent)
  sent-emit_each s tenant (t ∷ ts) now =
      sent-emit_each (emit_invalidation_event engine shard_id gb true s tenant t now) tenant ts now
      ∙ append_assoc s.sent (invalidation_event engine shard_id gb tenant t now ∷ [])
          (events_of tenant ts now)

  sent-record_each :
      (s : Shard engine) (tenant : String) (ops : List (Operation Params)) (now : ℕ)
      → (record_each engine shard_id gb s tenant ops now).sent ≡ s.sent
  unfolding record_each record_change_event
  sent-record_each s tenant [] now = refl
  sent-record_each s tenant (op ∷ ops) now =
      sent-record_each (record_change_event engine shard_id gb s mutation tenant op now) tenant ops
        now

  sent-refresh :
      (s : Shard engine) (now : ℕ)
      → (refresh_capacity_if_due engine shard_id gb s now).sent ≡ s.sent
  unfolding refresh_capacity_if_due refresh_capacity
  sent-refresh s now = elim (Bool-cases (ltb 60000 (now - s.last_size_check))) [
    | inr e ↦ rw e refl
    | inl e ↦ rw e (elim (Option-cases (engine.size s.db)) [
      | inl f ↦ rw (f, refresh_capacity) refl
      | inr (bytes, f) ↦ rw (f, refresh_capacity) refl
    ])
  ]

  abbrev with_table : List String → Operation Params → List String
  with_table tables op =
      if extract_table_name op.sql == "" || includes (extract_table_name op.sql) tables
      then tables
      else tables ++ extract_table_name op.sql ∷ []

  table_kept :
      (x : String) (tables : List String) (op : Operation Params)
      → includes x tables ≡ true
      → includes x (with_table tables op) ≡ true
  table_kept x tables op h =
      elim (Bool-cases
        (extract_table_name op.sql == "" || includes (extract_table_name op.sql) tables)) [
          | inl e ↦ rw e h
          | inr e ↦
              rw e
                (rw (includes-append x tables (extract_table_name op.sql ∷ [])) (ground (arith, h)))
        ]

  touched_kept :
      (ops : List (Operation Params)) (x : String) (tables : List String)
      → includes x tables ≡ true
      → includes x (touched_tables engine shard_id gb tables ops) ≡ true
  unfolding touched_tables
  touched_kept [] x tables h = h
  touched_kept (op ∷ ops) x tables h =
      touched_kept ops x (with_table tables op) (table_kept x tables op h)

  table_added :
      (tables : List String) (op : Operation Params)
      → (extract_table_name op.sql == "") ≡ false
      → includes (extract_table_name op.sql) (with_table tables op) ≡ true
  table_added tables op named = elim (Bool-cases (includes (extract_table_name op.sql) tables)) [
    | inl e ↦ rw (named, e) e
    | inr e ↦
        rw (named, e)
          (includes-append (extract_table_name op.sql) tables (extract_table_name op.sql ∷ [])
            ∙ rw (e, beq_refl (extract_table_name op.sql)) refl)
  ]

  -- The table of each statement is touched.
  touched :
      (before after : List (Operation Params)) (op : Operation Params) (tables : List String)
      → (extract_table_name op.sql == "") ≡ false
      → includes
          (extract_table_name op.sql)
          (touched_tables engine shard_id gb tables (before ++ op ∷ after))
        ≡ true
  unfolding touched_tables
  touched [] after op tables named =
      touched_kept after (extract_table_name op.sql) (with_table tables op)
        (table_added tables op named)
  touched (o ∷ before) after op tables named = touched before after op (with_table tables o) named

  -- The event is one of the list.
  abbrev pub IsAmong : Event → List Event → Type 0
  IsAmong event events =
      (before : List Event) × (after : List Event) × (events ≡ before ++ event ∷ after)

  events_of-IsAmong :
      (tenant table : String) (ts : List String) (now : ℕ)
      → includes table ts ≡ true
      → IsAmong (invalidation_event engine shard_id gb tenant table now) (events_of tenant ts now)
  unfolding events_of
  events_of-IsAmong tenant table [] now h = absurd (ground (arith, h))
  events_of-IsAmong tenant table (t ∷ ts) now h = elim (beq_cases t table) [
    | inl (same, _) ↦ (
      [],
      events_of tenant ts now,
      ap (λ k. invalidation_event engine shard_id gb tenant k now ∷ events_of tenant ts now) same,
    )
    | inr miss ↦
        let (before, after, e) = events_of-IsAmong tenant table ts now (ground (arith, h, miss)) in
        (
          invalidation_event engine shard_id gb tenant t now ∷ before,
          after,
          ap (λ l. invalidation_event engine shard_id gb tenant t now ∷ l) e,
        )
  ]

  append-IsAmong :
      (sent events : List Event) (event : Event)
      → IsAmong event events
      → IsAmong event (sent ++ events)
  append-IsAmong sent events event (before, after, e) = (
    sent ++ before,
    after,
    ap (λ l. sent ++ l) e ∙ sym (append_assoc sent before (event ∷ after)),
  )

  -- A batch that succeeds sends the events of its tables after those that were sent before.
  sent-batch :
      (s : Shard engine) (tenant : String) (o : Operation Params) (ops : List (Operation Params))
      (now n : ℕ)
      → (handle_mutation_batch engine shard_id gb true s tenant (o ∷ ops) now).0 ≡ rows_affected n
      → (handle_mutation_batch engine shard_id gb true s tenant (o ∷ ops) now).1.sent
        ≡ s.sent ++ events_of tenant (touched_tables engine shard_id gb [] (o ∷ ops)) now
  unfolding handle_mutation_batch
  sent-batch s tenant o ops now n e =
      elim (Bool-cases
        (is_full engine shard_id gb (refresh_capacity_if_due engine shard_id gb s now))) [
          | inl f ↦ absurd (ground (arith, f, e))
          | inr f ↦
              elim (Option-cases
                (exec_batch engine shard_id gb (refresh_capacity_if_due engine shard_id gb s now).db
                  (o ∷ ops)).0) [
                    | inl g ↦ absurd (ground (arith, f, g, e))
                    | inr (total, g) ↦
                        rw (f, g)
                          (sent-refresh _ now
                            ∙ (sent-record_each _ tenant (o ∷ ops) now
                                ∙ (sent-emit_each _ tenant _ now
                                    ∙ ap
                                        (λ l.
                                          l
                                          ++ events_of tenant
                                              (touched_tables engine shard_id gb [] (o ∷ ops)) now)
                                        (sent-refresh s now))))
                  ]
        ]

  sent_for :
      (s : Shard engine) (tenant : String) (before after : List (Operation Params))
      (op : Operation Params) (now n : ℕ)
      → (extract_table_name op.sql == "") ≡ false
      → (handle_mutation_batch engine shard_id gb true s tenant (before ++ op ∷ after) now).0
        ≡ rows_affected n
      → IsAmong
          (invalidation_event engine shard_id gb tenant (extract_table_name op.sql) now)
          (handle_mutation_batch engine shard_id gb true s tenant (before ++ op ∷ after) now).1.sent
  sent_for s tenant [] after op now n named e = rw (sent-batch s tenant op after now n e) (
      append-IsAmong s.sent _ _
        (events_of-IsAmong tenant (extract_table_name op.sql) _ now (touched [] after op [] named)))
  sent_for s tenant (o ∷ before) after op now n named e =
      rw (sent-batch s tenant o (before ++ op ∷ after) now n e) (
        append-IsAmong s.sent _ _ (
          events_of-IsAmong tenant (extract_table_name op.sql) _ now
            (touched (o ∷ before) after op [] named)))

  -- Each statement of a batch that succeeds, while the queue takes events, has an event among those that the shard has
  -- sent, and when the consumer gets that event, in whatever batch and in a message that is not known as processed,
  -- no query of the statement's table is found in the cache of the tenant afterwards, where the names hold no colon
  -- and no star and are not empty, and at most 1000 keys start with the table's prefix.
  pub batch-invalidates :
      {V CacheParams : Type 0} (kv : Kv string_eq (Held V)) (listing : Listing kv)
      (cache : kv.Store) (hash : String → String) (stringify : CacheParams → String)
      (s : Shard engine) (tenant : String) (before after : List (Operation Params))
      (op : Operation Params) (now n : ℕ) (earlier later : List Delivery) (id sql : String)
      (readable writable : Bool) (params : CacheParams) (consumed read_at : ℕ)
      → (handle_mutation_batch engine shard_id gb true s tenant (before ++ op ∷ after) now).0
        ≡ rows_affected n
      → (readable && is_processed kv listing cache id consumed) ≡ false
      → IsName tenant
      → IsName (extract_table_name op.sql)
      → length (matching kv listing cache (query_prefix tenant (extract_table_name op.sql))) ≤ 1000
      → IsAmong
          (invalidation_event engine shard_id gb tenant (extract_table_name op.sql) now)
          (handle_mutation_batch engine shard_id gb true s tenant (before ++ op ∷ after) now).1.sent
        × ((get_materialized kv hash stringify
              (queue_consumer kv listing cache
                (earlier
                  ++ (record {
                    id = id;
                    body = some (
                        invalidation_event engine shard_id gb tenant
                          (extract_table_name op.sql)
                          now);
                    readable = readable;
                    writable = writable;
                  }
                      ∷ later))
                consumed).1
              tenant
              (extract_table_name op.sql)
              sql
              params
              read_at).0
            ≡ none)
  batch-invalidates kv listing cache hash stringify s tenant before after op now n earlier later id
        sql readable writable params consumed read_at e fresh tenant_name table_name few =
      (
        sent_for s tenant before after op now n table_name.not_empty e,
        queue_consumer-invalidates kv listing cache hash stringify earlier later _
            (invalidation_event engine shard_id gb tenant (extract_table_name op.sql) now) tenant
            (extract_table_name op.sql) sql params consumed read_at fresh refl
            (ground (arith, beq_refl (tenant +++ (":" +++ extract_table_name op.sql)))) tenant_name
            table_name few,
      )
