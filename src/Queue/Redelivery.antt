-- ===== src/Queue/Redelivery.antt =====
-- A message that is delivered twice: src/services/QueueEventSystem.ts.
use Prim.Native.String.{String}
use workersql.Base.{
  ℕ, ◌+◌, ◌<◌, ◌≡◌, refl, inl, inr, ◌∙◌, Bool, true, false, List, [], ◌∷◌, ◌++◌ as ◌+++◌, some,
  arith, ◌==◌, if◌then◌else◌, string_eq, Bool-cases, beq_refl,
}
use workersql.Kv.{Kv}
use workersql.Cache.{Held, Listing, scalar, read}
use workersql.Queue.Consumer.{
  Delivery, acked, marker_key, is_well_formed, is_processed, collect, invalidate_all, mark,
  finalize, finalize_all, queue_consumer,
}

abbrev marker : {V : Type 0} → ℕ → Held V
marker now = record { stored = scalar; expires_at = now + 600000 }

either {ℓ} : {A : Type ℓ} (b : Bool) (x y : A) → y ≡ x → (if b then x else y) ≡ x
either true x y h = refl
either false x y h = h

module _ {V : Type 0} (kv : Kv string_eq (Held V)) (listing : Listing kv) where
  open kv use {Store, get-put}

  mark-keeps :
      (s : Store) (id j : String) (now : ℕ)
      → kv.get s j ≡ some (marker now)
      → kv.get (mark kv listing s id now) j ≡ some (marker now)
  unfolding mark
  mark-keeps s id j now h =
      get-put s (marker_key id) j (marker now)
      ∙ either (marker_key id == j) (some (marker now)) (kv.get s j) h

  finalize-keeps :
      (s : Store) (d : Delivery) (already : Bool) (j : String) (now : ℕ)
      → kv.get s j ≡ some (marker now)
      → kv.get (finalize kv listing s d already now).1 j ≡ some (marker now)
  unfolding finalize
  finalize-keeps s d already j now h = ground (arith, mark-keeps s d.id j now h, h)

  -- A marker that is written stays to the end of the pass.
  finalize_all-keeps :
      (start s : Store) (ds : List Delivery) (j : String) (now : ℕ)
      → kv.get s j ≡ some (marker now)
      → kv.get (finalize_all kv listing start s ds now).1 j ≡ some (marker now)
  unfolding finalize_all
  finalize_all-keeps start s [] j now h = h
  finalize_all-keeps start s (d ∷ ds) j now h = elim (Bool-cases d.readable) [
    | inl e ↦
        rw (e, finalize_all)
          (finalize_all-keeps start
            (finalize kv listing s d (is_processed kv listing start d.id now) now).1 ds j now
            (finalize-keeps s d (is_processed kv listing start d.id now) j now h))
    | inr e ↦ rw (e, finalize_all) (finalize_all-keeps start s ds j now h)
  ]

  marked :
      (s : Store) (id : String) (now : ℕ)
      → kv.get (mark kv listing s id now) (marker_key id) ≡ some (marker now)
  unfolding mark
  marked s id now =
      rw (get-put s (marker_key id) (marker_key id) (marker now), beq_refl (marker_key id)) refl

  seen-marker :
      (t : Store) (id : String) (now later : ℕ)
      → kv.get t (marker_key id) ≡ some (marker now)
      → later < now + 600000
      → is_processed kv listing t id later ≡ true
  unfolding is_processed
  seen-marker t id now later h soon = rw (h, read) (ground (arith, soon))

  acknowledged :
      (t : Store) (d : Delivery) (later : ℕ)
      → is_processed kv listing t d.id later ≡ true
      → d.readable ≡ true
      → is_well_formed d.body ≡ true
      → queue_consumer kv listing t (d ∷ []) later ≡ ((d.id, acked) ∷ [], t)
  unfolding queue_consumer collect invalidate_all finalize_all finalize
  acknowledged t d later seen readable formed = rw (readable, seen) (rw (formed, finalize) refl)

  -- What the first delivery of a message needs to be marked.
  pub record IsMarked (s : Store) (d : Delivery) (now : ℕ) : Type 0 where
    pub readable : d.readable ≡ true
    pub writable : d.writable ≡ true
    pub well_formed : is_well_formed d.body ≡ true
    pub unseen : is_processed kv listing s d.id now ≡ false

  marks :
      (start s : Store) (before after : List Delivery) (d : Delivery) (now : ℕ)
      → IsMarked start d now
      → kv.get (finalize_all kv listing start s (before +++ (d ∷ after)) now).1 (marker_key d.id)
        ≡ some (marker now)
  unfolding finalize_all finalize
  marks start s [] after d now m =
      rw (m.readable, finalize_all)
        (finalize_all-keeps start
          (finalize kv listing s d (is_processed kv listing start d.id now) now).1 after
          (marker_key d.id) now
          (rw (m.unseen, finalize) (rw (m.well_formed) (rw (m.writable) (marked s d.id now)))))
  marks start s (b ∷ before) after d now m = elim (Bool-cases b.readable) [
    | inl e ↦
        rw (e, finalize_all)
          (marks start (finalize kv listing s b (is_processed kv listing start b.id now) now).1
            before after d now m)
    | inr e ↦ rw (e, finalize_all) (marks start s before after d now m)
  ]

  -- A message that was processed in a batch, and comes again within ten minutes, is acknowledged and
  -- changes nothing.
  pub queue_consumer_redelivered :
      (s : Store) (before after : List Delivery) (d : Delivery) (now later : ℕ)
      → IsMarked s d now
      → later < now + 600000
      → queue_consumer kv listing
          (queue_consumer kv listing s (before +++ (d ∷ after)) now).1
          (d ∷ [])
          later
        ≡ ((d.id, acked) ∷ [], (queue_consumer kv listing s (before +++ (d ∷ after)) now).1)
  unfolding queue_consumer
  queue_consumer_redelivered s before after d now later m soon =
      acknowledged (queue_consumer kv listing s (before +++ (d ∷ after)) now).1 d later
        (seen-marker (queue_consumer kv listing s (before +++ (d ∷ after)) now).1 d.id now later
          (marks s
            (invalidate_all kv listing s (collect kv listing s (before +++ (d ∷ after)) now []))
            before after d now m)
          soon)
        m.readable m.well_formed
