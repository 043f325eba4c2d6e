-- ===== src/Queue/Emptying.antt =====
-- What a batch leaves of the cached queries: src/services/QueueEventSystem.ts with
-- src/services/CacheService.ts.
use Prim.Native.String.{String}
use text.Mathlib.TextLemmas.{append_assoc}
use workersql.Base.{
  ℕ, ◌+◌, ◌≤◌, ◌≡◌, refl, inl, inr, ap, sym, ◌∙◌, subst, Bool, true, false, ◌&&◌, List, [], ◌∷◌,
  ◌++◌ as ◌+++◌, Option, none, some, arith, ◌==◌, if◌then◌else◌, includes, includes-append, length,
  string_eq, Bool-cases, Option-cases, beq_refl, beq_cases,
}
use workersql.Kv.{Kv}
use workersql.Text.{
  ◌++◌, starts_with, until, after, has_char, until_absent, until-colon, after-colon,
}
use workersql.Cache.{
  scalar, Held, Listing, create_namespaced_query_key, get_materialized, delete_by_pattern,
}
use workersql.Cache.Invalidation.{
  query_prefix, query_key-starts, until-star, query_prefix-no_star, matching, get-delete_by_pattern,
  get-delete_by_pattern-none, matching-delete_by_pattern, get_materialized-none,
}
use workersql.Queue.Consumer.{
  Event, Delivery, marker_key, add_prefix, prefix_of, add_bases, bases_of, add_body, is_processed,
  collect, invalidate_all, mark, finalize, finalize_all, queue_consumer,
}

-- A name that the keys can hold.
pub record IsName (name : String) : Type 0 where
  pub no_colon : has_char b':' name ≡ false
  pub no_star : has_char b'*' name ≡ false
  pub not_empty : (name == "") ≡ false

add_prefix-keeps :
    (ps : List String) (p q : String) → includes q ps ≡ true → includes q (add_prefix ps p) ≡ true
unfolding add_prefix
add_prefix-keeps ps p q h = ground (arith, h, includes-append q ps (p ∷ []))

includes-add_prefix : (ps : List String) (p : String) → includes p (add_prefix ps p) ≡ true
unfolding add_prefix
includes-add_prefix ps p = ground (arith, includes-append p ps (p ∷ []), beq_refl p)

add_bases-keeps :
    (ps bases : List String) (q : String)
    → includes q ps ≡ true
    → includes q (add_bases ps bases) ≡ true
unfolding add_bases
add_bases-keeps ps [] q h = h
add_bases-keeps ps (base ∷ bases) q h = elim (Option-cases (prefix_of base)) [
  | inl e ↦ rw (e, add_bases) (add_bases-keeps ps bases q h)
  | inr (p, e) ↦
      rw (e, add_bases) (add_bases-keeps (add_prefix ps p) bases q (add_prefix-keeps ps p q h))
]

includes-add_bases :
    (ps bases : List String) (base p : String)
    → includes base bases ≡ true
    → prefix_of base ≡ some p
    → includes p (add_bases ps bases) ≡ true
unfolding add_bases
includes-add_bases ps [] base p h e = absurd (ground (arith, h))
includes-add_bases ps (b ∷ bases) base p h e = elim (beq_cases b base) [
  | inl (same, hit) ↦
      rw (ap prefix_of same ∙ e, add_bases)
        (add_bases-keeps (add_prefix ps p) bases p (includes-add_prefix ps p))
  | inr miss ↦
      includes-add_bases (elim (prefix_of b) [ none ↦ ps | some q ↦ add_prefix ps q ]) bases base p
        (ground (arith, h, miss)) e
]

-- The prefix that a base key of a tenant and a table stands for.
pub prefix_of-base :
    (tenant table : String)
    → has_char b':' tenant ≡ false
    → has_char b':' table ≡ false
    → (tenant == "") ≡ false
    → (table == "") ≡ false
    → prefix_of (tenant ++ (":" ++ table)) ≡ some (query_prefix tenant table)
unfolding prefix_of
prefix_of-base tenant table h k nonempty filled =
    rw (after-colon tenant table h, prefix_of)
      (rw (until-colon tenant table h, until_absent b':' table k, nonempty, filled) refl)

-- A base key of a message that is not known as processed has its prefix among the collected ones.
add_body-keeps :
    (ps : List String) (body : Option Event) (q : String)
    → includes q ps ≡ true
    → includes q (add_body ps body) ≡ true
unfolding add_body
add_body-keeps ps none q h = h
add_body-keeps ps (some event) q h = add_bases-keeps ps (bases_of event) q h

module _ {V : Type 0} (kv : Kv string_eq (Held V)) (listing : Listing kv) where
  open kv use {Store, get-put}

  collect-keeps :
      (s : Store) (ds : List Delivery) (now : ℕ) (ps : List String) (q : String)
      → includes q ps ≡ true
      → includes q (collect kv listing s ds now ps) ≡ true
  unfolding collect
  collect-keeps s [] now ps q h = h
  collect-keeps s (d ∷ ds) now ps q h =
      elim (Bool-cases (d.readable && is_processed kv listing s d.id now)) [
        | inl e ↦ rw (e, collect) (collect-keeps s ds now ps q h)
        | inr e ↦
            rw (e, collect)
              (collect-keeps s ds now (add_body ps d.body) q (add_body-keeps ps d.body q h))
      ]

  includes-collect :
      (s : Store) (before after : List Delivery) (d : Delivery) (event : Event) (now : ℕ)
      (ps : List String) (base p : String)
      → (d.readable && is_processed kv listing s d.id now) ≡ false
      → d.body ≡ some event
      → includes base (bases_of event) ≡ true
      → prefix_of base ≡ some p
      → includes p (collect kv listing s (before +++ (d ∷ after)) now ps) ≡ true
  unfolding collect add_body
  includes-collect s [] after d event now ps base p fresh body member e =
      rw (fresh, collect)
        (collect-keeps s after now (add_body ps d.body) p
          (rw (body, add_body) (includes-add_bases ps (bases_of event) base p member e)))
  includes-collect s (b ∷ before) after d event now ps base p fresh body member e =
      includes-collect s before after d event now
        (if b.readable && is_processed kv listing s b.id now then ps else add_body ps b.body) base p
        fresh body member e

  invalidate_all-none :
      (s : Store) (ps : List String) (j : String)
      → kv.get s j ≡ none
      → kv.get (invalidate_all kv listing s ps) j ≡ none
  unfolding invalidate_all
  invalidate_all-none s [] j h = h
  invalidate_all-none s (p ∷ ps) j h =
      invalidate_all-none (delete_by_pattern kv listing s (p ++ "*")) ps j
        (get-delete_by_pattern-none kv listing s (p ++ "*") j h)

  deleted :
      (s : Store) (p j : String)
      → has_char b'*' p ≡ false
      → length (matching kv listing s p) ≤ 1000
      → starts_with j p ≡ true
      → kv.get (delete_by_pattern kv listing s (p ++ "*")) j ≡ none
  deleted s p j star few begins =
      let end = until-star p star in
      get-delete_by_pattern kv listing s (p ++ "*") j
        (subst (λ x. length (matching kv listing s x) ≤ 1000) (sym end) few)
      ∙ rw (end, begins) refl

  get-invalidate_all :
      (s : Store) (ps : List String) (p j : String)
      → includes p ps ≡ true
      → has_char b'*' p ≡ false
      → length (matching kv listing s p) ≤ 1000
      → starts_with j p ≡ true
      → kv.get (invalidate_all kv listing s ps) j ≡ none
  unfolding invalidate_all
  get-invalidate_all s [] p j h star few begins = absurd (ground (arith, h))
  get-invalidate_all s (q ∷ ps) p j h star few begins = elim (beq_cases q p) [
    | inl (same, hit) ↦ invalidate_all-none (delete_by_pattern kv listing s (q ++ "*")) ps j (
        subst (λ x. kv.get (delete_by_pattern kv listing s (x ++ "*")) j ≡ none) (sym same)
          (deleted s p j star few begins))
    | inr miss ↦
        get-invalidate_all (delete_by_pattern kv listing s (q ++ "*")) ps p j
          (ground (arith, h, miss)) star
          (omega (arith, matching-delete_by_pattern kv listing s (q ++ "*") p, few)) begins
  ]

  marked-other :
      (s : Store) (d : Delivery) (now : ℕ) (j : String)
      → (marker_key d.id == j) ≡ false
      → kv.get (mark kv listing s d.id now) j ≡ kv.get s j
  unfolding mark
  marked-other s d now j h =
      rw (get-put s (marker_key d.id) j (record { stored = scalar; expires_at = now + 600000 }), h)
        refl

  get-finalize :
      (s : Store) (d : Delivery) (already : Bool) (now : ℕ) (j : String)
      → (marker_key d.id == j) ≡ false
      → kv.get (finalize kv listing s d already now).1 j ≡ kv.get s j
  unfolding finalize
  get-finalize s d already now j h = ground (arith, marked-other s d now j h)

  -- The second pass writes markers only.
  get-finalize_all :
      (start s : Store) (ds : List Delivery) (now : ℕ) (j : String)
      → ((id : String) → (marker_key id == j) ≡ false)
      → kv.get (finalize_all kv listing start s ds now).1 j ≡ kv.get s j
  unfolding finalize_all
  get-finalize_all start s [] now j h = refl
  get-finalize_all start s (d ∷ ds) now j h = elim (Bool-cases d.readable) [
    | inl e ↦
        rw (e, finalize_all)
          (get-finalize_all start
              (finalize kv listing s d (is_processed kv listing start d.id now) now).1 ds now j h
            ∙ get-finalize s d (is_processed kv listing start d.id now) now j (h d.id))
    | inr e ↦ rw (e, finalize_all) (get-finalize_all start s ds now j h)
  ]

-- The second part of a query's key is `q`, and that of a marker's is `processed`.
second_part : String → Option String
second_part key = elim (after b':' key) [ none ↦ none | some rest ↦ some (until b':' rest) ]

second_part_lem :
    (a b rest : String)
    → has_char b':' a ≡ false
    → has_char b':' b ≡ false
    → second_part (a ++ (":" ++ (b ++ (":" ++ rest)))) ≡ some b
unfolding second_part
second_part_lem a b rest h k =
    rw (after-colon a (b ++ (":" ++ rest)) h, second_part) (rw (until-colon b rest k) refl)

marker_key-parts : (id : String) → marker_key id ≡ "q" ++ (":" ++ ("processed" ++ (":" ++ id)))
marker_key-parts id = sym (
    rw
      (
        sym (append_assoc "processed" ":" id),
        sym (append_assoc ":" "processed:" id),
        sym (append_assoc "q" ":processed:" id),
      )
      refl)

marker_key-apart :
    {Params : Type 0} (hash : String → String) (stringify : Params → String)
    (tenant table sql id : String) (params : Params)
    → has_char b':' tenant ≡ false
    → (marker_key id == create_namespaced_query_key hash stringify tenant table sql params) ≡ false
unfolding has_char create_namespaced_query_key
marker_key-apart hash stringify tenant table sql id params h =
    elim (beq_cases (marker_key id)
      (create_namespaced_query_key hash stringify tenant table sql params)) [
        | inr e ↦ e
        | inl (same, hit) ↦
            let rest = table ++ (":" ++ hash (sql ++ (":" ++ stringify params))) in
            let parts : some "processed" ≡ some "q" =
              sym (second_part_lem "q" "processed" id refl refl)
              ∙ ap second_part (
                  sym (marker_key-parts id)
                  ∙ same
                  ∙ ap (λ k. tenant ++ (":" ++ k)) (append_assoc "q" ":" rest))
              ∙ second_part_lem tenant "q" rest h refl in
            let names_q : Option String → Bool = λ o. elim o [ none ↦ false | some t ↦ t == "q" ] in
            let no : false ≡ true = ap names_q parts in cc
      ]

-- When a message that asks to invalidate a table of a tenant is in a batch, and is not known as processed
-- or cannot be checked, then after the batch no query of that table is found in the cache of that tenant,
-- whatever statement, parameters and later time. The names hold no colon and no star and are not empty,
-- and at most 1000 keys start with the table's prefix.
pub queue_consumer-invalidates :
    {V Params : Type 0} (kv : Kv string_eq (Held V)) (listing : Listing kv) (s : kv.Store)
    (hash : String → String) (stringify : Params → String) (before after : List Delivery)
    (d : Delivery) (event : Event) (tenant table sql : String) (params : Params) (now later : ℕ)
    → (d.readable && is_processed kv listing s d.id now) ≡ false
    → d.body ≡ some event
    → includes (tenant ++ (":" ++ table)) (bases_of event) ≡ true
    → IsName tenant
    → IsName table
    → length (matching kv listing s (query_prefix tenant table)) ≤ 1000
    → (get_materialized kv hash stringify
        (queue_consumer kv listing s (before +++ (d ∷ after)) now).1
        tenant
        table
        sql
        params
        later).0
      ≡ none
unfolding queue_consumer
queue_consumer-invalidates kv listing s hash stringify before after d event tenant table sql params
      now later fresh body member tenant_name table_name few =
    let key = create_namespaced_query_key hash stringify tenant table sql params in
    let batch = before +++ (d ∷ after) in
    let emptied = invalidate_all kv listing s (collect kv listing s batch now []) in
    get_materialized-none kv hash stringify (finalize_all kv listing s emptied batch now).1 tenant
      table sql params later
      (get-finalize_all kv listing s emptied batch now key
          (λ id. marker_key-apart hash stringify tenant table sql id params tenant_name.no_colon)
        ∙ get-invalidate_all kv listing s (collect kv listing s batch now [])
            (query_prefix tenant table) key
            (includes-collect kv listing s before after d event now [] (tenant ++ (":" ++ table))
              (query_prefix tenant table) fresh body member
              (prefix_of-base tenant table tenant_name.no_colon table_name.no_colon
                tenant_name.not_empty table_name.not_empty))
            (query_prefix-no_star tenant table tenant_name.no_star table_name.no_star) few
            (query_key-starts hash stringify tenant table sql params))
