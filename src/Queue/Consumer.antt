-- ===== src/Queue/Consumer.antt =====
-- `queueConsumer` of src/services/QueueEventSystem.ts. A body is `none` where it is no object, and a field
-- is `none` where it is missing or empty. A delivery says whether the reads and the writes of the markers
-- that belong to its message succeed.
use Prim.Native.String.{String}
use workersql.Base.{
  ℕ, ◌+◌, Bool, false, not, ◌&&◌, ◌||◌, List, [], ◌∷◌, ◌++◌ as ◌+++◌, Option, none, some, ◌==◌,
  if◌then◌else◌, includes, string_eq, is_some,
}
use workersql.Kv.{Kv}
use workersql.Text.{◌++◌, until, after}
use workersql.Cache.{Held, Listing, scalar, read, delete_by_pattern}

pub record Event : Type 0 where
  pub event_type : Option String
  pub shard_id : Option String
  pub timestamp : Option ℕ
  pub keys : Option (List String)

pub record Delivery : Type 0 where
  pub id : String
  pub body : Option Event
  pub readable : Bool
  pub writable : Bool

pub data Outcome : Type 0 where
  acked retried untouched : Outcome

abbrev pub marker_key : String → String
marker_key id = "q:processed:" ++ id

-- `invalidatePrefixes.add(prefix)`
unfoldable pub add_prefix : List String → String → List String
add_prefix prefixes p = if includes p prefixes then prefixes else prefixes +++ (p ∷ [])

-- `${tenant}:q:${table}:` for a base key whose first two parts are not empty.
unfoldable pub prefix_of : String → Option String
prefix_of base = elim (after b':' base) [
  | none ↦ none
  | some rest ↦
      if until b':' base == "" || until b':' rest == ""
      then none
      else some (until b':' base ++ (":q:" ++ (until b':' rest ++ ":")))
]

unfoldable pub add_bases : List String → List String → List String
unfolding add_prefix prefix_of
add_bases prefixes [] = prefixes
add_bases prefixes (base ∷ bases) =
    add_bases (elim (prefix_of base) [ none ↦ prefixes | some p ↦ add_prefix prefixes p ]) bases

abbrev pub is_type : Option String → String → Bool
is_type none name = false
is_type (some t) name = t == name

abbrev pub bases_of : Event → List String
bases_of event =
    if is_type event.event_type "invalidate"
    then (elim event.keys [ none ↦ [] | some keys ↦ keys ])
    else []

unfoldable pub add_body : List String → Option Event → List String
unfolding add_bases
add_body prefixes none = prefixes
add_body prefixes (some event) = add_bases prefixes (bases_of event)

-- A body that is finalized with `ack`: a known type, a shard and a timestamp.
unfoldable pub is_well_formed : Option Event → Bool
is_well_formed none = false
is_well_formed (some event) =
    (is_type event.event_type "invalidate"
      || (is_type event.event_type "prewarm" || is_type event.event_type "d1_sync"))
    && (is_some event.shard_id && is_some event.timestamp)

module _ {V : Type 0} (kv : Kv string_eq (Held V)) (listing : Listing kv) where
  unfoldable pub is_processed : kv.Store → String → ℕ → Bool
  unfolding read
  is_processed s id now = is_some (read kv s (marker_key id) now)

  -- The first pass: the prefixes to invalidate.
  unfoldable pub collect : kv.Store → List Delivery → ℕ → List String → List String
  unfolding is_processed add_body
  collect s [] now prefixes = prefixes
  collect s (d ∷ ds) now prefixes =
      collect s ds now
        (if d.readable && is_processed s d.id now then prefixes else add_body prefixes d.body)

  unfoldable pub invalidate_all : kv.Store → List String → kv.Store
  unfolding delete_by_pattern
  invalidate_all s [] = s
  invalidate_all s (p ∷ ps) = invalidate_all (delete_by_pattern kv listing s (p ++ "*")) ps

  unfoldable pub mark : kv.Store → String → ℕ → kv.Store
  mark s id now = kv.put s (marker_key id) (record { stored = scalar; expires_at = now + 600000 })

  -- The second pass for one message, by whether it was processed before.
  unfoldable pub finalize : kv.Store → Delivery → Bool → ℕ → Outcome × kv.Store
  unfolding mark is_well_formed
  finalize s d already now =
      if not (is_well_formed d.body)
      then (retried, s)
      else if already
      then (acked, s)
      else if d.writable
      then (acked, mark s d.id now)
      else (retried, s)

  -- A message whose marker could not be read takes no part in the second pass.
  unfoldable pub finalize_all :
      kv.Store → kv.Store → List Delivery → ℕ → List (String × Outcome) × kv.Store
  unfolding finalize is_processed
  finalize_all start s [] now = ([], s)
  finalize_all start s (d ∷ ds) now =
      let (outcome, t) =
        if d.readable then finalize s d (is_processed start d.id now) now else (untouched, s) in
      let (outcomes, u) = finalize_all start t ds now in ((d.id, outcome) ∷ outcomes, u)

  unfoldable pub queue_consumer : kv.Store → List Delivery → ℕ → List (String × Outcome) × kv.Store
  unfolding collect invalidate_all finalize_all
  queue_consumer s batch now = finalize_all s (invalidate_all s (collect s batch now [])) batch now
