-- ===== src/Cache/Phases.antt =====
-- What `get` of src/services/CacheService.ts finds after `set`, as time goes on.
use workersql.Base.{
  ℕ, ◌+◌, ◌≤◌, ◌≡◌, refl, inl, inr, false, not, ◌&&◌, Option, none, some, String, arith, ◌==◌,
  if◌then◌else◌, ltb, string_eq, Bool-cases, beq_refl,
}
use workersql.Kv.{Kv}
use workersql.Cache
use workersql.Cache.{
  Entry, Stored, entry, quoted, other_object, scalar, Held, SetOptions, ttl_of, swr_of, new_entry,
  kv_expiration_ms, is_fresh, is_stale_but_revalidatable, is_expired, read, unless_expired,
}

-- What a read value is worth at a time.
unfoldable pub found : {V : Type 0} → Option (Stored V) → ℕ → Option (Entry V)
unfolding is_expired
found none now = none
found (some (entry e)) now = if is_expired e now then none else some e
found (some (quoted (some e))) now = if is_expired e now then none else some e
found (some (quoted none)) now = none
found (some other_object) now = none
found (some scalar) now = none

module _ {V : Type 0} (kv : Kv string_eq (Held V)) where
  open kv use {Store, get-put, get-delete}

  read-set :
      (s : Store) (key other : String) (contents : V) (options : SetOptions) (now later : ℕ)
      → read kv (Cache.set kv s key contents options now) other later ≡ (
          if key == other
          then (if ltb later (now + kv_expiration_ms (swr_of options))
              then some (entry (new_entry contents options now))
              else none)
          else read kv s other later)
  unfolding Cache.set read
  read-set s key other contents options now later = elim (Bool-cases (key == other)) [
    | inl e ↦ rw (get-put s key other, e, read) refl
    | inr e ↦ rw (get-put s key other, e, read) refl
  ]

  unless_expired_lem :
      (s : Store) (key : String) (now : ℕ) (e : Entry V)
      → (unless_expired kv s key now e).0 ≡ (if is_expired e now then none else some e)
  unfolding unless_expired is_expired
  unless_expired_lem s key now e = ground arith

  found_as :
      (s : Store) (key : String) (now : ℕ) (o : Option (Stored V))
      → read kv s key now ≡ o
      → (Cache.get kv s key now).0 ≡ found o now
  unfolding Cache.get found
  found_as s key now none h = rw (h, Cache.get) refl
  found_as s key now (some (entry e)) h = rw (h, Cache.get) (unless_expired_lem s key now e)
  found_as s key now (some (quoted (some e))) h = rw (h, Cache.get) (unless_expired_lem s key now e)
  found_as s key now (some (quoted none)) h = rw (h, Cache.get) refl
  found_as s key now (some other_object) h = rw (h, Cache.get) refl
  found_as s key now (some scalar) h = rw (h, Cache.get) refl

  pub get-found :
      (s : Store) (key : String) (now : ℕ)
      → (Cache.get kv s key now).0 ≡ found (read kv s key now) now
  get-found s key now = found_as s key now (read kv s key now) refl

  -- An entry that was set is found, as it was set, until its `swrMs` is over, and is found no more
  -- afterwards, whatever the key held before: the namespace's own expiry comes too late to matter. While
  -- it is found it is fresh before `ttlMs` is over and stale but usable from then on; and the entry of
  -- another key is read as before.
  pub get-set :
      (s : Store) (key other : String) (contents : V) (options : SetOptions) (now later : ℕ)
      → now ≤ later
      → (key == other) ≡ false
      → ((Cache.get kv (Cache.set kv s key contents options now) key later).0 ≡ (
          if ltb later (now + swr_of options) then some (new_entry contents options now) else none))
        × (is_fresh (new_entry contents options now) later ≡ ltb later (now + ttl_of options))
        × (is_stale_but_revalidatable (new_entry contents options now) later ≡ (
            not (is_fresh (new_entry contents options now) later)
            && ltb later (now + swr_of options)))
        × ((Cache.get kv (Cache.set kv s key contents options now) other later).0
            ≡ (Cache.get kv s other later).0)
  unfolding new_entry is_fresh is_stale_but_revalidatable is_expired found
  get-set s key other contents options now later after apart = (
    rw
        (
          get-found (Cache.set kv s key contents options now) key later,
          read-set s key key contents options now later,
          beq_refl key,
        )
        (ground arith),
    ground arith,
    ground arith,
    rw
        (
          get-found (Cache.set kv s key contents options now) other later,
          read-set s key other contents options now later,
          apart,
          get-found s other later,
        )
        refl,
  )
