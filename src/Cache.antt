-- ===== src/Cache.antt =====
-- src/services/CacheService.ts, with `CacheEntry` of src/types/index.ts: entries that are fresh, stale but
-- usable, or expired. Both forms of `set` fill in the record `SetOptions`. The KV namespace drops a value
-- by itself when its `expirationTtl` is over; a call of it that throws is caught and left out here.
-- `stringify` and `hash` stand for `JSON.stringify` of parameters and for `hashString`.
pub mod Phases
pub mod Invalidation
pub mod Tests
use workersql.Base.{
  ◌==◌, ℕ, zero, suc, ◌+◌, ◌*◌, ◌/◌, ◌≡◌, refl, Bool, true, false, not, ◌&&◌, List, [], ◌∷◌, Option,
  none, some, String, map, if◌then◌else◌, ltb, leb, filter, includes, string_eq, is_some,
}
use workersql.Kv.{Kv}
use workersql.Text.{◌++◌, starts_with, until}

pub record Entry (V : Type 0) : Type 0 where
  pub contents : V
  pub version : ℕ
  pub fresh_until : ℕ
  pub swr_until : ℕ
  pub shard_id : String

-- What a value in the namespace reads as: an entry, a JSON text that holds one or does not, another
-- object, or something that is neither an object nor a text.
pub data Stored (V : Type 0) : Type 0 where
  entry : Entry V → Stored V
  quoted : Option (Entry V) → Stored V
  other_object : Stored V
  scalar : Stored V

pub record Held (V : Type 0) : Type 0 where
  pub stored : Stored V
  pub expires_at : ℕ

-- `list` of the namespace: the names of its values, at most 1000 of them at a time.
pub record Listing {V : Type 0} (kv : Kv string_eq V) : Type 0 where
  pub names : kv.Store → List String
  pub names-get : (s : kv.Store) (k : String) → includes k (names s) ≡ is_some (kv.get s k)
  pub names-delete :
      (s : kv.Store) (k : String) → names (kv.delete s k) ≡ filter (λ n. not (n == k)) (names s)

unfoldable pub take {ℓ} : {A : Type ℓ} → ℕ → List A → List A
take zero xs = []
take (suc n) [] = []
take (suc n) (x ∷ xs) = x ∷ take n xs

pub record SetOptions : Type 0 where
  pub ttl_ms : Option ℕ
  pub swr_ms : Option ℕ
  pub version : Option ℕ
  pub shard_id : Option String

abbrev pub or_default {ℓ} : {A : Type ℓ} → Option A → A → A
or_default none other = other
or_default (some a) other = a

abbrev pub ttl_of : SetOptions → ℕ
ttl_of options = or_default options.ttl_ms 60000

abbrev pub swr_of : SetOptions → ℕ
swr_of options = or_default options.swr_ms 300000

unfoldable pub new_entry : {V : Type 0} → V → SetOptions → ℕ → Entry V
new_entry contents options now = record {
  contents = contents;
  version = or_default options.version now;
  fresh_until = now + ttl_of options;
  swr_until = now + swr_of options;
  shard_id = or_default options.shard_id "unknown";
}

-- `Math.ceil((swr + 60000) / 1000)` seconds.
abbrev pub kv_expiration_ms : ℕ → ℕ
kv_expiration_ms swr = (swr + 60000 + 999) / 1000 * 1000

unfoldable pub is_fresh : {V : Type 0} → Entry V → ℕ → Bool
is_fresh e now = ltb now e.fresh_until

unfoldable pub is_stale_but_revalidatable : {V : Type 0} → Entry V → ℕ → Bool
is_stale_but_revalidatable e now = leb e.fresh_until now && ltb now e.swr_until

unfoldable pub is_expired : {V : Type 0} → Entry V → ℕ → Bool
is_expired e now = leb e.swr_until now

unfoldable pub create_query_key :
    {Params : Type 0} → (String → String) → (Params → String) → String → String → Params → String
create_query_key hash stringify table sql params =
    "q:" ++ (table ++ (":" ++ hash (sql ++ (":" ++ stringify params))))

unfoldable pub create_namespaced_query_key :
    {Params : Type 0}
    → (String → String)
    → (Params → String)
    → String
    → String
    → String
    → Params
    → String
unfolding create_query_key
create_namespaced_query_key hash stringify tenant_id table sql params =
    tenant_id ++ (":" ++ create_query_key hash stringify table sql params)

module _ {V : Type 0} (kv : Kv string_eq (Held V)) where
  -- What the namespace reads at a time.
  unfoldable pub read : kv.Store → String → ℕ → Option (Stored V)
  read s key now = elim (kv.get s key) [
    | none ↦ none
    | some held ↦ if ltb now held.expires_at then some held.stored else none
  ]

  -- The last test of `get`: an expired entry is deleted.
  unfoldable pub unless_expired : kv.Store → String → ℕ → Entry V → Option (Entry V) × kv.Store
  unfolding is_expired
  unless_expired s key now e = if is_expired e now then (none, kv.delete s key) else (some e, s)

  unfoldable pub get : kv.Store → String → ℕ → Option (Entry V) × kv.Store
  unfolding read unless_expired is_expired
  get s key now = elim (read s key now) [
    | none ↦ (none, s)
    | some (entry e) ↦ unless_expired s key now e
    | some (quoted (some e)) ↦ unless_expired s key now e
    | some (quoted none) ↦ (none, kv.delete s key)
    | some other_object ↦ (none, kv.delete s key)
    | some scalar ↦ (none, s)
  ]

  unfoldable pub set : kv.Store → String → V → SetOptions → ℕ → kv.Store
  unfolding new_entry
  set s key contents options now = kv.put s key (record {
    stored = entry (new_entry contents options now);
    expires_at = now + kv_expiration_ms (swr_of options);
  })

  unfoldable pub delete_many : kv.Store → List String → kv.Store
  delete_many s [] = s
  delete_many s (key ∷ keys) = delete_many (kv.delete s key) keys

  unfoldable pub warm_cache : kv.Store → List (String × V × SetOptions) → ℕ → kv.Store
  unfolding set
  warm_cache s [] now = s
  warm_cache s ((key, contents, options) ∷ entries) now =
      warm_cache (set s key contents options now) entries now

  module _ (listing : Listing kv) where
    -- The names that `list({ prefix })` gives, filtered once more by the prefix.
    unfoldable pub listed : kv.Store → String → List String
    unfolding take
    listed s prefix =
        filter (λ n. starts_with n prefix)
          (take 1000 (filter (λ n. starts_with n prefix) (listing.names s)))

    -- `*` ends the prefix.
    unfoldable pub delete_by_pattern : kv.Store → String → kv.Store
    unfolding listed delete_many until
    delete_by_pattern s pattern = delete_many s (listed s (until b'*' pattern))

  module _ {Params : Type 0} (hash : String → String) (stringify : Params → String) where
    unfoldable pub get_materialized :
        kv.Store → String → String → String → Params → ℕ → Option (Entry V) × kv.Store
    unfolding get create_namespaced_query_key
    get_materialized s tenant_id table sql params now =
        get s (create_namespaced_query_key hash stringify tenant_id table sql params) now

    unfoldable pub set_materialized :
        kv.Store → String → String → String → Params → V → SetOptions → ℕ → String × kv.Store
    unfolding set create_namespaced_query_key
    set_materialized s tenant_id table sql params contents options now =
        let key = create_namespaced_query_key hash stringify tenant_id table sql params in
        (key, set s key contents options now)
