-- ===== src/Cache/Tests.antt =====
-- A namespace for the theorems on src/services/CacheService.ts, and these at concrete inputs.
use Prim.Native.String.{String}
use workersql.Base.{
  ℕ, ◌+◌, ◌≤◌, ◌≡◌, refl, inl, inr, ap, ◌∙◌, not, ◌&&◌, [], ◌∷◌, none, some, arith, ◌==◌,
  if◌then◌else◌, ltb, filter, length, includes, string_eq, is_some, Bool-cases,
}
use workersql.Dict
use workersql.Dict.{Dict, includes-keys}
use workersql.Kv.{Kv, dict_kv}
use workersql.Text.{starts_with, until}
use workersql.Cache
use workersql.Cache.{
  Held, Listing, Entry, entry, SetOptions, swr_of, ttl_of, new_entry, is_fresh,
  is_stale_but_revalidatable, delete_by_pattern,
}
use workersql.Cache.Phases.{get-set}
use workersql.Cache.Invalidation.{matching, get-delete_by_pattern}

has-get_is_some :
    {V : Type 0} (m : Dict String V) (k : String) → Dict.has m k ≡ is_some (Dict.get m k)
unfolding Dict.has Dict.get
has-get_is_some [] k = refl
has-get_is_some ((j, v) ∷ m) k = elim (Bool-cases (j == k)) [
  | inl e ↦ rw e refl
  | inr e ↦ rw e (has-get_is_some m k)
]

pub names-get_dict :
    {V : Type 0} (m : Dict String V) (k : String)
    → includes k (Dict.keys m) ≡ is_some (Dict.get m k)
names-get_dict m k = includes-keys m k ∙ has-get_is_some m k

pub names-delete_dict :
    {V : Type 0} (m : Dict String V) (k : String)
    → Dict.keys (Dict.delete m k) ≡ filter (λ n. not (n == k)) (Dict.keys m)
unfolding Dict.delete
names-delete_dict [] k = refl
names-delete_dict ((j, v) ∷ m) k = elim (Bool-cases (j == k)) [
  | inl e ↦ rw e (names-delete_dict m k)
  | inr e ↦ rw e (ap (λ ns. j ∷ ns) (names-delete_dict m k))
]

abbrev pub cache_kv : Kv string_eq (Held ℕ)
cache_kv = dict_kv string_eq (Held ℕ)

abbrev pub cache_listing : Listing cache_kv
cache_listing = record {
  names = λ s. Dict.keys s;
  names-get = λ s k. names-get_dict s k;
  names-delete = λ s k. names-delete_dict s k;
}

abbrev short : SetOptions
short = record { ttl_ms = some 10; swr_ms = some 50; version = none; shard_id = none }

get-set_example :
    ((Cache.get cache_kv (Cache.set cache_kv [] "t:orders:id:1" 7 short 100) "t:orders:id:1" 120).0
      ≡ (if ltb 120 (100 + swr_of short) then some (new_entry 7 short 100) else none))
    × (is_fresh {V = ℕ} (new_entry 7 short 100) 120 ≡ ltb 120 (100 + ttl_of short))
    × (is_stale_but_revalidatable {V = ℕ} (new_entry 7 short 100) 120
        ≡ (not (is_fresh {V = ℕ} (new_entry 7 short 100) 120) && ltb 120 (100 + swr_of short)))
    × ((Cache.get cache_kv
          (Cache.set cache_kv [] "t:orders:id:1" 7 short 100)
          "t:orders:id:2"
          120).0
        ≡ (Cache.get cache_kv [] "t:orders:id:2" 120).0)
get-set_example =
    get-set cache_kv [] "t:orders:id:1" "t:orders:id:2" 7 short 100 120 (omega arith) refl

abbrev pub cached_query : Held ℕ
cached_query = record { stored = entry (new_entry 3 short 100); expires_at = 61100 }

abbrev two_queries : Dict String (Held ℕ)
two_queries = ("acme:q:orders:1f", cached_query) ∷ ("acme:q:users:2e", cached_query) ∷ []

few_queries :
    length (matching cache_kv cache_listing two_queries (until b'*' "acme:q:orders:*")) ≤ 1000
unfolding until
few_queries = omega arith

get-delete_by_pattern_example :
    Dict.get
      (delete_by_pattern cache_kv cache_listing two_queries "acme:q:orders:*")
      "acme:q:users:2e"
    ≡ (if starts_with "acme:q:users:2e" (until b'*' "acme:q:orders:*")
        then none
        else Dict.get two_queries "acme:q:users:2e")
get-delete_by_pattern_example =
    get-delete_by_pattern cache_kv cache_listing two_queries "acme:q:orders:*" "acme:q:users:2e"
      few_queries
