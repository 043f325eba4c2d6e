-- ===== src/Cache/Invalidation.antt =====
-- What `deleteByPattern` of src/services/CacheService.ts removes.
use Prim.Native.String.{String}
use text.Mathlib.TextLemmas.{append_assoc, append-nil}
use workersql.Base.{
  ℕ, zero, suc, ◌≤◌, ◌≡◌, refl, ap, sym, ◌∙◌, subst, Bool, true, false, not, ◌&&◌, List, [], ◌∷◌,
  Option, none, some, arith, ◌==◌, if◌then◌else◌, filter, length, includes, includes-filter,
  string_eq, is_some,
}
use workersql.Kv.{Kv}
use workersql.Text.{
  ◌++◌, starts_with, starts_with-append, until, until-append, has_char, has_char-append,
}
use workersql.Cache.{
  Held, Listing, take, delete_many, listed, delete_by_pattern, create_namespaced_query_key,
  get_materialized, read,
}
use workersql.Cache.Phases.{get-found, found}

take_of_length-le {ℓ} : {A : Type ℓ} (n : ℕ) (xs : List A) → length xs ≤ n → take n xs ≡ xs
unfolding take
take_of_length-le zero [] h = refl
take_of_length-le zero (x ∷ xs) h = absurd (omega (arith, h))
take_of_length-le (suc n) [] h = refl
take_of_length-le (suc n) (x ∷ xs) h = ap (λ ys. x ∷ ys) (take_of_length-le n xs (omega (arith, h)))

length-filter-filter {ℓ} :
    {A : Type ℓ} (p q : A → Bool) (xs : List A)
    → length (filter p (filter q xs)) ≤ length (filter p xs)
length-filter-filter p q [] = omega arith
length-filter-filter p q (x ∷ xs) = ground (arith, length-filter-filter p q xs)

none_or_none {ℓ} :
    {A : Type ℓ} (o : Option A) (b : Bool) → o ≡ none → (if b then none else o) ≡ none
none_or_none o true h = refl
none_or_none o false h = h

hidden_or_kept {ℓ} :
    {A : Type ℓ} (o : Option A) (b : Bool)
    → (if is_some o && b then none else o) ≡ (if b then none else o)
hidden_or_kept none true = refl
hidden_or_kept none false = refl
hidden_or_kept (some a) b = refl

-- `${tenant}:q:${table}:`, the start of the keys of a table's cached queries.
abbrev pub query_prefix : String → String → String
query_prefix tenant table = tenant ++ (":q:" ++ (table ++ ":"))

colon_q : (s : String) → ":" ++ ("q:" ++ s) ≡ ":q:" ++ s
colon_q s = sym (append_assoc ":" "q:" s)

pub query_key-starts :
    {Params : Type 0} (hash : String → String) (stringify : Params → String)
    (tenant table sql : String) (params : Params)
    → starts_with
        (create_namespaced_query_key hash stringify tenant table sql params)
        (query_prefix tenant table)
      ≡ true
unfolding create_namespaced_query_key
query_key-starts hash stringify tenant table sql params =
    let digest = hash (sql ++ (":" ++ stringify params)) in
    let same : query_prefix tenant table ++ digest
        ≡ tenant ++ (":" ++ ("q:" ++ (table ++ (":" ++ digest)))) =
      rw
        (
          append_assoc tenant (":q:" ++ (table ++ ":")) digest,
          append_assoc ":q:" (table ++ ":") digest,
          append_assoc table ":" digest,
          colon_q (table ++ (":" ++ digest)),
        )
        refl in
    subst (λ k. starts_with k (query_prefix tenant table) ≡ true) same
      (starts_with-append (query_prefix tenant table) digest)

-- A pattern `<prefix>*` stands for the prefix, if that has no star.
pub until-star : (p : String) → has_char b'*' p ≡ false → until b'*' (p ++ "*") ≡ p
unfolding until
until-star p h = until-append b'*' p "*" h ∙ append-nil p

pub query_prefix-no_star :
    (tenant table : String)
    → has_char b'*' tenant ≡ false
    → has_char b'*' table ≡ false
    → has_char b'*' (query_prefix tenant table) ≡ false
unfolding has_char
query_prefix-no_star tenant table h k = ground (
  arith,
  has_char-append b'*' tenant (":q:" ++ (table ++ ":")),
  has_char-append b'*' ":q:" (table ++ ":"),
  has_char-append b'*' table ":",
  h,
  k,
)

module _ {V : Type 0} (kv : Kv string_eq (Held V)) where
  open kv use {Store, get-put, get-delete}

  get-delete_many :
      (s : Store) (keys : List String) (j : String)
      → kv.get (delete_many kv s keys) j ≡ (if includes j keys then none else kv.get s j)
  unfolding delete_many
  get-delete_many s [] j = refl
  get-delete_many s (k ∷ keys) j =
      rw (get-delete_many (kv.delete s k) keys j, get-delete s k j) (ground arith)

  -- A key without a value has no materialized result, at any time.
  pub get_materialized-none :
      {Params : Type 0} (hash : String → String) (stringify : Params → String) (s : Store)
      (tenant table sql : String) (params : Params) (now : ℕ)
      → kv.get s (create_namespaced_query_key hash stringify tenant table sql params) ≡ none
      → (get_materialized kv hash stringify s tenant table sql params now).0 ≡ none
  unfolding get_materialized read found
  get_materialized-none hash stringify s tenant table sql params now h =
      rw (get-found kv s (create_namespaced_query_key hash stringify tenant table sql params) now)
        (rw (h, read) refl)

  names-delete_many :
      (listing : Listing kv) (q : String → Bool) (s : Store) (keys : List String)
      → length (filter q (listing.names (delete_many kv s keys)))
        ≤ length (filter q (listing.names s))
  unfolding delete_many
  names-delete_many listing q s [] = omega arith
  names-delete_many listing q s (k ∷ keys) = omega (
    arith,
    names-delete_many listing q (kv.delete s k) keys,
    ap (λ ns. length (filter q ns)) (listing.names-delete s k),
    length-filter-filter q (λ n. not (n == k)) (listing.names s),
  )

  module _ (listing : Listing kv) where
    -- The names that start with a prefix.
    abbrev pub matching : Store → String → List String
    matching s prefix = filter (λ n. starts_with n prefix) (listing.names s)

    includes-listed :
        (s : Store) (prefix j : String)
        → length (matching s prefix) ≤ 1000
        → includes j (listed kv listing s prefix) ≡ (is_some (kv.get s j) && starts_with j prefix)
    unfolding listed
    includes-listed s prefix j few =
        rw (take_of_length-le 1000 (matching s prefix) few, listed)
          (ground (
            arith,
            includes-filter j (λ n. starts_with n prefix) (matching s prefix),
            includes-filter j (λ n. starts_with n prefix) (listing.names s),
            listing.names-get s j,
          ))

    -- With at most 1000 names that match, exactly the values under those names are gone, and every other
    -- key reads as before.
    pub get-delete_by_pattern :
        (s : Store) (pattern j : String)
        → length (matching s (until b'*' pattern)) ≤ 1000
        → kv.get (delete_by_pattern kv listing s pattern) j
          ≡ (if starts_with j (until b'*' pattern) then none else kv.get s j)
    unfolding delete_by_pattern
    get-delete_by_pattern s pattern j few =
        rw
          (
            get-delete_many s (listed kv listing s (until b'*' pattern)) j,
            includes-listed s (until b'*' pattern) j few,
          )
          (hidden_or_kept (kv.get s j) (starts_with j (until b'*' pattern)))

    -- No deletion brings a key back, and none adds a name.
    pub get-delete_by_pattern-none :
        (s : Store) (pattern j : String)
        → kv.get s j ≡ none
        → kv.get (delete_by_pattern kv listing s pattern) j ≡ none
    unfolding delete_by_pattern
    get-delete_by_pattern-none s pattern j h =
        rw (get-delete_many s (listed kv listing s (until b'*' pattern)) j)
          (none_or_none (kv.get s j) (includes j (listed kv listing s (until b'*' pattern))) h)

    pub matching-delete_by_pattern :
        (s : Store) (pattern prefix : String)
        → length (matching (delete_by_pattern kv listing s pattern) prefix)
          ≤ length (matching s prefix)
    unfolding delete_by_pattern
    matching-delete_by_pattern s pattern prefix =
        names-delete_many listing (λ n. starts_with n prefix) s
          (listed kv listing s (until b'*' pattern))
