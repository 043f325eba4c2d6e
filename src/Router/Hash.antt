-- ===== src/Router/Hash.antt =====
-- `hashRoute` of src/services/RouterService.ts. A 32-bit number is kept as its remainder modulo 2 ^ 32: from
-- 2 ^ 31 on it stands for a negative number.
use Prim.Native.Char.{code}
use Prim.Native.String.{String, slice}
use native.Mathlib.Numerals.{unary_clauses}
use workersql.Base.{
  ℕ, zero, suc, ◌+◌, ◌-◌, ◌*◌, ◌/◌, ◌%◌, ◌^◌, ◌<◌, ◌≡◌, ap, ◌∙◌, List, [], ◌∷◌, ◌++◌ as ◌+++◌,
  length, arith, if◌then◌else◌, ltb,
}
use workersql.Text.{◌++◌}

abbrev pub digit : ℕ → String
digit n = slice "0123456789" n (n + 1)

abbrev digits : ℕ → ℕ → String
digits zero n = ""
digits (suc fuel) n =
    let rest = digits fuel (n / 10) in if ltb n 10 then digit n else rest ++ digit (n % 10)

-- The template `shard_${n}`; a number has no more digits than its successor.
unfoldable pub shard_name : ℕ → String
shard_name n = "shard_" ++ digits (n + 1) n

-- `charCodeAt`: the units of UTF-16, two of them for a character above 65535.
unfoldable pub char_codes : String → List ℕ
char_codes String.[] = []
char_codes (String.◌∷◌ c s) =
    (if ltb (code c) 65536
      then (code c ∷ [])
      else (55296 + (code c - 65536) / 1024) ∷ (56320 + (code c - 65536) % 1024) ∷ [])
    +++ char_codes s

-- `hash << 5`
abbrev shift_left_5 : ℕ → ℕ
shift_left_5 hash = hash * 32 % 4294967296

-- `(hash << 5) - hash + char`, made a 32-bit number.
unfoldable pub hash_step : ℕ → ℕ → ℕ
hash_step hash char = (shift_left_5 hash + (4294967296 - hash) + char) % 4294967296

unfoldable pub hash_codes : ℕ → List ℕ → ℕ
unfolding hash_step
hash_codes hash [] = hash
hash_codes hash (c ∷ cs) = hash_codes (hash_step hash c) cs

-- `Math.abs(hash)`
abbrev pub abs : ℕ → ℕ
abs hash = if ltb hash 2147483648 then hash else 4294967296 - hash

unfoldable pub shard_index : String → ℕ
unfolding hash_codes char_codes
shard_index key = abs (hash_codes 0 (char_codes key)) % 4

unfoldable pub hash_route : String → String
unfolding shard_index shard_name
hash_route key = shard_name (shard_index key)

-- The value of the codes as digits to base 31, the first one first.
unfoldable pub polynomial : List ℕ → ℕ
polynomial [] = 0
polynomial (c ∷ cs) = c * 31 ^ length cs + polynomial cs

distribute : (r m q k : ℕ) → (r + m * q) * k ≡ r * k + m * (q * k)
distribute r m q k = grind arith

wrap-mul-add : (x k p : ℕ) → (x % 4294967296 * k + p) % 4294967296 ≡ (x * k + p) % 4294967296
wrap-mul-add x k p = omega (arith, split)
  where
    split : x * k ≡ x % 4294967296 * k + 4294967296 * (x / 4294967296 * k)
    split =
        ap (λ y. y * k) {y = x % 4294967296 + 4294967296 * (x / 4294967296)} (omega arith)
        ∙ distribute (x % 4294967296) 4294967296 (x / 4294967296) k

regroup_at : (h c k p : ℕ) → (h * 31 + c) * k + p ≡ h * (k * 31) + (c * k + p)
regroup_at h c k p = grind arith

regroup : (h c n p : ℕ) → (h * 31 + c) * 31 ^ n + p ≡ h * 31 ^ suc n + (c * 31 ^ n + p)
regroup h c n p = simp unary_clauses (regroup_at h c (31 ^ n) p)

from_zero : (k p : ℕ) → (0 * k + p) % 4294967296 ≡ p % 4294967296
from_zero k p = omega arith

hash_step_lem : (h c : ℕ) → h < 4294967296 → hash_step h c ≡ (h * 31 + c) % 4294967296
unfolding hash_step
hash_step_lem h c lt = omega arith

hash_step-bound : (h c : ℕ) → hash_step h c < 4294967296
unfolding hash_step
hash_step-bound h c = omega arith

hash_codes-polynomial :
    (cs : List ℕ) (h : ℕ)
    → h < 4294967296
    → hash_codes h cs ≡ (h * 31 ^ length cs + polynomial cs) % 4294967296
unfolding hash_codes polynomial
hash_codes-polynomial [] h lt = omega arith
hash_codes-polynomial (c ∷ cs) h lt =
    hash_codes-polynomial cs (hash_step h c) (hash_step-bound h c)
    ∙ rw (hash_step_lem h c lt) (
        wrap-mul-add (h * 31 + c) (31 ^ length cs) (polynomial cs)
        ∙ ap (λ n. n % 4294967296) (regroup h c (length cs) (polynomial cs)))

-- The index is that of one of four shards, and it is the remainder modulo 4 of the absolute value of the key's codes,
-- read as digits to base 31, in 32-bit arithmetic.
pub shard_index_lem :
    (key : String)
    → (shard_index key < 4) × (shard_index key ≡ abs (polynomial (char_codes key) % 4294967296) % 4)
unfolding shard_index
shard_index_lem key = (
  omega arith,
  ap (λ h. abs h % 4)
      (hash_codes-polynomial (char_codes key) 0 (omega arith)
        ∙ from_zero (31 ^ length (char_codes key)) (polynomial (char_codes key))),
)
