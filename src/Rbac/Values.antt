-- ===== src/Rbac/Values.antt =====
-- The JSON values that the conditions of src/services/RBACService.ts compare, and the text functions
-- that it calls. A number is a natural number. Objects and arrays of a request are never the same
-- reference as those of a schema, so `===` between two of them is false.
use Prim.Native.Char.{code}
use Prim.Native.String.{String, ◌++◌}
use workersql.Base.{
  ℕ, ◌+◌, ◌-◌, ◌*◌, Bool, true, false, not, ◌&&◌, ◌||◌, List, [], ◌∷◌, Option, none, some, ◌==◌,
  string_eq, nat_eq, if◌then◌else◌, leb,
}
use workersql.Split.Texts.{codes}

mutual
  pub data Value : Type 0 where
    undefined null : Value
    boolean : Bool → Value
    number : ℕ → Value
    text : String → Value
    array : Values → Value
    object : Fields → Value

  pub data Values : Type 0 where
    no_values : Values
    and_value : Value → Values → Values

  pub data Fields : Type 0 where
    no_fields : Fields
    and_field : String → Value → Fields → Fields

-- `===`
unfoldable pub strict_eq : Value → Value → Bool
strict_eq undefined undefined = true
strict_eq null null = true
strict_eq (boolean true) (boolean b) = b
strict_eq (boolean false) (boolean b) = not b
strict_eq (number m) (number n) = m == n
strict_eq (text s) (text t) = s == t
strict_eq _ _ = false

unfoldable pub values_include : Values → Value → Bool
values_include no_values v = false
values_include (and_value w ws) v = strict_eq w v || values_include ws v

unfoldable pub texts : List String → Values
texts [] = no_values
texts (s ∷ ss) = and_value (text s) (texts ss)

unfoldable pub is_prefix : List ℕ → List ℕ → Bool
is_prefix [] cs = true
is_prefix (p ∷ ps) [] = false
is_prefix (p ∷ ps) (c ∷ cs) = p == c && is_prefix ps cs

-- `startsWith` and `includes` of a text.
unfoldable pub text_starts_with : String → String → Bool
unfolding is_prefix
text_starts_with s prefix = is_prefix (codes prefix) (codes s)

codes_include : List ℕ → List ℕ → Bool
codes_include [] ps = is_prefix ps []
codes_include (c ∷ cs) ps = is_prefix ps (c ∷ cs) || codes_include cs ps

unfoldable pub text_includes : String → String → Bool
unfolding codes_include is_prefix
text_includes s part = codes_include (codes s) (codes part)

-- `pattern.replace(/\*/g, '.*')` between `^` and `$`.
stars : String → String
stars String.[] = ""
stars (String.◌∷◌ c s) = if code c == b'*' then ".*" ++ stars s else String.◌∷◌ c (stars s)

unfoldable pub wildcard_regex : String → String
unfolding stars
wildcard_regex pattern = "^" ++ (stars pattern ++ "$")

-- `split('.')`, each part as its code points.
unfoldable pub push_code : ℕ → List (List ℕ) → List (List ℕ)
push_code c [] = (c ∷ []) ∷ []
push_code c (part ∷ parts) = (c ∷ part) ∷ parts

unfoldable pub split_dots : List ℕ → List (List ℕ)
unfolding push_code
split_dots [] = [] ∷ []
split_dots (c ∷ cs) = if c == b'.' then [] ∷ split_dots cs else push_code c (split_dots cs)

unfoldable pub codes_eq : List ℕ → List ℕ → Bool
codes_eq [] [] = true
codes_eq [] (d ∷ ds) = false
codes_eq (c ∷ cs) [] = false
codes_eq (c ∷ cs) (d ∷ ds) = c == d && codes_eq cs ds

unfoldable pub field : Fields → List ℕ → Option Value
unfolding codes_eq
field no_fields key = none
field (and_field name v fields) key = if codes_eq (codes name) key then some v else field fields key

-- An array has the fields `length` and `0`, `1`, … without leading zeros.
digits : ℕ → List ℕ → Option ℕ
digits n [] = some n
digits n (c ∷ cs) = if leb b'0' c && leb c b'9' then digits (n * 10 + (c - b'0')) cs else none

index_of : List ℕ → Option ℕ
unfolding digits
index_of [] = none
index_of (c ∷ []) = digits 0 (c ∷ [])
index_of (c ∷ d ∷ cs) = if c == b'0' then none else digits 0 (c ∷ d ∷ cs)

nth : Values → ℕ → Option Value
nth no_values n = none
nth (and_value v vs) n = if n == 0 then some v else nth vs (n - 1)

count_values : Values → ℕ
count_values no_values = 0
count_values (and_value v vs) = count_values vs + 1

element : Values → List ℕ → Option Value
unfolding codes_eq index_of nth count_values
element vs key =
    if codes_eq key (codes "length")
    then some (number (count_values vs))
    else elim (index_of key) [ none ↦ none | some n ↦ nth vs n ]

-- The loop of `getContextValue`: it goes into objects and arrays only. A method of an object is no JSON
-- value, and a path to one gives `undefined` here.
unfoldable pub walk : Value → List (List ℕ) → Value
unfolding field element
walk v [] = v
walk (object fields) (part ∷ parts) = elim (field fields part) [
  | none ↦ undefined
  | some v ↦ walk v parts
]
walk (array vs) (part ∷ parts) = elim (element vs part) [ none ↦ undefined | some v ↦ walk v parts ]
walk _ (part ∷ parts) = undefined
