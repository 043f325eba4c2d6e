-- ===== src/Split/Texts.antt =====
-- Ordering and classifying text, as src/services/ShardSplitService.ts does: `[...new Set(ids)].sort()`
-- and `sql.trim().toUpperCase().startsWith(…)`. Texts are compared by code point.
use Prim.Native.Char.{code}
use Prim.Native.String.{String}
use workersql.Base.{
  ℕ, ◌-◌, ◌≡◌, refl, ◌∙◌, inl, inr, Bool, true, false, not, ◌&&◌, ◌||◌, List, [], ◌∷◌, arith, ◌==◌,
  string_eq, nat_eq, if◌then◌else◌, includes, filter, includes-filter, ltb, leb, nat_beq, beq_cases,
  beq_refl,
}

abbrev pub codes : String → List ℕ
codes String.[] = []
codes (String.◌∷◌ c s) = code c ∷ codes s

codes_lt : List ℕ → List ℕ → Bool
codes_lt [] [] = false
codes_lt [] (y ∷ ys) = true
codes_lt (x ∷ xs) [] = false
codes_lt (x ∷ xs) (y ∷ ys) = ltb x y || (nat_beq x y && codes_lt xs ys)

-- `new Set(xs)`: the first occurrence of each value.
unfoldable pub dedup : List String → List String
dedup [] = []
dedup (x ∷ xs) = x ∷ filter (λ y. not (y == x)) (dedup xs)

insert_text : String → List String → List String
unfolding codes_lt
insert_text x [] = x ∷ []
insert_text x (y ∷ ys) = if codes_lt (codes y) (codes x) then y ∷ insert_text x ys else x ∷ y ∷ ys

unfoldable pub sort_texts : List String → List String
unfolding insert_text
sort_texts [] = []
sort_texts (x ∷ xs) = insert_text x (sort_texts xs)

includes-insert_text :
    (a x : String) (ys : List String) → includes a (insert_text x ys) ≡ (x == a || includes a ys)
unfolding insert_text
includes-insert_text a x [] = refl
includes-insert_text a x (y ∷ ys) = ground (arith, includes-insert_text a x ys)

pub includes-sort_texts :
    (a : String) (xs : List String) → includes a (sort_texts xs) ≡ includes a xs
unfolding sort_texts
includes-sort_texts a [] = refl
includes-sort_texts a (x ∷ xs) =
    includes-insert_text a x (sort_texts xs) ∙ rw (includes-sort_texts a xs)

pub includes-dedup : (a : String) (xs : List String) → includes a (dedup xs) ≡ includes a xs
unfolding dedup
includes-dedup a [] = refl
includes-dedup a (x ∷ xs) =
    rw (includes-filter a (λ y. not (y == x)) (dedup xs), includes-dedup a xs)
      (elim (beq_cases a x) [
        | inl (same, hit) ↦ rw same (rw (beq_refl x) (ground arith))
        | inr miss ↦ rw miss (ground arith)
      ])

-- What `trim` takes for white space: white space and line terminators of the language.
unfoldable pub is_space : ℕ → Bool
is_space c =
    (leb 9 c && leb c 13)
    || (c == 32
        || (c == 160
            || (c == 5760
                || ((leb 8192 c && leb c 8202)
                    || (c == 8232
                        || (c == 8233
                            || (c == 8239 || (c == 8287 || (c == 12288 || c == 65279)))))))))

unfoldable pub skip_spaces : List ℕ → List ℕ
unfolding is_space
skip_spaces [] = []
skip_spaces (c ∷ cs) = if is_space c then skip_spaces cs else c ∷ cs

-- `toUpperCase` as far as a prefix of the letters A to Z can see it: the small letters, and the long s
-- and the dotless i, which also have such a capital.
unfoldable pub to_upper : ℕ → ℕ
to_upper c =
    if leb b'a' c && leb c b'z'
    then c - 32
    else (if c == 383 then 83 else (if c == 305 then 73 else c))

unfoldable pub starts_with : List ℕ → List ℕ → Bool
unfolding to_upper
starts_with cs [] = true
starts_with [] (p ∷ ps) = false
starts_with (c ∷ cs) (p ∷ ps) = to_upper c == p && starts_with cs ps

-- `SELECT` statements are left out of a replay, and `CREATE`, `ALTER` and `DROP` go to `/ddl`.
unfoldable pub is_select : String → Bool
unfolding skip_spaces starts_with
is_select sql = starts_with (skip_spaces (codes sql)) (codes "SELECT")

unfoldable pub is_ddl : String → Bool
unfolding skip_spaces starts_with
is_ddl sql =
    let trimmed = skip_spaces (codes sql) in
    starts_with trimmed (codes "CREATE")
    || (starts_with trimmed (codes "ALTER") || starts_with trimmed (codes "DROP"))
