-- ===== src/Shard/Statements.antt =====
-- `touchStmtCache` of src/services/TableShard.ts: the statements by the time of their last use.
use workersql.Base.{
  ℕ, ◌+◌, ◌≤◌, ◌≡◌, refl, ◌∙◌, inl, inr, Bool, true, false, List, [], ◌∷◌, none, some, String,
  arith, ◌==◌, if◌then◌else◌, ltb, length, any, string_eq, Bool-cases, beq_refl, beq_comm,
}
use workersql.Dict
use workersql.Dict.{Dict, get-put, get-delete}
use workersql.Dict.Counting.{length-put, length-delete}

abbrev pub stmt_cache_limit : ℕ
stmt_cache_limit = 200

-- The eviction of the first key; the empty statement counts as no key.
unfoldable pub evict : Dict String ℕ → Dict String ℕ
evict [] = []
evict ((first, t) ∷ rest) =
    if first == "" then (first, t) ∷ rest else Dict.delete ((first, t) ∷ rest) first

unfoldable pub touch_stmt_cache : Dict String ℕ → String → ℕ → Dict String ℕ
unfolding evict
touch_stmt_cache cache sql now =
    let touched = Dict.put (Dict.delete cache sql) sql now in
    if ltb stmt_cache_limit (length touched) then evict touched else touched

unfoldable pub touch_all : Dict String ℕ → List (String × ℕ) → Dict String ℕ
unfolding touch_stmt_cache
touch_all cache [] = cache
touch_all cache ((sql, now) ∷ uses) = touch_all (touch_stmt_cache cache sql now) uses

abbrev pub is_empty : String → Bool
is_empty sql = sql == ""

-- The statements, none of which is empty, in no more entries than the limit.
pub record IsBounded (cache : Dict String ℕ) : Type 0 where
  pub has_no_empty : Dict.get cache "" ≡ none
  pub is_bounded : length cache ≤ stmt_cache_limit

put_read :
    (m : Dict String ℕ) (sql : String) (now : ℕ) → Dict.get (Dict.put m sql now) sql ≡ some now
put_read m sql now = get-put m sql sql now ∙ rw (beq_refl sql) refl

put_unread :
    (m : Dict String ℕ) (sql : String) (now : ℕ)
    → is_empty sql ≡ false
    → Dict.get m "" ≡ none
    → Dict.get (Dict.put m sql now) "" ≡ none
put_unread m sql now named e = get-put m sql "" now ∙ rw named e

evict_first :
    (first : String) (t : ℕ) (rest : Dict String ℕ)
    → is_empty first ≡ false
    → evict ((first, t) ∷ rest) ≡ Dict.delete rest first
unfolding evict Dict.delete
evict_first first t rest named = rw (named, beq_refl first) refl

-- A map with a statement that was just used: bounded, with its time in it.
abbrev IsUsed : Dict String ℕ → String → ℕ → Type 0
IsUsed cache sql now = IsBounded cache × (Dict.get cache sql ≡ some now)

deleted-IsUsed :
    (rest : Dict String ℕ) (first sql : String) (now : ℕ)
    → is_empty sql ≡ false
    → (first == sql) ≡ false
    → Dict.get rest "" ≡ none
    → length rest + 1 ≤ stmt_cache_limit
    → IsUsed (Dict.delete (Dict.put rest sql now) first) sql now
deleted-IsUsed rest first sql now named other no_empty le = (
  record {
    has_no_empty = get-delete (Dict.put rest sql now) first "" ∙ (elim (Bool-cases (first == "")) [
      | inl e ↦ rw e refl
      | inr e ↦ rw e (put_unread rest sql now named no_empty)
    ]);
    is_bounded =
        omega (arith, le, length-put rest sql now, length-delete (Dict.put rest sql now) first);
  },
  get-delete (Dict.put rest sql now) first sql ∙ rw other (put_read rest sql now),
)

-- The eviction of the first statement, which is another one than that at the end.
evicted-IsUsed :
    (m : Dict String ℕ) (sql : String) (now : ℕ)
    → is_empty sql ≡ false
    → Dict.get m sql ≡ none
    → IsBounded m
    → ltb stmt_cache_limit (length (Dict.put m sql now)) ≡ true
    → IsUsed (evict (Dict.put m sql now)) sql now
unfolding Dict.get Dict.put
evicted-IsUsed [] sql now named absent b full = absurd (ground (arith, full))
evicted-IsUsed ((first, t) ∷ rest) sql now named absent b full = elim (Bool-cases (first == sql)) [
  | inl hit ↦ absurd (ground (arith, hit, absent))
  | inr miss ↦ elim (Bool-cases (first == "")) [
    | inl empty ↦ absurd (ground (arith, empty, b.has_no_empty))
    | inr some_text ↦ rw miss (
        rw (evict_first first t (Dict.put rest sql now) some_text) (
          deleted-IsUsed rest first sql now named miss (rw some_text at b.has_no_empty)
            (omega (arith, b.is_bounded))))
  ]
]

delete-IsBounded :
    (cache : Dict String ℕ) (sql : String)
    → is_empty sql ≡ false
    → IsBounded cache
    → IsBounded (Dict.delete cache sql)
delete-IsBounded cache sql named b = record {
  has_no_empty = get-delete cache sql "" ∙ rw named b.has_no_empty;
  is_bounded = omega (arith, b.is_bounded, length-delete cache sql);
}

touched-IsUsed :
    (cache : Dict String ℕ) (sql : String) (now : ℕ)
    → is_empty sql ≡ false
    → IsBounded cache
    → IsUsed (touch_stmt_cache cache sql now) sql now
unfolding touch_stmt_cache
touched-IsUsed cache sql now named b =
    let m = delete-IsBounded cache sql named b in
    let absent : Dict.get (Dict.delete cache sql) sql ≡ none =
      get-delete cache sql sql ∙ rw (beq_refl sql) refl in
    elim (Bool-cases (ltb stmt_cache_limit (length (Dict.put (Dict.delete cache sql) sql now)))) [
      | inl full ↦ rw full (evicted-IsUsed (Dict.delete cache sql) sql now named absent m full)
      | inr fits ↦ rw fits (
        record {
          has_no_empty = put_unread (Dict.delete cache sql) sql now named m.has_no_empty;
          is_bounded = ground (arith, fits);
        },
        put_read (Dict.delete cache sql) sql now,
      )
    ]

touch_all-IsBounded :
    (cache : Dict String ℕ) (uses : List (String × ℕ))
    → any (λ u. is_empty u.0) uses ≡ false
    → IsBounded cache
    → IsBounded (touch_all cache uses)
unfolding touch_all
touch_all-IsBounded cache [] named b = b
touch_all-IsBounded cache ((sql, now) ∷ uses) named b =
    touch_all-IsBounded (touch_stmt_cache cache sql now) uses (ground (arith, named))
      (touched-IsUsed cache sql now (ground (arith, named)) b).0

-- After any statements, none of them empty, a shard keeps at most 200 of them, and the one that it used last is kept
-- with the time of that use.
pub touch_all-bounded :
    (uses : List (String × ℕ)) (sql : String) (now : ℕ)
    → any (λ u. is_empty u.0) ((sql, now) ∷ uses) ≡ false
    → (length (touch_stmt_cache (touch_all [] uses) sql now) ≤ 200)
      × (Dict.get (touch_stmt_cache (touch_all [] uses) sql now) sql ≡ some now)
unfolding Dict.get
touch_all-bounded uses sql now named =
    let start : IsBounded [] = record { has_no_empty = refl; is_bounded = omega arith } in
    let (b, used) =
      touched-IsUsed (touch_all [] uses) sql now (ground (arith, named))
        (touch_all-IsBounded [] uses (ground (arith, named)) start) in
    (b.is_bounded, used)

delete_absent : (m : Dict String ℕ) (k : String) → Dict.get m k ≡ none → Dict.delete m k ≡ m
unfolding Dict.get Dict.delete
delete_absent [] k h = refl
delete_absent ((j, v) ∷ m) k h = ground (arith, delete_absent m k)

length-put_absent :
    (m : Dict String ℕ) (k : String) (v : ℕ)
    → Dict.get m k ≡ none
    → length (Dict.put m k v) ≡ length m + 1
unfolding Dict.get Dict.put
length-put_absent [] k v h = refl
length-put_absent ((j, w) ∷ m) k v h = ground (arith, length-put_absent m k v)

either_way : {A : Type 0} (b : Bool) (a : A) → (if b then a else a) ≡ a
either_way true a = refl
either_way false a = refl

kept_oldest :
    (t : ℕ) (rest : Dict String ℕ) (sql : String) (now : ℕ)
    → is_empty sql ≡ false
    → Dict.get rest sql ≡ none
    → touch_stmt_cache (("", t) ∷ rest) sql now ≡ ("", t) ∷ Dict.put rest sql now
unfolding touch_stmt_cache evict Dict.put Dict.delete
kept_oldest t rest sql now named absent =
    rw (beq_comm "" sql ∙ named, delete_absent rest sql absent, beq_comm "" sql ∙ named)
      (either_way _ ((("", t) ∷ Dict.put rest sql now)))

-- Once the empty statement is the oldest of the statements that are kept, nothing is evicted: each new statement makes
-- them one more, with no limit, and the empty one stays the oldest.
pub touch_stmt_cache-grows :
    (t : ℕ) (rest : Dict String ℕ) (sql : String) (now : ℕ)
    → is_empty sql ≡ false
    → Dict.get rest sql ≡ none
    → (touch_stmt_cache (("", t) ∷ rest) sql now ≡ ("", t) ∷ Dict.put rest sql now)
      × (length (touch_stmt_cache (("", t) ∷ rest) sql now) ≡ length (("", t) ∷ rest) + 1)
touch_stmt_cache-grows t rest sql now named absent =
    let e = kept_oldest t rest sql now named absent in
    (e, rw e (omega (arith, length-put_absent rest sql now absent)))
