-- ===== src/Text.antt =====
-- Texts as the services take them apart: template strings, `startsWith`, `split(':')` and the part before
-- a character.
use Prim.Native.Char.{code}
use Prim.Native.String.{String}
use text.Mathlib.Text.{starts_with}
use text.Mathlib.TextLemmas.{nil-append, cons-append, append-nil}
use text.Mathlib.TextPositions.{starts_with-append}
use workersql.Base.{
  ℕ, ◌≡◌, refl, ap, ◌∙◌, Bool, false, ◌||◌, Option, none, some, arith, ◌==◌, nat_eq, if◌then◌else◌,
}
pub use Prim.Native.String.{◌++◌}
pub use text.Mathlib.Text.{starts_with}
pub use text.Mathlib.TextPositions.{starts_with-append}

unfoldable pub has_char : ℕ → String → Bool
has_char c String.[] = false
has_char c (String.◌∷◌ d s) = code d == c || has_char c s

-- The text up to the first occurrence of a character, and the rest behind it.
unfoldable pub until : ℕ → String → String
until c String.[] = String.[]
until c (String.◌∷◌ d s) = if code d == c then String.[] else String.◌∷◌ d (until c s)

unfoldable pub after : ℕ → String → Option String
after c String.[] = none
after c (String.◌∷◌ d s) = if code d == c then some s else after c s

pub has_char-append : (c : ℕ) (s t : String) → has_char c (s ++ t) ≡ (has_char c s || has_char c t)
unfolding has_char
has_char-append c String.[] t = rw nil-append refl
has_char-append c (String.◌∷◌ d s) t = rw cons-append (ground (arith, has_char-append c s t))

pub until_absent : (c : ℕ) (s : String) → has_char c s ≡ false → until c s ≡ s
unfolding has_char until
until_absent c String.[] h = refl
until_absent c (String.◌∷◌ d s) h = ground (arith, until_absent c s)

pub until-append : (c : ℕ) (s t : String) → has_char c s ≡ false → until c (s ++ t) ≡ s ++ until c t
unfolding has_char until
until-append c String.[] t h = rw (nil-append) (rw (nil-append) refl)
until-append c (String.◌∷◌ d s) t h =
    rw (cons-append) (rw cons-append (ground (arith, until-append c s t)))

pub after-append : (c : ℕ) (s t : String) → has_char c s ≡ false → after c (s ++ t) ≡ after c t
unfolding has_char after
after-append c String.[] t h = rw nil-append refl
after-append c (String.◌∷◌ d s) t h = rw cons-append (ground (arith, after-append c s t))

pub after_absent : (c : ℕ) (s : String) → has_char c s ≡ false → after c s ≡ none
unfolding has_char after
after_absent c String.[] h = refl
after_absent c (String.◌∷◌ d s) h = ground (arith, after_absent c s)

-- A character in front of a text.
pub colon-append : (s : String) → ":" ++ s ≡ String.◌∷◌ ":" s
colon-append s = cons-append ":" String.[] s ∙ ap (String.◌∷◌ ":") (nil-append s)

pub until-colon : (s t : String) → has_char b':' s ≡ false → until b':' (s ++ (":" ++ t)) ≡ s
unfolding until
until-colon s t h = until-append b':' s (":" ++ t) h ∙ rw (colon-append t) (append-nil s)

pub after-colon : (s t : String) → has_char b':' s ≡ false → after b':' (s ++ (":" ++ t)) ≡ some t
unfolding after
after-colon s t h = after-append b':' s (":" ++ t) h ∙ rw (colon-append t) refl
