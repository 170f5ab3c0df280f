-- ===== src/Sql.antt =====
-- SQL string literals as sqlalchemy_cubrid/dblink.py writes them, and a reader of such literals and
-- of fixed text, the reference for what the rendered statements mean: a quote ends a literal, and a
-- doubled quote stands for one. The readers for the other statements of the package build on them.
pub mod Lists
pub mod Quoted
pub mod Groups
use sqlalchemy_cubrid.Prelude.{
  value-show_nat, ℕ, ◌≡◌, refl, sym, ap, ◌∙◌, Bool, true, false, Option, none, some, [], ◌∷◌, ◌++◌,
  append_assoc, append-nil, arith, Text, ◌==◌, if◌then◌else◌, ==_refl, is_digit, value, IsDigit,
  All, show_nat, show_nat-All,
}

-- The readers fail on a syntax error.
infixl 5 ◌>>=◌
abbrev pub ◌>>=◌ : {A B : Type 0} → Option A → (A → Option B) → Option B
none >>= f = none
some a >>= f = f a

-- `s.replace("'", "''")`
unfoldable pub escape_quotes : Text → Text
escape_quotes [] = []
escape_quotes (c ∷ s) = if c == b'\'' then b'\'' ∷ b'\'' ∷ escape_quotes s else c ∷ escape_quotes s

-- The rest of a literal whose opening quote was read, and the text behind it. The flag tells that
-- the last character was a quote that may still turn out to be doubled.
unfoldable pub read_literal : Text → Bool → Text → Option (Text × Text)
read_literal out false [] = none
read_literal out true [] = some (out, [])
read_literal out false (c ∷ s) = elim (c == b'\'') [
  | true ↦ read_literal out true s
  | false ↦ read_literal (out ++ c ∷ []) false s
]
read_literal out true (c ∷ s) = elim (c == b'\'') [
  | true ↦ read_literal (out ++ c ∷ []) false s
  | false ↦ some (out, c ∷ s)
]

-- What may follow a literal: not one more quote.
abbrev pub NoQuote : Text → Type 0
NoQuote [] = Unit
NoQuote (c ∷ s) = (c == b'\'') ≡ false

read_literal-escape_quotes :
    (out s rest : Text)
    → NoQuote rest
    → read_literal out false (escape_quotes s ++ b'\'' ∷ rest) ≡ some (out ++ s, rest)
unfolding read_literal escape_quotes
read_literal-escape_quotes out [] [] h = ap (λ o. some (o, [])) (sym (append-nil out))
read_literal-escape_quotes out [] (c ∷ rest) h = ground (arith, h, append-nil out)
read_literal-escape_quotes out (c ∷ s) rest h =
    ground (arith, read_literal-escape_quotes (out ++ c ∷ []) s rest h, append_assoc out (c ∷ []) s)

-- A literal written with doubled quotes reads back as the text itself, whatever quotes the text
-- holds, and what follows the literal is not touched, unless it starts with a quote.
pub read-escape_quotes :
    (s rest : Text)
    → NoQuote rest
    → read_literal [] false (escape_quotes s ++ b'\'' ∷ rest) ≡ some (s, rest)
read-escape_quotes s rest h = read_literal-escape_quotes [] s rest h

-- The text behind a fixed beginning.
unfoldable pub expect : Text → Text → Option Text
expect [] s = some s
expect (c ∷ p) [] = none
expect (c ∷ p) (d ∷ s) = let rest = expect p s in if c == d then rest else none

pub expect-append : (p s : Text) → expect p (p ++ s) ≡ some s
unfolding expect
expect-append [] s = refl
expect-append (c ∷ p) s = ground (arith, ==_refl c, expect-append p s)

abbrev pub at_flag : Text → Option Text → Bool × Text
at_flag s none = (false, s)
at_flag s (some t) = (true, t)

-- Whether a keyword stands at the beginning, and the text behind it.
unfoldable pub read_flag : Text → Text → Bool × Text
read_flag keyword s = at_flag s (expect keyword s)

-- The digits at the beginning, as the number that they spell behind `n`, and the rest.
unfoldable pub read_number : ℕ → Text → ℕ × Text
read_number n [] = (n, [])
read_number n (c ∷ s) =
    let rest = read_number (value n (c ∷ [])) s in if is_digit c then rest else (n, c ∷ s)

abbrev pub NoDigit : Text → Type 0
NoDigit [] = Unit
NoDigit (c ∷ s) = is_digit c ≡ false

pub read_number-digits :
    (n : ℕ) (ds rest : Text)
    → All IsDigit ds
    → NoDigit rest
    → read_number n (ds ++ rest) ≡ (value n ds, rest)
unfolding read_number
read_number-digits n [] [] h k = refl
read_number-digits n [] (c ∷ rest) h k = rw k
read_number-digits n (d ∷ ds) rest (hd, hds) k =
    ground (arith, read_number-digits (value n (d ∷ [])) ds rest hds k)

pub read_number-show_nat :
    (n : ℕ) (rest : Text) → NoDigit rest → read_number 0 (show_nat n ++ rest) ≡ (n, rest)
read_number-show_nat n rest h =
    read_number-digits 0 (show_nat n) rest (show_nat-All n) h
    ∙ ap (λ (m : ℕ). (m, rest)) (value-show_nat n)
