-- ===== src/Tests/Quoting.antt =====
-- Quoting as SQLAlchemy's preparer does it with the settings of sqlalchemy_cubrid/base.py: only reserved
-- words and names that are not made of plain characters get double quotes.
use sqlalchemy_cubrid.Reserved.{reserved_words}
use sqlalchemy_cubrid.Sql.Quoted.{is_unquoted, Quoting, IsPlain, quotes_if, quote_if}
use sqlalchemy_cubrid.Prelude.{
  ◌≡◌, Bool, true, false, not, ◌&&◌, ◌||◌, [], ◌∷◌, All, Text, lower, one_of, arith, is_lower,
}

abbrev pub all_plain : Text → Bool
all_plain [] = true
all_plain (c ∷ s) = is_unquoted c && all_plain s

abbrev pub is_simple : Text → Bool
is_simple [] = false
is_simple (c ∷ s) = is_lower c && all_plain (c ∷ s)

unfoldable pub requires_quotes : Text → Bool
unfolding one_of lower
requires_quotes name = one_of (lower name) reserved_words || not (is_simple name)

all_plain-All : (s : Text) → all_plain s ≡ true → All (λ c. is_unquoted c ≡ true) s
all_plain-All [] h = tt
all_plain-All (c ∷ s) h = (ground (arith, h), all_plain-All s (ground (arith, h)))

simple_rest : (a b c : Bool) → (a || not (b && c)) ≡ false → c ≡ true
simple_rest a b c h = ground (arith, h)

pub simple-IsPlain : (name : Text) → requires_quotes name ≡ false → IsPlain name
unfolding requires_quotes
simple-IsPlain [] h = cc
simple-IsPlain (c ∷ s) h = (λ e. cc, all_plain-All (c ∷ s) (simple_rest _ _ _ h))

abbrev pub sometimes : Quoting
sometimes = quotes_if requires_quotes simple-IsPlain

abbrev pub quote : Text → Text
quote = quote_if requires_quotes simple-IsPlain
