-- ===== src/Reserved/Quote.antt =====
-- `CubridIdentifierPreparer` of sqlalchemy_cubrid/base.py: the delimiters and the words that it hands to
-- SQLAlchemy, which decides by them whether a name is quoted.
use sqlalchemy_cubrid.Reserved.{reserved_words}
use sqlalchemy_cubrid.Reserved.Spelling.{
  is_word_char, are_word_chars, is_plain_word, reserved_words-lower,
}
use sqlalchemy_cubrid.Sql.Quoted.{NoDelimiter, double_quote, read_quoted, double_quote_lem}
use sqlalchemy_cubrid.Prelude.{
  ◌≡◌, refl, ap, ap₂, ◌∙◌, Bool, true, false, Option, none, some, List, [], ◌∷◌, ◌++◌, Text, codes,
  lower, upper, to_lower, to_upper, one_of, if◌then◌else◌, arith, ℕ,
}

-- The arguments of `IdentifierPreparer.__init__`, behind the dialect.
pub record Preparer : Type 0 where
  pub initial_quote : Text
  pub final_quote : Option Text
  pub escape_quote : Text
  pub omit_schema : Bool

-- `CubridIdentifierPreparer.__init__`, with its default arguments.
unfoldable pub identifier_preparer : Preparer
identifier_preparer = record {
  initial_quote = codes "\"";
  final_quote = none;
  escape_quote = codes "\"";
  omit_schema = false;
}

-- What SQLAlchemy does with them: a reserved word needs quotes in any letter case, and double quotes on
-- both sides double the ones in the name.
pub record Quoter : Type 0 where
  pub requires_quotes : List Text → Text → Bool
  pub quote_identifier : Preparer → Text → Text
  pub requires_reserved :
      (words : List Text) (name : Text)
      → one_of (lower name) words ≡ true
      → requires_quotes words name ≡ true
  pub quote_double :
      (p : Preparer) (name : Text)
      → p.initial_quote ≡ codes "\""
      → p.final_quote ≡ none
      → p.escape_quote ≡ codes "\""
      → quote_identifier p name ≡ double_quote name

to_lower-to_upper : (c : ℕ) → is_word_char c ≡ true → to_lower (to_upper c) ≡ c
unfolding to_lower to_upper
to_lower-to_upper c h = ground arith

lower-upper_chars : (s : Text) → are_word_chars s ≡ true → lower (upper s) ≡ s
unfolding are_word_chars lower upper
lower-upper_chars [] h = refl
lower-upper_chars (c ∷ s) h =
    ap₂ (λ d t. d ∷ t) (to_lower-to_upper c (ground (arith, h)))
      (lower-upper_chars s (ground (arith, h)))

lower-upper : (w : Text) → is_plain_word w ≡ true → lower (upper w) ≡ w
unfolding is_plain_word
lower-upper [] h = cc
lower-upper (c ∷ s) h = lower-upper_chars (c ∷ s) (ground (arith, h, are_word_chars))

module _ (quoter : Quoter) where
  -- `quote(name)`
  unfoldable pub quote : Text → Text
  unfolding identifier_preparer
  quote name =
      if quoter.requires_quotes reserved_words name
      then quoter.quote_identifier identifier_preparer name
      else name

  quote_reserved :
      (name rest : Text)
      → one_of (lower name) reserved_words ≡ true
      → NoDelimiter rest
      → read_quoted (quote name ++ rest) ≡ some (name, rest)
  unfolding quote
  quote_reserved name rest h clear =
      rw
        (
          quoter.requires_reserved reserved_words name h,
          quoter.quote_double identifier_preparer name refl refl refl,
        )
        (double_quote_lem name rest clear)

  -- Each reserved word, in small letters and in capitals, is quoted when it is a name, and reads back as
  -- that name, whatever follows it but a double quote.
  pub read-quote_reserved :
      (w rest : Text)
      → one_of w reserved_words ≡ true
      → NoDelimiter rest
      → (read_quoted (quote w ++ rest) ≡ some (w, rest))
        × (read_quoted (quote (upper w) ++ rest) ≡ some (upper w, rest))
  read-quote_reserved w rest h clear =
      let (small, plain) = reserved_words-lower w h in
      (
        quote_reserved w rest (ap (λ v. one_of v reserved_words) small ∙ h) clear,
        quote_reserved (upper w) rest (ap (λ v. one_of v reserved_words) (lower-upper w plain) ∙ h)
            clear,
      )
