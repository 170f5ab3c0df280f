-- ===== src/Sql/Quoted.antt =====
-- Quoted identifiers: what a statement relies on in `quote_identifier` of SQLAlchemy, and that the
-- delimiters which `CubridIdentifierPreparer` of sqlalchemy_cubrid/base.py sets fulfil it: double
-- quotes, of which one in the name is doubled.
use sqlalchemy_cubrid.Prelude.{
  ◌∙◌, ◌≡◌, ◌≢◌, refl, ℕ, All, is_word, ◌||◌, Bool-cases, inl, inr, sym, ap, Bool, true, false,
  Option, none, some, [], ◌∷◌, ◌++◌, append_assoc, append-nil, arith, Text, ◌==◌, if◌then◌else◌,
}

-- What may follow a quoted name.
abbrev pub NoDelimiter : Text → Type 0
NoDelimiter [] = Unit
NoDelimiter (c ∷ s) = (c == b'"') ≡ false

-- A character of a name that stands without quotes.
abbrev pub is_unquoted : ℕ → Bool
is_unquoted c = is_word c || c == b'$'

-- What may follow a name, quoted or not: the end, or a character of neither kind.
abbrev pub EndsName : Text → Type 0
EndsName [] = Unit
EndsName (c ∷ s) = (is_unquoted c || c == b'"') ≡ false

-- A way to quote names, always or only where it is needed, with a reader that finds the name and what
-- follows it.
pub record Quoting : Type 0 where
  pub quote_identifier : Text → Text
  pub read_identifier : Text → Option (Text × Text)
  pub read-quote :
      (name rest : Text)
      → EndsName rest
      → read_identifier (quote_identifier name ++ rest) ≡ some (name, rest)

-- `value.replace(escape_quote, escape_to_quote)`
unfoldable pub escape_delimiters : Text → Text
escape_delimiters [] = []
escape_delimiters (c ∷ s) =
    if c == b'"' then b'"' ∷ b'"' ∷ escape_delimiters s else c ∷ escape_delimiters s

-- The flag tells that the last character was a double quote that may still turn out to be doubled.
unfoldable pub read_delimited : Text → Bool → Text → Option (Text × Text)
read_delimited out false [] = none
read_delimited out true [] = some (out, [])
read_delimited out false (c ∷ s) = elim (c == b'"') [
  | true ↦ read_delimited out true s
  | false ↦ read_delimited (out ++ c ∷ []) false s
]
read_delimited out true (c ∷ s) = elim (c == b'"') [
  | true ↦ read_delimited (out ++ c ∷ []) false s
  | false ↦ some (out, c ∷ s)
]

read_delimited-escape_delimiters :
    (out s rest : Text)
    → NoDelimiter rest
    → read_delimited out false (escape_delimiters s ++ b'"' ∷ rest) ≡ some (out ++ s, rest)
unfolding read_delimited escape_delimiters
read_delimited-escape_delimiters out [] [] h = ap (λ o. some (o, [])) (sym (append-nil out))
read_delimited-escape_delimiters out [] (c ∷ rest) h = ground (arith, h, append-nil out)
read_delimited-escape_delimiters out (c ∷ s) rest h =
    ground (
      arith,
      read_delimited-escape_delimiters (out ++ c ∷ []) s rest h,
      append_assoc out (c ∷ []) s,
    )

abbrev pub read_quoted : Text → Option (Text × Text)
read_quoted [] = none
read_quoted (c ∷ s) = elim (c == b'"') [ true ↦ read_delimited [] false s | false ↦ none ]

-- `initial_quote + escaped + final_quote`
unfoldable pub double_quote : Text → Text
unfolding escape_delimiters
double_quote name = b'"' ∷ (escape_delimiters name ++ b'"' ∷ [])

pub double_quote_lem :
    (name rest : Text)
    → NoDelimiter rest
    → read_quoted (double_quote name ++ rest) ≡ some (name, rest)
unfolding double_quote
double_quote_lem name rest h =
    ap (read_delimited [] false) (append_assoc (escape_delimiters name) (b'"' ∷ []) rest)
    ∙ read_delimited-escape_delimiters [] name rest h

pub EndsName-NoDelimiter : (s : Text) → EndsName s → NoDelimiter s
EndsName-NoDelimiter [] h = tt
EndsName-NoDelimiter (c ∷ s) h = ground (arith, h)

abbrev pub double_quotes : Quoting
double_quotes = record {
  quote_identifier = double_quote;
  read_identifier = read_quoted;
  read-quote = λ name rest h. double_quote_lem name rest (EndsName-NoDelimiter rest h);
}

-- The plain characters at the beginning, and the rest.
unfoldable pub read_plain : Text → Text × Text
read_plain [] = ([], [])
read_plain (c ∷ s) =
    let (name, rest) = read_plain s in if is_unquoted c then (c ∷ name, rest) else ([], c ∷ s)

read_plain-append :
    (s rest : Text)
    → All (λ c. is_unquoted c ≡ true) s
    → EndsName rest
    → read_plain (s ++ rest) ≡ (s, rest)
unfolding read_plain
read_plain-append [] [] h ends = refl
read_plain-append [] (c ∷ rest) h ends = ground (arith, ends)
read_plain-append (c ∷ s) rest (p, h) ends = ground (arith, p, read_plain-append s rest h ends)

-- A name that stands without quotes.
abbrev pub IsPlain : Text → Type 0
IsPlain name = (name ≢ []) × All (λ c. is_unquoted c ≡ true) name

abbrev pub read_name : Text → Option (Text × Text)
read_name [] = none
read_name (c ∷ s) = if c == b'"' then read_quoted (c ∷ s) else some (read_plain (c ∷ s))

read_name-plain :
    (name rest : Text) → IsPlain name → EndsName rest → read_name (name ++ rest) ≡ some (name, rest)
read_name-plain [] rest (n, h) ends = absurd (n refl)
read_name-plain (c ∷ s) rest (n, (p, h)) ends =
    rw (the_first c p) (ap some (read_plain-append (c ∷ s) rest (p, h) ends))
  where
    the_first : (c : ℕ) → is_unquoted c ≡ true → (c == b'"') ≡ false
    the_first c p = ground (arith, p)

module _ (requires_quotes : Text → Bool)
    (plain : (name : Text) → requires_quotes name ≡ false → IsPlain name) where
  -- `quote` of SQLAlchemy's preparer.
  abbrev pub quote_if : Text → Text
  quote_if name = if requires_quotes name then double_quote name else name

  pub quote_if_lem :
      (name rest : Text) → EndsName rest → read_name (quote_if name ++ rest) ≡ some (name, rest)
  unfolding double_quote
  quote_if_lem name rest h = elim (Bool-cases (requires_quotes name)) [
    | inl e ↦ rw e (double_quote_lem name rest (EndsName-NoDelimiter rest h))
    | inr n ↦ rw n (read_name-plain name rest (plain name n) h)
  ]

  -- Quoting only the names that need it can be read, when the others are plain.
  abbrev pub quotes_if : Quoting
  quotes_if = record {
    quote_identifier = quote_if;
    read_identifier = read_name;
    read-quote = quote_if_lem;
  }
