-- ===== src/Ddl/Columns.antt =====
-- What a server reads out of a column of CREATE TABLE, as `get_column_specification` of
-- sqlalchemy_cubrid/compiler.py writes it.
use sqlalchemy_cubrid.Ddl.{
  Column, given_text, is_designated, is_auto_increment, get_column_specification,
}
use sqlalchemy_cubrid.Sql.{◌>>=◌, at_flag, expect, expect-append, read_flag}
use sqlalchemy_cubrid.Sql.Quoted.{Quoting}
use sqlalchemy_cubrid.Prelude.{
  ℕ, ◌≡◌, refl, sym, ap, ◌∙◌, Bool, true, false, not, ◌||◌, Option, none, some, [], ◌∷◌, ◌++◌,
  append_assoc, append-nil, Text, codes, starts_with, if◌then◌else◌,
}

-- What may follow a type, a default or a comment.
unfoldable pub ends_item : Text → Bool
ends_item [] = true
ends_item (c ∷ s) =
    starts_with (c ∷ s) (codes " AUTO_INCREMENT")
    || (starts_with (c ∷ s) (codes " DEFAULT ")
        || (starts_with (c ∷ s) (codes " NOT NULL") || starts_with (c ∷ s) (codes " COMMENT ")))

-- The texts of types, defaults and literals, with a reader that finds such a text and what follows it.
pub record Items : Type 1 where
  pub IsItem : Text → Type 0
  pub read_item : Text → Option (Text × Text)
  pub read-item :
      (t rest : Text) → IsItem t → ends_item rest ≡ true → read_item (t ++ rest) ≡ some (t, rest)

-- A column as the server sees it.
pub record ReadColumn : Type 0 where
  pub name : Text
  pub column_type : Text
  pub auto_increment : Bool
  pub default : Option Text
  pub nullable : Bool
  pub comment : Option Text

-- The parts behind the type, from the last one on.
abbrev comment_part : Option Text → Text
comment_part comment = given_text (codes " COMMENT ") comment

abbrev null_part : Bool → Option Text → Text
null_part nullable comment = (if nullable then [] else codes " NOT NULL") ++ comment_part comment

abbrev default_part : Option Text → Bool → Option Text → Text
default_part default nullable comment =
    given_text (codes " DEFAULT ") default ++ null_part nullable comment

abbrev auto_part : Bool → Option Text → Bool → Option Text → Text
auto_part auto default nullable comment =
    (if auto then codes " AUTO_INCREMENT" else []) ++ default_part default nullable comment

ends_comment_part : (comment : Option Text) → ends_item (comment_part comment) ≡ true
unfolding ends_item starts_with
ends_comment_part none = refl
ends_comment_part (some c) = refl

ends_null_part : (n : Bool) (comment : Option Text) → ends_item (null_part n comment) ≡ true
unfolding ends_item starts_with
ends_null_part true comment = ends_comment_part comment
ends_null_part false comment = refl

ends_default_part :
    (d : Option Text) (n : Bool) (comment : Option Text)
    → ends_item (default_part d n comment) ≡ true
unfolding ends_item starts_with
ends_default_part none n comment = ends_null_part n comment
ends_default_part (some d) n comment = refl

ends_auto_part :
    (a : Bool) (d : Option Text) (n : Bool) (comment : Option Text)
    → ends_item (auto_part a d n comment) ≡ true
unfolding ends_item starts_with
ends_auto_part true d n comment = refl
ends_auto_part false d n comment = ends_default_part d n comment

no_auto :
    (d : Option Text) (n : Bool) (comment : Option Text)
    → expect (codes " AUTO_INCREMENT") (default_part d n comment) ≡ none
unfolding expect
no_auto none true none = refl
no_auto none true (some c) = refl
no_auto none false comment = refl
no_auto (some d) n comment = refl

no_default :
    (n : Bool) (comment : Option Text) → expect (codes " DEFAULT ") (null_part n comment) ≡ none
unfolding expect
no_default true none = refl
no_default true (some c) = refl
no_default false comment = refl

no_null : (comment : Option Text) → expect (codes " NOT NULL") (comment_part comment) ≡ none
unfolding expect
no_null none = refl
no_null (some c) = refl

-- A keyword that may stand in front of the rest.
read_flag-part :
    (b : Bool) (keyword t : Text)
    → expect keyword t ≡ none
    → read_flag keyword ((if b then keyword else []) ++ t) ≡ (b, t)
unfolding read_flag
read_flag-part true keyword t h = ap (at_flag (keyword ++ t)) (expect-append keyword t)
read_flag-part false keyword t h = ap (at_flag t) h

read_null :
    (n : Bool) (comment : Option Text)
    → read_flag (codes " NOT NULL") (null_part n comment) ≡ (not n, comment_part comment)
read_null true comment = read_flag-part false (codes " NOT NULL") _ (no_null comment)
read_null false comment = read_flag-part true (codes " NOT NULL") _ (no_null comment)

same_auto :
    (table : Option (Option ℕ)) (c : Column) (n : Text)
    → is_auto_increment table (record c { name = n }) ≡ is_auto_increment table c
unfolding is_auto_increment is_designated
same_auto none c n = refl
same_auto (some none) c n = refl
same_auto (some (some i)) c n = refl

not-not : (b : Bool) → not (not b) ≡ b
not-not true = refl
not-not false = refl

module _ (items : Items) where
  abbrev pub AreItems : Option Text → Type 0
  AreItems none = Unit
  AreItems (some t) = items.IsItem t

  abbrev at_item : Text → Option Text → Option (Option Text × Text)
  at_item s none = some (none, s)
  at_item s (some t) = items.read_item t >>= λ r. some (some r.0, r.1)

  unfoldable pub read_given : Text → Text → Option (Option Text × Text)
  read_given keyword s = at_item s (expect keyword s)

  read_given-text :
      (keyword : Text) (o : Option Text) (rest : Text)
      → AreItems o
      → ends_item rest ≡ true
      → expect keyword rest ≡ none
      → read_given keyword (given_text keyword o ++ rest) ≡ some (o, rest)
  unfolding read_given
  read_given-text keyword none rest h ends absent = ap (at_item rest) absent
  read_given-text keyword (some t) rest h ends absent =
      ap (read_given keyword) (append_assoc keyword t rest)
      ∙ (ap (at_item (keyword ++ (t ++ rest))) (expect-append keyword (t ++ rest))
          ∙ ap (λ o. o >>= λ r. some (some r.0, r.1)) (items.read-item t rest h ends))

  read_comment :
      (o : Option Text)
      → AreItems o
      → read_given (codes " COMMENT ") (comment_part o) ≡ some (o, [])
  read_comment o h =
      ap (read_given (codes " COMMENT ")) (sym (append-nil (comment_part o)))
      ∙ read_given-text (codes " COMMENT ") o [] h (unfold ends_item in refl)
          (unfold expect in refl)

  module _ (quoting : Quoting) where
    unfoldable pub read_column : Text → Option ReadColumn
    read_column s = do
      (name, s) ← quoting.read_identifier s
      s ← expect (codes " ") s
      (column_type, s) ← items.read_item s
      let (auto_increment, s) = read_flag (codes " AUTO_INCREMENT") s
      (default, s) ← read_given (codes " DEFAULT ") s
      let (not_null, s) = read_flag (codes " NOT NULL") s
      (comment, s) ← read_given (codes " COMMENT ") s
      some record {
        name = name;
        column_type = column_type;
        auto_increment = auto_increment;
        default = default;
        nullable = not not_null;
        comment = comment;
      }

    -- A column's part of CREATE TABLE says what the column is, for any way to quote names that can be read
    -- and texts of types, defaults and comments that can be: its name and type, AUTO_INCREMENT exactly if
    -- the column is the one to count, the default, whether NULL may stand there, and the comment.
    pub read-get_column_specification :
        (table : Option (Option ℕ)) (c : Column)
        → items.IsItem c.column_type
        → AreItems c.default
        → AreItems c.comment
        → read_column
            (get_column_specification table (record c { name = quoting.quote_identifier c.name }))
          ≡ some record {
            name = c.name;
            column_type = c.column_type;
            auto_increment = is_auto_increment table c;
            default = c.default;
            nullable = c.nullable;
            comment = c.comment;
          }
    unfolding read_column get_column_specification
    read-get_column_specification table c t d m =
        let a = is_auto_increment table (record c { name = quoting.quote_identifier c.name }) in
        rw
          (
            quoting.read-quote c.name _ refl,
            expect-append (codes " ") _,
            items.read-item c.column_type _ t (ends_auto_part a c.default c.nullable c.comment),
            read_flag-part a (codes " AUTO_INCREMENT") _ (no_auto c.default c.nullable c.comment),
            read_given-text (codes " DEFAULT ") c.default _ d (ends_null_part c.nullable c.comment)
                (no_default c.nullable c.comment),
            read_null c.nullable c.comment,
            read_comment c.comment m,
            not-not c.nullable,
            same_auto table c (quoting.quote_identifier c.name),
          )
          refl
