-- ===== src/Tests/Declared.antt =====
-- What sqlalchemy_cubrid/functions.py, sqlalchemy_cubrid/dialect.py and
-- sqlalchemy_cubrid/base.py declare, at concrete values, with a `func` that drops an underscore at
-- the end.
use sqlalchemy_cubrid.Functions.{
  Func, registrations, if_, nvl2, class_name, sql_name, find_function,
}
use sqlalchemy_cubrid.Functions.Laws.{find_function-class_name}
use sqlalchemy_cubrid.Package.{exports}
use sqlalchemy_cubrid.Reserved.Quote.{Quoter, quote, read-quote_reserved}
use sqlalchemy_cubrid.Reserved.Spelling.{is_plain_word}
use sqlalchemy_cubrid.Sql.Quoted.{double_quote, read_quoted}
use sqlalchemy_cubrid.Setup.{init_json}
use sqlalchemy_cubrid.Prelude.Dict.{lookup, dict_of}
use sqlalchemy_cubrid.Prelude.{
  not, ◌||◌, map, lower, text_eq, text_eq, ℕ, ◌≡◌, ◌≢◌, refl, ap, true, none, some, [], ◌∷◌, ◌++◌,
  Text, codes, upper, one_of, arith, ◌==◌, if◌then◌else◌,
}

-- The name that `func` looks for under an attribute's name.
unfoldable attribute_name : Text → Text
attribute_name [] = []
attribute_name (c ∷ []) = if c == b'_' then [] else c ∷ []
attribute_name (c ∷ d ∷ s) = c ∷ attribute_name (d ∷ s)

attribute_name-drops : (s : Text) → attribute_name (s ++ codes "_") ≡ s
unfolding attribute_name
attribute_name-drops [] = refl
attribute_name-drops (c ∷ []) = refl
attribute_name-drops (c ∷ d ∷ s) = ap (λ t. c ∷ t) (attribute_name-drops (d ∷ s))

attribute_name-keeps : (s : Text) (c : ℕ) → c ≢ b'_' → attribute_name (s ++ c ∷ []) ≡ s ++ c ∷ []
unfolding attribute_name
attribute_name-keeps [] c n = ground arith
attribute_name-keeps (b ∷ []) c n = ground arith
attribute_name-keeps (b ∷ d ∷ s) c n = ap (λ t. b ∷ t) (attribute_name-keeps (d ∷ s) c n)

abbrev underscore_func : Func
underscore_func = record {
  attribute_name = attribute_name;
  find = λ entries name. lookup (lower name) (dict_of (map (λ e. (lower e.0, e.1)) entries));
  drops_underscore = attribute_name-drops;
  keeps_other = attribute_name-keeps;
  find-registered = λ entries name. refl;
}

find_function-class_name_example :
    (find_function underscore_func (class_name if_) ≡ none)
    × (one_of (class_name if_) exports ≡ true)
    × (sql_name if_ ≡ upper (attribute_name (class_name if_)))
find_function-class_name_example = find_function-class_name underscore_func if_

-- `func.nvl2`, `func.NVL2` and `func.if__`.
names_found :
    (find_function underscore_func (codes "nvl2") ≡ some nvl2)
    × (find_function underscore_func (codes "NVL2") ≡ some nvl2)
    × (find_function underscore_func (codes "if__") ≡ some if_)
unfolding registrations lookup dict_of lower attribute_name text_eq
names_found = (refl, refl, refl)

-- A serializer that is given takes the place of the class's.
json_given :
    init_json
      (record { serializer = codes "dumps"; deserializer = codes "loads" })
      (some (codes "mine"))
      none
    ≡ record { serializer = codes "mine"; deserializer = codes "loads" }
unfolding init_json
json_given = refl

-- Reserved words need quotes, as names with a capital or a space do.
abbrev quoter : Quoter
quoter = record {
  requires_quotes = λ words name. one_of (lower name) words || not (is_plain_word name);
  quote_identifier = λ p name. double_quote name;
  requires_reserved = λ words name h. rw h refl;
  quote_double = λ p name i f e. refl;
}

read-quote_reserved_example :
    (read_quoted (quote quoter (codes "select") ++ codes " INTEGER")
      ≡ some (codes "select", codes " INTEGER"))
    × (read_quoted (quote quoter (upper (codes "select")) ++ codes " INTEGER")
        ≡ some (upper (codes "select"), codes " INTEGER"))
read-quote_reserved_example =
    read-quote_reserved quoter (codes "select") (codes " INTEGER") (unfold one_of text_eq in refl)
      refl
