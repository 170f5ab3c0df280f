-- ===== src/Reflect/ForeignKeys.antt =====
-- `get_foreign_keys` of sqlalchemy_cubrid/dialect.py, over the answer to SHOW CREATE TABLE.
pub mod Printed
pub mod Actions
pub mod Match
pub mod Columns
pub mod RoundTrip
pub mod ReadBack
pub mod Order
use sqlalchemy_cubrid.Regex.{
  Regex, alt, opt, group, Captures, match, captured, seqs, lit, word, spaces, spaces_or_none,
  plus_not,
}
use sqlalchemy_cubrid.Prelude.{
  ℕ, zero, suc, ◌-◌, Bool, true, false, ◌&&◌, ◌||◌, Option, none, some, List, [], ◌∷◌, ◌++◌, map,
  Text, codes, join, split, strip, upper, length, ltb, ◌==◌, is_space, Result, ok, err, Error,
  database_error, no_such_table, ◌>>=◌, if◌then◌else◌,
}

-- `(CASCADE|SET\s+NULL|NO\s+ACTION|RESTRICT)`
abbrev pub action_pattern : Regex
action_pattern = alt (word (codes "CASCADE")) (
    alt (seqs (word (codes "SET") ∷ spaces ∷ word (codes "NULL") ∷ [])) (
      alt (seqs (word (codes "NO") ∷ spaces ∷ word (codes "ACTION") ∷ []))
        (word (codes "RESTRICT"))))

-- `(?:\s+ON\s+DELETE\s+(…))?`, and the same for UPDATE.
abbrev pub on_pattern : Text → ℕ → Regex
on_pattern event n =
    opt (
      seqs
        (spaces ∷ word (codes "ON") ∷ spaces ∷ word event ∷ spaces ∷ group n action_pattern ∷ []))

-- `fk_pattern`
unfoldable pub fk_pattern : Regex
fk_pattern = seqs (
    word (codes "CONSTRAINT")
    ∷ spaces
    ∷ lit b'['
    ∷ group 1 (plus_not b']')
    ∷ lit b']'
    ∷ spaces
    ∷ word (codes "FOREIGN")
    ∷ spaces
    ∷ word (codes "KEY")
    ∷ spaces_or_none
    ∷ lit b'('
    ∷ group 2 (plus_not b')')
    ∷ lit b')'
    ∷ spaces
    ∷ word (codes "REFERENCES")
    ∷ spaces
    ∷ lit b'['
    ∷ opt (seqs (plus_not b']' ∷ lit b'.' ∷ []))
    ∷ group 3 (plus_not b']')
    ∷ lit b']'
    ∷ spaces_or_none
    ∷ lit b'('
    ∷ group 4 (plus_not b')')
    ∷ lit b')'
    ∷ on_pattern (codes "DELETE") 5
    ∷ on_pattern (codes "UPDATE") 6
    ∷ [])

-- `fk_pattern.finditer(ddl)`: the first argument counts the characters of the last match that are
-- still to be passed over.
unfoldable pub find_all : ℕ → Text → List Captures
unfolding match fk_pattern
find_all skip [] = []
find_all (suc skip) (c ∷ s) = find_all skip s
find_all zero (c ∷ s) = elim (match fk_pattern (c ∷ s)) [
  | none ↦ find_all zero s
  | some (caps, rest) ↦ caps ∷ find_all (length s - length rest) s
]

abbrev pub is_bracket : ℕ → Bool
is_bracket c = c == b'[' || c == b']'

unfoldable pub lstrip_brackets : Text → Text
lstrip_brackets [] = []
lstrip_brackets (c ∷ s) = elim (is_bracket c) [ true ↦ lstrip_brackets s | false ↦ c ∷ s ]

unfoldable pub rstrip_brackets : Text → Text
rstrip_brackets [] = []
rstrip_brackets (c ∷ s) = elim (rstrip_brackets s) [
  | [] ↦ if is_bracket c then [] else c ∷ []
  | d ∷ t ↦ c ∷ d ∷ t
]

-- `s.strip("[]")`
unfoldable pub strip_brackets : Text → Text
unfolding lstrip_brackets rstrip_brackets
strip_brackets s = rstrip_brackets (lstrip_brackets s)

-- `[c.strip().strip("[]") for c in columns.split(",")]`
unfoldable pub column_names : Text → List Text
unfolding split strip strip_brackets
column_names columns = map (λ c. strip_brackets (strip c)) (split b',' columns)

-- What `s.split()` returns, the word under construction apart.
unfoldable pub words_from : Text → Text → List Text
words_from [] [] = []
words_from (c ∷ cur) [] = (c ∷ cur) ∷ []
words_from [] (c ∷ s) = elim (is_space c) [ true ↦ words_from [] s | false ↦ words_from (c ∷ []) s ]
words_from (b ∷ cur) (c ∷ s) = elim (is_space c) [
  | true ↦ (b ∷ cur) ∷ words_from [] s
  | false ↦ words_from (b ∷ (cur ++ c ∷ [])) s
]

-- `" ".join(action.upper().split())`
unfoldable pub normal_action : Text → Text
unfolding words_from upper join
normal_action s = join (codes " ") (words_from [] (upper s))

-- An entry of the result; `options` has the keys "ondelete" and "onupdate".
pub record ForeignKey : Type 0 where
  pub name : Text
  pub constrained_columns : List Text
  pub referred_schema : Option Text
  pub referred_table : Text
  pub referred_columns : List Text
  pub ondelete : Option Text
  pub onupdate : Option Text

-- A group that takes part in every match.
abbrev pub group_text : ℕ → Captures → Text
group_text n caps = elim (captured n caps) [ none ↦ [] | some t ↦ t ]

abbrev pub group_action : ℕ → Captures → Option Text
group_action n caps = elim (captured n caps) [ none ↦ none | some t ↦ some (normal_action t) ]

-- The body of the loop over the matches.
unfoldable pub foreign_key : Option Text → Captures → ForeignKey
unfolding captured column_names normal_action
foreign_key schema caps = record {
  name = group_text 1 caps;
  constrained_columns = column_names (group_text 2 caps);
  referred_schema = schema;
  referred_table = group_text 3 caps;
  referred_columns = column_names (group_text 4 caps);
  ondelete = group_action 5 caps;
  onupdate = group_action 6 caps;
}

-- The order of `str`, by code points.
unfoldable pub text_lt : Text → Text → Bool
text_lt s [] = false
text_lt [] (d ∷ t) = true
text_lt (c ∷ s) (d ∷ t) = ltb c d || c == d && text_lt s t

-- An entry goes before the first one whose name is not smaller.
unfoldable pub insert_by_name : ForeignKey → List ForeignKey → List ForeignKey
unfolding text_lt
insert_by_name x [] = x ∷ []
insert_by_name x (y ∷ ys) = if text_lt y.name x.name then y ∷ insert_by_name x ys else x ∷ y ∷ ys

-- `fks.sort(key=lambda x: x["name"])`, which is stable.
unfoldable pub sort_by_name : List ForeignKey → List ForeignKey
unfolding insert_by_name
sort_by_name [] = []
sort_by_name (x ∷ xs) = insert_by_name x (sort_by_name xs)

-- `get_foreign_keys`, from the answer to SHOW CREATE TABLE (no row, or its second column) and that of
-- `_is_view`.
unfoldable pub get_foreign_keys :
    Option Text → Result (Option Text) → Result Bool → Result (List ForeignKey)
unfolding find_all foreign_key sort_by_name
get_foreign_keys schema (err database_error) is_view = do
  view ← is_view
  if view then ok [] else err no_such_table
get_foreign_keys schema (err e) is_view = err e
get_foreign_keys schema (ok none) is_view = ok []
get_foreign_keys schema (ok (some ddl)) is_view =
    ok (sort_by_name (map (foreign_key schema) (find_all zero ddl)))
