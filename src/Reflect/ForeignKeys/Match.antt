-- ===== src/Reflect/ForeignKeys/Match.antt =====
-- The match of `fk_pattern` in `get_foreign_keys` of sqlalchemy_cubrid/dialect.py with the text of a
-- foreign key.
use sqlalchemy_cubrid.Reflect.ForeignKeys.Actions.{Lacks-AllIn, on_patterns, run-on_patterns}
use sqlalchemy_cubrid.Regex.{
  or_else, Regex, opt, group, seqs, lit, plus_not, spaces, spaces_or_none, word, Captures, Rest,
  run, match,
}
use sqlalchemy_cubrid.Regex.Steps.{
  ==_of_ne, Stops, run_star-append, run-group_plus, run_star_fails, run_star_back,
}
use sqlalchemy_cubrid.Reflect.ForeignKeys.{fk_pattern}
use sqlalchemy_cubrid.Prelude.{
  inr, inl, Bool-cases, ◌≡◌, refl, ap, ◌∙◌, not, ◌==◌, Option, none, some, [], ◌∷◌, ◌++◌, Text,
  codes, Lacks, is_space, to_lower, arith,
}
use sqlalchemy_cubrid.Reflect.ForeignKeys.Printed.{
  Action, PrintedKey, columns_text, actions_text, table_text, referred_text, key_text,
  action_captures, key_captures, IsName, IsColumns, IsOwner, IsMatchable,
}

abbrev columns_part : Regex
columns_part = seqs (lit b'(' ∷ group 4 (plus_not b')') ∷ lit b')' ∷ on_patterns ∷ [])

run-columns_part :
    (k : Rest) (caps : Captures) (columns : Text) (d u : Option Action) (rest : Text)
    {out : Captures × Text}
    → IsColumns columns
    → Stops is_space rest
    → k (action_captures 6 u (action_captures 5 d ((4, columns) ∷ caps))) rest ≡ some out
    → run columns_part k caps (b'(' ∷ (columns ++ b')' ∷ actions_text d u rest)) ≡ some out
unfolding run
run-columns_part k caps columns d u rest (ne, h) st e =
    run-group_plus 4 (λ c. not (c == b')')) (run (seqs (lit b')' ∷ on_patterns ∷ [])) k) caps
      columns (b')' ∷ actions_text d u rest) ne (Lacks-AllIn b')' columns h) refl
      (run-on_patterns k ((4, columns) ∷ caps) d u rest st e)

abbrev referred_part : Regex
referred_part = seqs (lit b']' ∷ spaces_or_none ∷ columns_part ∷ [])

run-referred_part :
    (k : Rest) (caps : Captures) (columns : Text) (d u : Option Action) (rest : Text)
    {out : Captures × Text}
    → IsColumns columns
    → Stops is_space rest
    → k (action_captures 6 u (action_captures 5 d ((4, columns) ∷ caps))) rest ≡ some out
    → run referred_part k caps (referred_text columns (actions_text d u rest)) ≡ some out
unfolding run
run-referred_part k caps columns d u rest h st e =
    run_star-append is_space (run columns_part k) caps (codes " ")
      (b'(' ∷ (columns ++ b')' ∷ actions_text d u rest)) (refl, tt) refl
      (run-columns_part k caps columns d u rest h st e)

abbrev table_part : Regex
table_part = seqs (group 3 (plus_not b']') ∷ referred_part ∷ [])

run-table_part :
    (k : Rest) (caps : Captures) (table columns : Text) (d u : Option Action) (rest : Text)
    {out : Captures × Text}
    → IsName table
    → IsColumns columns
    → Stops is_space rest
    → k (action_captures 6 u (action_captures 5 d ((4, columns) ∷ (3, table) ∷ caps))) rest
      ≡ some out
    → run table_part k caps (table ++ referred_text columns (actions_text d u rest)) ≡ some out
unfolding run
run-table_part k caps table columns d u rest (ne, l) h st e =
    run-group_plus 3 (λ c. not (c == b']')) (run referred_part k) caps table
      (referred_text columns (actions_text d u rest)) ne (Lacks-AllIn b']' table l) refl
      (run-referred_part k ((3, table) ∷ caps) columns d u rest h st e)

abbrev owner_part : Regex
owner_part = opt (seqs (plus_not b']' ∷ lit b'.' ∷ []))

-- A name without a dot has no owner in front of it.
run-no_owner :
    (k : Rest) (caps : Captures) (table rest : Text)
    → Lacks b'.' table
    → run owner_part k caps (table ++ b']' ∷ rest) ≡ k caps (table ++ b']' ∷ rest)
unfolding run
run-no_owner k caps [] rest h = refl
run-no_owner k caps (c ∷ table) rest (hc, ht) = elim (Bool-cases (c == b']')) [
  | inl e ↦ rw e refl
  | inr n ↦
      rw
        (n, run_star_fails (λ d. not (d == b']')) b'.' k caps table b']' rest ht (omega arith) refl)
        refl
]

run-owner :
    (k : Rest) (caps : Captures) (owner table rest : Text) {out : Captures × Text}
    → IsName owner
    → Lacks b'.' table
    → k caps (table ++ b']' ∷ rest) ≡ some out
    → run owner_part k caps (owner ++ b'.' ∷ (table ++ b']' ∷ rest)) ≡ some out
unfolding run
run-owner k caps [] table rest (ne, h) t e = absurd (ne refl)
run-owner k caps (c ∷ owner) table rest (ne, (hc, ho)) t e = rw (==_of_ne c b']' hc) (
    ap (λ o. or_else o (k caps (c ∷ (owner ++ b'.' ∷ (table ++ b']' ∷ rest)))))
      (run_star_back (λ d. not (d == b']')) b'.' k caps owner table b']' rest
        (Lacks-AllIn b']' owner ho) refl t (omega arith) refl e))

abbrev names_part : Regex
names_part = seqs (owner_part ∷ table_part ∷ [])

run-names_part :
    (k : Rest) (caps : Captures) (owner : Option Text) (table columns : Text) (d u : Option Action)
    (rest : Text) {out : Captures × Text}
    → IsOwner owner
    → IsName table × Lacks b'.' table
    → IsColumns columns
    → Stops is_space rest
    → k (action_captures 6 u (action_captures 5 d ((4, columns) ∷ (3, table) ∷ caps))) rest
      ≡ some out
    → run names_part k caps (table_text owner table (referred_text columns (actions_text d u rest)))
      ≡ some out
unfolding run
run-names_part k caps none table columns d u rest o (t, dot) h st e =
    run-no_owner (run table_part k) caps table
      (codes " (" ++ (columns ++ (codes ")" ++ actions_text d u rest))) dot
    ∙ run-table_part k caps table columns d u rest t h st e
run-names_part k caps (some owner) table columns d u rest o (t, dot) h st e =
    run-owner (run table_part k) caps owner table
      (codes " (" ++ (columns ++ (codes ")" ++ actions_text d u rest))) o dot
      (run-table_part k caps table columns d u rest t h st e)

abbrev referring_part : Regex
referring_part =
    seqs (lit b')' ∷ spaces ∷ word (codes "REFERENCES") ∷ spaces ∷ lit b'[' ∷ names_part ∷ [])

abbrev local_part : Regex
local_part = seqs (lit b'(' ∷ group 2 (plus_not b')') ∷ referring_part ∷ [])

abbrev key_part : Regex
key_part = seqs (
    lit b']'
    ∷ spaces
    ∷ word (codes "FOREIGN")
    ∷ spaces
    ∷ word (codes "KEY")
    ∷ spaces_or_none
    ∷ local_part
    ∷ [])

-- The text behind the name, and behind the columns.
abbrev referring_text : PrintedKey → Text → Text
referring_text f rest =
    codes ") REFERENCES ["
    ++ table_text f.owner f.table
        (referred_text (columns_text f.referred) (actions_text f.on_delete f.on_update rest))

abbrev local_text : PrintedKey → Text → Text
local_text f rest = codes "(" ++ (columns_text f.columns ++ referring_text f rest)

run-local_part :
    (k : Rest) (f : PrintedKey) (rest : Text) {out : Captures × Text}
    → IsMatchable f
    → Stops is_space rest
    → k (key_captures f) rest ≡ some out
    → run local_part k ((1, f.name) ∷ []) (local_text f rest) ≡ some out
unfolding run to_lower
run-local_part k f rest (n, (ne, c), o, t, h) st e =
    run-group_plus 2 (λ d. not (d == b')')) (run referring_part k) ((1, f.name) ∷ [])
      (columns_text f.columns) (referring_text f rest) ne
      (Lacks-AllIn b')' (columns_text f.columns) c) refl
      (run-names_part k ((2, columns_text f.columns) ∷ (1, f.name) ∷ []) f.owner f.table
        (columns_text f.referred) f.on_delete f.on_update rest o t h st e)

run-key_part :
    (k : Rest) (f : PrintedKey) (rest : Text) {out : Captures × Text}
    → IsMatchable f
    → Stops is_space rest
    → k (key_captures f) rest ≡ some out
    → run key_part k ((1, f.name) ∷ []) (codes "] FOREIGN KEY " ++ local_text f rest) ≡ some out
unfolding run to_lower
run-key_part k f rest m st e =
    run_star-append is_space (run local_part k) ((1, f.name) ∷ []) (codes " ") (local_text f rest)
      (refl, tt) refl (run-local_part k f rest m st e)

-- `fk_pattern` matches the text of a key, with the groups that the key says.
pub match-key_text :
    (f : PrintedKey) (rest : Text)
    → IsMatchable f
    → Stops is_space rest
    → match fk_pattern (key_text f rest) ≡ some (key_captures f, rest)
unfolding match fk_pattern run to_lower
match-key_text f rest m st =
    run-group_plus 1 (λ d. not (d == b']')) (run key_part (λ caps s. some (caps, s))) [] f.name
      (codes "] FOREIGN KEY " ++ local_text f rest) (m.0.0) (Lacks-AllIn b']' f.name (m.0.1)) refl
      (run-key_part (λ caps s. some (caps, s)) f rest m st refl)
