-- ===== src/Reflect/Objects/Query.antt =====
-- The queries of sqlalchemy_cubrid/dialect.py and sqlalchemy_cubrid/inheritance.py as a server reads them: SELECT
-- of one column or a count, from a table of the catalog, WHERE columns are equal to literals or to the
-- parameter, with or without ORDER BY.
use sqlalchemy_cubrid.Reflect.Objects.{Cell, text, number, Row}
use sqlalchemy_cubrid.Prelude.{
  ℕ, suc, Bool, true, false, ◌&&◌, ◌==◌, Option, none, some, List, [], ◌∷◌, Text, codes, text_eq,
  split, if◌then◌else◌,
}

pub record Query : Type 0 where
  pub item : Text
  pub table : Text
  pub conditions : List (Text × Text)

abbrev more : Text → Text × Text → Option (List (Text × Text)) → Option (List (Text × Text))
more word condition rest =
    if text_eq word (codes "AND")
    then (elim rest [ none ↦ none | some cs ↦ some (condition ∷ cs) ])
    else if text_eq word (codes "ORDER")
    then some (condition ∷ [])
    else none

-- The words behind WHERE.
unfoldable pub read_conditions : List Text → Option (List (Text × Text))
read_conditions (column ∷ equals ∷ value ∷ []) =
    if text_eq equals (codes "=") then some ((column, value) ∷ []) else none
read_conditions (column ∷ equals ∷ value ∷ word ∷ words) =
    let rest = read_conditions words in
    if text_eq equals (codes "=") then more word (column, value) rest else none
read_conditions _ = none

unfoldable pub read_words : List Text → Option Query
unfolding read_conditions
read_words (select ∷ item ∷ from ∷ table ∷ where_word ∷ words) =
    if text_eq select (codes "SELECT")
      && (text_eq from (codes "FROM") && text_eq where_word (codes "WHERE"))
    then (elim (read_conditions words) [
      | none ↦ none
      | some cs ↦ some record { item = item; table = table; conditions = cs }
    ])
    else none
read_words _ = none

unfoldable pub read_query : Text → Option Query
unfolding read_words split
read_query s = read_words (split b' ' s)

-- A literal without its quotes.
unfoldable pub until_quote : Text → Text
until_quote [] = []
until_quote (c ∷ s) = let rest = until_quote s in if c == b'\'' then [] else c ∷ rest

-- What a value stands for: the parameter, or a literal.
unfoldable pub value_of : Option Text → Text → Option Text
unfolding until_quote
value_of parameter [] = none
value_of parameter (c ∷ s) =
    if text_eq (c ∷ s) (codes ":name")
    then parameter
    else if c == b'\''
    then some (until_quote s)
    else none

abbrev equals_cell : Option Text → Cell → Bool
equals_cell (some v) (text t) = text_eq v t
equals_cell _ _ = false

-- Whether the row whose columns are given meets the conditions.
unfoldable pub meets : Option Text → (Text → Cell) → List (Text × Text) → Bool
unfolding value_of
meets parameter cells [] = true
meets parameter cells ((column, value) ∷ conditions) =
    equals_cell (value_of parameter value) (cells column) && meets parameter cells conditions

-- SELECT COUNT(*) WHERE, and SELECT WHERE.
unfoldable pub count : {A : Type 0} → (A → Bool) → List A → ℕ
count p [] = 0
count p (x ∷ xs) = if p x then suc (count p xs) else count p xs

unfoldable pub selected : {A B : Type 0} → (A → Bool) → (A → B) → List A → List B
selected p f [] = []
selected p f (x ∷ xs) = if p x then f x ∷ selected p f xs else selected p f xs

-- The answer from a table, by its rows and their columns.
unfoldable pub answer : {A : Type 0} → (A → Text → Cell) → List A → Option Text → Query → List Row
unfolding meets count selected
answer cells rows parameter q =
    if text_eq q.item (codes "COUNT(*)")
    then (number (count (λ r. meets parameter (cells r) q.conditions) rows) ∷ []) ∷ []
    else selected (λ r. meets parameter (cells r) q.conditions) (λ r. cells r q.item ∷ []) rows
