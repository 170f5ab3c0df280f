-- ===== src/Reflect/ForeignKeys/Printed.antt =====
-- Foreign keys as SHOW CREATE TABLE prints them, for `get_foreign_keys` of
-- sqlalchemy_cubrid/dialect.py.
use sqlalchemy_cubrid.Regex.{Captures}
use sqlalchemy_cubrid.Prelude.{
  ℕ, ◌≢◌, Option, none, some, List, [], ◌∷◌, ◌++◌, map, Text, codes, join, Lacks,
}

-- What may stand behind ON DELETE and ON UPDATE.
pub data Action : Type 0 where
  cascade set_null no_action restrict : Action

abbrev pub action_text : Action → Text
action_text cascade = codes "CASCADE"
action_text set_null = codes "SET NULL"
action_text no_action = codes "NO ACTION"
action_text restrict = codes "RESTRICT"

-- A foreign key; the owner is the schema in front of the table's name, if one is printed.
pub record PrintedKey : Type 0 where
  pub name : Text
  pub columns : List Text
  pub owner : Option Text
  pub table : Text
  pub referred : List Text
  pub on_delete : Option Action
  pub on_update : Option Action

abbrev pub bracketed : Text → Text
bracketed c = b'[' ∷ (c ++ b']' ∷ [])

abbrev pub columns_text : List Text → Text
columns_text cs = join (codes ", ") (map bracketed cs)

abbrev pub on_text : Text → Option Action → Text → Text
on_text event none rest = rest
on_text event (some a) rest = codes " ON " ++ (event ++ (codes " " ++ (action_text a ++ rest)))

abbrev pub actions_text : Option Action → Option Action → Text → Text
actions_text d u rest = on_text (codes "DELETE") d (on_text (codes "UPDATE") u rest)

abbrev pub referred_text : Text → Text → Text
referred_text columns rest = codes "] (" ++ (columns ++ (codes ")" ++ rest))

abbrev pub table_text : Option Text → Text → Text → Text
table_text none table rest = table ++ rest
table_text (some owner) table rest = owner ++ b'.' ∷ (table ++ rest)

-- The text of a foreign key in front of a text.
abbrev pub key_text : PrintedKey → Text → Text
key_text f rest =
    codes "CONSTRAINT ["
    ++ (f.name
        ++ (codes "] FOREIGN KEY ("
            ++ (columns_text f.columns
                ++ (codes ") REFERENCES ["
                    ++ table_text f.owner f.table (
                        referred_text (columns_text f.referred)
                          (actions_text f.on_delete f.on_update rest))))))

-- The groups of its match.
abbrev pub action_captures : ℕ → Option Action → Captures → Captures
action_captures n none caps = caps
action_captures n (some a) caps = (n, action_text a) ∷ caps

abbrev pub key_captures : PrintedKey → Captures
key_captures f = action_captures 6 f.on_update (
    action_captures 5 f.on_delete (
      (4, columns_text f.referred) ∷ (3, f.table) ∷ (2, columns_text f.columns) ∷ (1, f.name) ∷ []))

-- What a key must be for its text to say what it is: names without the characters that end them.
abbrev pub IsName : Text → Type 0
IsName s = (s ≢ []) × Lacks b']' s

abbrev pub IsColumns : Text → Type 0
IsColumns s = (s ≢ []) × Lacks b')' s

abbrev pub IsOwner : Option Text → Type 0
IsOwner none = Unit
IsOwner (some owner) = IsName owner

abbrev pub IsMatchable : PrintedKey → Type 0
IsMatchable f =
    IsName f.name
    × IsColumns (columns_text f.columns)
    × IsOwner f.owner
    × (IsName f.table × Lacks b'.' f.table)
    × IsColumns (columns_text f.referred)
