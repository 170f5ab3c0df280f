-- ===== src/Isolation.antt =====
-- Transaction isolation in sqlalchemy_cubrid/dialect.py: `_ISOLATION_LEVEL_MAP`, `on_connect`,
-- `get_isolation_level`, `set_isolation_level`, `reset_isolation_level` and `do_ping`. The proofs
-- are in the modules below this one.
pub mod Laws
pub mod Reach
pub mod Recovery
use sqlalchemy_cubrid.Prelude.{
  ℕ, ◌+◌, ◌-◌, Bool, true, false, Option, none, some, List, [], ◌∷◌, ◌++◌, map, Text, codes,
  text_eq, show_nat, Result, ok, err, value_error, database_error, if◌then◌else◌,
}
use sqlalchemy_cubrid.Prelude.Action.{Action, pure, throw, modify, gets, finally, ◌>>=◌, ◌>>◌}

-- The DB-API connection: its `autocommit`, the attribute `_sa_isolation_level` (absent before
-- `on_connect`), the statements that the server accepted, and the cursors left open.
pub record Connection : Type 0 where
  pub autocommit : Bool
  pub sa_isolation_level : Option Text
  pub executed : List Text
  pub cursors : ℕ

-- What the driver and the server decide: whether a cursor can be had and a statement is accepted.
pub record Driver : Type 0 where
  pub gives_cursor : Connection → Bool
  pub accepts : Connection → Text → Bool

abbrev pub autocommit_level : Text
autocommit_level = codes "AUTOCOMMIT"

abbrev pub read_committed : Text
read_committed = codes "READ COMMITTED"

-- `_ISOLATION_LEVEL_MAP`
abbrev pub isolation_level_map : List (ℕ × Text)
isolation_level_map =
    (4, read_committed) ∷ (5, codes "REPEATABLE READ") ∷ (6, codes "SERIALIZABLE") ∷ []

code_in : Text → List (ℕ × Text) → Option ℕ
code_in level [] = none
code_in level ((code, name) ∷ rest) = if text_eq name level then some code else code_in level rest

-- `_ISOLATION_LEVEL_REVERSE.get(level)`
unfoldable pub isolation_code : Text → Option ℕ
unfolding code_in
isolation_code level = code_in level isolation_level_map

-- `get_isolation_level_values`
unfoldable pub isolation_level_values : List Text
isolation_level_values = autocommit_level ∷ map (λ entry. entry.1) isolation_level_map

-- `get_default_isolation_level`
unfoldable pub default_isolation_level : Text
default_isolation_level = read_committed

-- `get_isolation_level`
unfoldable pub get_isolation_level : Connection → Text
get_isolation_level c = elim c.sa_isolation_level [ none ↦ read_committed | some level ↦ level ]

-- `on_connect`
unfoldable pub on_connect : Connection → Connection
on_connect c = record c { autocommit = false; sa_isolation_level = some read_committed }

-- `getattr(dbapi_connection, "_sa_isolation_level", None) == "AUTOCOMMIT"`
unfoldable pub tracks_autocommit : Connection → Bool
tracks_autocommit c = elim c.sa_isolation_level [
  | none ↦ false
  | some level ↦ text_eq level autocommit_level
]

-- "SET TRANSACTION ISOLATION LEVEL %d"
unfoldable pub isolation_statement : ℕ → Text
isolation_statement code = codes "SET TRANSACTION ISOLATION LEVEL " ++ show_nat code

module _ (d : Driver) where
  -- `dbapi_connection.cursor()`
  unfoldable pub cursor : Action Connection Unit
  cursor c =
      if d.gives_cursor c
      then (ok tt, record c { cursors = c.cursors + 1 })
      else (err database_error, c)

  -- `cursor.execute(sql)`
  unfoldable pub execute : Text → Action Connection Unit
  execute sql c =
      if d.accepts c sql
      then (ok tt, record c { executed = c.executed ++ sql ∷ [] })
      else (err database_error, c)

  -- `cursor.close()`
  unfoldable pub close : Connection → Connection
  close c = record c { cursors = c.cursors - 1 }

  -- The part of `set_isolation_level` that is reached with a transactional level: the look-up, the
  -- statement and the new value of the attribute.
  unfoldable pub change_level : Text → Option ℕ → Action Connection Unit
  unfolding cursor execute close isolation_statement
  change_level level none = throw value_error
  change_level level (some code) = do
    cursor
    finally (execute (isolation_statement code)) close
    modify (λ c. record c { sa_isolation_level = some level })

  unfoldable pub set_isolation_level : Text → Action Connection Unit
  unfolding change_level tracks_autocommit isolation_code
  set_isolation_level level c =
      if text_eq level autocommit_level
      then (ok tt, record c { autocommit = true; sa_isolation_level = some autocommit_level })
      else change_level level (isolation_code level)
          (if tracks_autocommit c then record c { autocommit = false } else c)

  -- `do_ping`: the handler catches the driver's errors, and the cursor is closed before.
  unfoldable pub do_ping : Connection → Bool × Connection
  unfolding cursor execute close
  do_ping c =
      let (r, c') = (cursor >> finally (execute (codes "SELECT 1 FROM db_root")) close) c in
      (elim r [ ok _ ↦ true | err _ ↦ false ], c')

-- `reset_isolation_level`: the level of the engine if it has one, else the dialect's default.
-- `_assert_and_set_isolation_level` is SQLAlchemy's.
unfoldable pub reset_isolation_level :
    (Text → Action Connection Unit) → Option Text → Text → Action Connection Unit
reset_isolation_level assert_and_set none default = assert_and_set default
reset_isolation_level assert_and_set (some []) default = assert_and_set default
reset_isolation_level assert_and_set (some (c ∷ level)) default = assert_and_set (c ∷ level)
