-- ===== src/Engine.antt =====
-- `create_connect_args` of sqlalchemy_cubrid/dialect.py and `get_lastrowid` of sqlalchemy_cubrid/base.py.
-- What SQLAlchemy makes of a URL, its translated arguments and its query, is a parameter.
pub mod Laws
use mathlib.Core.List.{foldl}
use sqlalchemy_cubrid.Prelude.Dict.{lookup, set_item}
use sqlalchemy_cubrid.Prelude.{
  ℤ, pos, parse_int, Option, none, some, List, Text, codes, Result, ok, err, type_error,
  attribute_error, ◌>>=◌,
}

-- A value of the options: a text, a number, or a key of the query that stands more than once.
pub data OptionValue : Type 0 where
  text : Text → OptionValue
  number : ℤ → OptionValue
  texts : List Text → OptionValue

abbrev pub Options : Type 0
Options = List (Text × OptionValue)

-- `opts.update(query)`
unfoldable pub update : Options → Options → Options
unfolding set_item
update opts query = foldl (λ m e. set_item e.0 e.1 m) opts query

-- `opts.get(key, default)`
unfoldable pub get_option : Text → OptionValue → Options → OptionValue
unfolding lookup
get_option key default opts = elim (lookup key opts) [ none ↦ default | some v ↦ v ]

-- `int(value)`
unfoldable pub int_of : OptionValue → Result ℤ
unfolding parse_int
int_of (text s) = parse_int s
int_of (number n) = ok n
int_of (texts ts) = err type_error

-- `connect_args`
pub record ConnectArgs : Type 0 where
  pub host : OptionValue
  pub port : ℤ
  pub database : OptionValue
  pub user : OptionValue
  pub password : OptionValue

abbrev pub default_host : OptionValue
default_host = text (codes "localhost")

abbrev pub default_port : OptionValue
default_port = number (pos 33000)

abbrev pub default_user : OptionValue
default_user = text (codes "dba")

-- `create_connect_args`
unfoldable pub create_connect_args : Options → Options → Result ConnectArgs
unfolding update get_option int_of
create_connect_args translated query = do
  let opts = update translated query
  port ← int_of (get_option (codes "port") default_port opts)
  ok record {
    host = get_option (codes "host") default_host opts;
    port = port;
    database = get_option (codes "database") (text (codes "")) opts;
    user = get_option (codes "user") default_user opts;
    password = get_option (codes "password") (text (codes "")) opts;
  }

-- `get_lastrowid`, from what reading `cursor.lastrowid` gives.
unfoldable pub get_lastrowid : Result (Option ℤ) → Result (Option ℤ)
get_lastrowid (ok n) = ok n
get_lastrowid (err attribute_error) = ok none
get_lastrowid (err e) = err e
