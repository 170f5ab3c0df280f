-- ===== src/Reflect/Columns/Shown.antt =====
-- What the reflection of sqlalchemy_cubrid/dialect.py relies on in SHOW COLUMNS: the server that reads the
-- columns of CREATE TABLE and shows them again, with forms of its own for types and defaults.
use sqlalchemy_cubrid.Ddl.Columns.{Items, ReadColumn}
use sqlalchemy_cubrid.Reflect.Constraints.{is_yes}
use sqlalchemy_cubrid.Reflect.Columns.{ColumnRow, is_autoincrement}
use sqlalchemy_cubrid.Resolve.Pattern.{match_type}
use sqlalchemy_cubrid.Resolve.{lookup_type, type_map, type_args, TypeClass, Arg, resolve_type}
use sqlalchemy_cubrid.Sql.Quoted.{Quoting}
use sqlalchemy_cubrid.Prelude.{
  upper, strip, one_of, text_eq, sym, text_eq, ◌≡◌, refl, ap, ◌∙◌, ◌⊎◌, inl, inr, Bool, true, false,
  Option, none, some, List, [], Text, codes, if◌then◌else◌,
}

abbrev pub shown : (Text → Text) → Option Text → Option Text
shown form none = none
shown form (some t) = some (form t)

-- SHOW COLUMNS shows a type as it was written, or SHORT for SMALLINT and INTEGER for INT.
abbrev pub IsSpelling : Text → Text → Type 0
IsSpelling written spelled =
    (spelled ≡ written)
    ⊎ (((written ≡ codes "SMALLINT") × (spelled ≡ codes "SHORT"))
        ⊎ ((written ≡ codes "INT") × (spelled ≡ codes "INTEGER")))

-- How SHOW COLUMNS marks a column that counts.
abbrev pub IsExtra : Bool → Option Text → Type 0
IsExtra true extra = extra ≡ some (codes "auto_increment")
IsExtra false extra = (extra ≡ none) ⊎ (extra ≡ some [])

-- A server: the texts of types, defaults and comments and the names that it reads, and its SHOW COLUMNS,
-- which shows types and defaults in forms of its own.
pub record Server : Type 1 where
  pub items : Items
  pub quoting : Quoting
  pub show_type : Text → Text
  pub show_default : Text → Text
  pub show_column : ReadColumn → ColumnRow
  pub field-show : (c : ReadColumn) → (show_column c).field ≡ c.name
  pub type-show : (c : ReadColumn) → (show_column c).type_text ≡ show_type c.column_type
  pub null-show :
      (c : ReadColumn) → (show_column c).null ≡ (if c.nullable then codes "YES" else codes "NO")
  pub default-show : (c : ReadColumn) → (show_column c).default ≡ shown show_default c.default
  pub extra-show : (c : ReadColumn) → IsExtra c.auto_increment (show_column c).extra

pub is_yes-null : (b : Bool) → is_yes (if b then codes "YES" else codes "NO") ≡ b
unfolding text_eq
is_yes-null true = refl
is_yes-null false = refl

pub is_autoincrement-extra : (b : Bool) (e : Option Text) → IsExtra b e → is_autoincrement e ≡ b
unfolding is_autoincrement
is_autoincrement-extra true e h = rw h refl
is_autoincrement-extra false e (inl h) = rw h refl
is_autoincrement-extra false e (inr h) = rw h refl

pub resolve_type-spelling :
    (accepts : TypeClass → List Arg → Bool) (written spelled : Text)
    → IsSpelling written spelled
    → resolve_type accepts spelled ≡ resolve_type accepts written
unfolding resolve_type match_type upper strip lookup_type type_map type_args text_eq one_of
resolve_type-spelling accepts written spelled (inl e) = ap (resolve_type accepts) e
resolve_type-spelling accepts written spelled (inr (inl (p, q))) =
    ap (resolve_type accepts) q ∙ (smallint ∙ ap (resolve_type accepts) (sym p))
  where
    smallint : resolve_type accepts (codes "SHORT") ≡ resolve_type accepts (codes "SMALLINT")
    smallint = refl
resolve_type-spelling accepts written spelled (inr (inr (p, q))) =
    ap (resolve_type accepts) q ∙ (integer ∙ ap (resolve_type accepts) (sym p))
  where
    integer : resolve_type accepts (codes "INTEGER") ≡ resolve_type accepts (codes "INT")
    integer = refl
