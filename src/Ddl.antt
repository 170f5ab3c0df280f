-- ===== src/Ddl.antt =====
-- `CubridDDLCompiler` of sqlalchemy_cubrid/compiler.py: column specifications, table options and
-- serials. Names, types, defaults and literals are rendered by SQLAlchemy and are texts here.
pub mod AutoIncrement
pub mod ByVersion
pub mod Columns
pub mod Indexes
pub mod SerialOptions
pub mod SerialText
pub mod Serials
use sqlalchemy_cubrid.Prelude.{
  show_int, suc, ℕ, Bool, true, false, not, ◌&&◌, ◌||◌, ◌==◌, Option, none, some, List, [], ◌∷◌,
  ◌++◌, Text, codes, join, ℤ, pos, negsuc, show_nat, if◌then◌else◌,
}
use sqlalchemy_cubrid.Version.{tuple_ge}

-- A column, as far as `get_column_specification` reads it.
pub record Column : Type 0 where
  pub id : ℕ
  pub name : Text
  pub column_type : Text
  pub has_sequence : Bool
  pub primary_key : Bool
  pub autoincrement_off : Bool
  pub is_integer : Bool
  pub has_server_default : Bool
  pub has_identity : Bool
  pub default : Option Text
  pub nullable : Bool
  pub comment : Option Text

-- `column.table is None or column is column.table._autoincrement_column`, where the first `Option` is
-- the table and the second its designated column.
unfoldable pub is_designated : Option (Option ℕ) → Column → Bool
is_designated none c = true
is_designated (some none) c = false
is_designated (some (some i)) c = c.id == i

-- The condition of AUTO_INCREMENT.
unfoldable pub is_auto_increment : Option (Option ℕ) → Column → Bool
unfolding is_designated
is_auto_increment table c =
    not c.has_sequence
    && (c.primary_key
        && (not c.autoincrement_off
            && (c.is_integer
                && ((not c.has_server_default || c.has_identity) && is_designated table c))))

abbrev pub given_text : Text → Option Text → Text
given_text prefix none = []
given_text prefix (some t) = prefix ++ t

-- `get_column_specification`
unfoldable pub get_column_specification : Option (Option ℕ) → Column → Text
unfolding is_auto_increment
get_column_specification table c =
    c.name
    ++ (codes " "
        ++ (c.column_type
            ++ ((if is_auto_increment table c then codes " AUTO_INCREMENT" else [])
                ++ (given_text (codes " DEFAULT ") c.default
                    ++ ((if c.nullable then [] else codes " NOT NULL")
                        ++ given_text (codes " COMMENT ") c.comment)))))

-- `visit_identity_column`: AUTO_INCREMENT stands for it.
abbrev pub visit_identity_column : Text
visit_identity_column = []

-- `post_create_table`, by the option, the version, and the rendered comment.
unfoldable pub post_create_table : Bool → List ℕ → Option Text → Text
unfolding tuple_ge join
post_create_table dont_reuse_oid version comment =
    let options =
      (if dont_reuse_oid && tuple_ge version (11 ∷ 0 ∷ []) then codes "DONT_REUSE_OID" ∷ [] else [])
      ++ (elim comment [ none ↦ [] | some c ↦ (codes "COMMENT=" ++ c) ∷ [] ]) in
    elim options [ [] ↦ [] | o ∷ os ↦ codes " " ++ join (codes " ") (o ∷ os) ]

-- The options of a `Sequence`.
pub record Sequence : Type 0 where
  pub start : Option ℤ
  pub increment : Option ℤ
  pub minvalue : Option ℤ
  pub nominvalue : Bool
  pub maxvalue : Option ℤ
  pub nomaxvalue : Bool
  pub cycle : Option Bool
  pub cache : Option ℤ

abbrev pub given_int : Text → Option ℤ → Text
given_int prefix none = []
given_int prefix (some n) = prefix ++ show_int n

abbrev pub limit_text : Text → Text → Option ℤ → Bool → Text
limit_text prefix without none false = []
limit_text prefix without none true = without
limit_text prefix without (some n) b = prefix ++ show_int n

abbrev pub cycle_text : Option Bool → Text
cycle_text none = []
cycle_text (some true) = codes " CYCLE"
cycle_text (some false) = codes " NOCYCLE"

-- `visit_create_sequence`, behind the formatted name.
unfoldable pub visit_create_sequence : Text → Sequence → Text
unfolding show_int
visit_create_sequence name s =
    codes "CREATE SERIAL "
    ++ (name
        ++ (given_int (codes " START WITH ") s.start
            ++ (given_int (codes " INCREMENT BY ") s.increment
                ++ (limit_text (codes " MINVALUE ") (codes " NOMINVALUE") s.minvalue s.nominvalue
                    ++ (limit_text (codes " MAXVALUE ") (codes " NOMAXVALUE") s.maxvalue
                          s.nomaxvalue
                        ++ (cycle_text s.cycle ++ given_int (codes " CACHE ") s.cache))))))

-- `visit_drop_sequence`
unfoldable pub visit_drop_sequence : Text → Text
visit_drop_sequence name = codes "DROP SERIAL IF EXISTS " ++ name
