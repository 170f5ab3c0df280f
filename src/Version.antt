-- ===== src/Version.antt =====
-- Server versions in sqlalchemy_cubrid/dialect.py: `_get_server_version_info`, `initialize`, tuple
-- comparison, and what depends on the version.
pub mod Laws
use sqlalchemy_cubrid.Prelude.{
  ℕ, zero, Bool, true, false, ◌&&◌, ◌||◌, Option, none, some, List, [], ◌∷◌, ◌++◌, Text, codes,
  split, is_digit, value, one_of, Result, ok, err, assertion_error, ltb, ◌==◌, if◌then◌else◌,
}

-- The longest prefix of digits, which is what `\d+` matches.
unfoldable pub leading_digits : Text → Text
leading_digits [] = []
leading_digits (c ∷ s) = let rest = leading_digits s in if is_digit c then c ∷ rest else []

-- `int(match.group(1))`, if `re.match(r"(\d+)", x)` matches.
unfoldable pub leading_int : Text → Option ℕ
unfolding leading_digits
leading_int x = elim (leading_digits x) [ [] ↦ none | c ∷ s ↦ some (value 0 (c ∷ s)) ]

-- The loop over the parts.
unfoldable pub version_parts : List Text → List ℕ
unfolding leading_int
version_parts [] = []
version_parts (x ∷ xs) = elim (leading_int x) [
  | none ↦ version_parts xs
  | some n ↦ n ∷ version_parts xs
]

abbrev pub or_zero : List ℕ → List ℕ
or_zero [] = 0 ∷ []
or_zero (n ∷ ns) = n ∷ ns

-- `_get_server_version_info`, from the string that the driver gives.
unfoldable pub server_version_info : Text → List ℕ
unfolding version_parts split
server_version_info version = or_zero (version_parts (split b'.' version))

-- `initialize`: `self.server_version_info or (0,)`, where SQLAlchemy may have left no version.
unfoldable pub cubrid_version : Option (List ℕ) → List ℕ
cubrid_version none = 0 ∷ []
cubrid_version (some v) = or_zero v

-- `a >= b` on tuples of numbers.
unfoldable pub tuple_ge : List ℕ → List ℕ → Bool
tuple_ge a [] = true
tuple_ge [] (n ∷ b) = false
tuple_ge (m ∷ a) (n ∷ b) = ltb n m || m == n && tuple_ge a b

-- `_serial_attr_column`
unfoldable pub serial_attr_column : List ℕ → Text
unfolding tuple_ge
serial_attr_column version =
    if tuple_ge version (11 ∷ 4 ∷ []) then codes "attr_name" else codes "att_name"

-- The statement of `get_sequence_names`, behind its assertion.
unfoldable pub sequence_names_statement : List ℕ → Result Text
unfolding serial_attr_column one_of
sequence_names_statement version =
    let attr_col = serial_attr_column version in
    if one_of attr_col (codes "att_name" ∷ codes "attr_name" ∷ [])
    then ok
        (codes "SELECT name FROM db_serial WHERE " ++ (attr_col ++ codes " IS NULL ORDER BY name"))
    else err assertion_error
