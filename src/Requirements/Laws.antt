-- ===== src/Requirements/Laws.antt =====
-- What a requirement of sqlalchemy_cubrid/requirements.py is.
use sqlalchemy_cubrid.Prelude.Dict.{
  are_unique-IsUnique, are_unique, lookup, keys, IsUnique, lookup-dict_of,
}
use sqlalchemy_cubrid.Requirements.{declared, declared_or, requirement}
use sqlalchemy_cubrid.Prelude.{text_eq, ◌≡◌, refl, ap, Bool, Text, one_of}

declared-IsUnique : IsUnique (keys declared)
unfolding are_unique
declared-IsUnique = are_unique-IsUnique (keys declared) refl

-- A requirement is what the class says of it, wherever in the body it stands, or else what the base
-- class says.
pub requirement-lookup :
    (base : Text → Bool) (name : Text)
    → requirement base name ≡ declared_or (base name) (lookup name declared)
unfolding requirement one_of text_eq
requirement-lookup base name =
    ap (declared_or (base name)) (lookup-dict_of name declared declared-IsUnique)
