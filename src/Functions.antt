-- ===== src/Functions.antt =====
-- The SQL functions of sqlalchemy_cubrid/functions.py, and how SQLAlchemy's `func` finds them.
pub mod Laws
use sqlalchemy_cubrid.Prelude.Dict.{lookup, dict_of}
use sqlalchemy_cubrid.Prelude.{
  ℕ, ◌≡◌, ◌≢◌, Option, none, some, List, [], ◌∷◌, ◌++◌, map, Text, codes, lower,
}

-- The subclasses of `GenericFunction`.
pub data Function : Type 0 where
  incr decr group_concat nvl nvl2 decode if_ ifnull : Function

abbrev pub functions : List Function
functions = incr ∷ decr ∷ group_concat ∷ nvl ∷ nvl2 ∷ decode ∷ if_ ∷ ifnull ∷ []

-- `__name__`
unfoldable pub class_name : Function → Text
class_name incr = codes "incr"
class_name decr = codes "decr"
class_name group_concat = codes "group_concat"
class_name nvl = codes "nvl"
class_name nvl2 = codes "nvl2"
class_name decode = codes "decode"
class_name if_ = codes "if_"
class_name ifnull = codes "ifnull"

-- `name`
unfoldable pub sql_name : Function → Text
sql_name incr = codes "INCR"
sql_name decr = codes "DECR"
sql_name group_concat = codes "GROUP_CONCAT"
sql_name nvl = codes "NVL"
sql_name nvl2 = codes "NVL2"
sql_name decode = codes "DECODE"
sql_name if_ = codes "IF"
sql_name ifnull = codes "IFNULL"

pub data ReturnType : Type 0 where
  integer string unspecified : ReturnType

-- `type`, where the class has it.
unfoldable pub return_type : Function → ReturnType
return_type incr = integer
return_type decr = integer
return_type group_concat = string
return_type _ = unspecified

-- `identifier`, which is `name` where the class has none.
unfoldable pub identifier : Function → Text
unfolding sql_name
identifier if_ = codes "if_"
identifier f = sql_name f

-- What SQLAlchemy is given of the classes: the identifier under which each is registered.
unfoldable pub registrations : List (Text × Function)
unfolding identifier
registrations = map (λ f. (identifier f, f)) functions

-- SQLAlchemy's `func`: what it makes of an attribute's name, and the class that it finds under a name
-- among the registered ones. An underscore at the end is dropped, which is meant for Python's reserved
-- words, and any other name is kept; identifiers are compared without regard to case, and a later class
-- takes the place of an earlier one.
pub record Func : Type 0 where
  pub attribute_name : Text → Text
  pub find : List (Text × Function) → Text → Option Function
  pub drops_underscore : (s : Text) → attribute_name (s ++ codes "_") ≡ s
  pub keeps_other : (s : Text) (c : ℕ) → c ≢ b'_' → attribute_name (s ++ c ∷ []) ≡ s ++ c ∷ []
  pub find-registered :
      (entries : List (Text × Function)) (name : Text)
      → find entries name ≡ lookup (lower name) (dict_of (map (λ e. (lower e.0, e.1)) entries))

-- The class that `func.<attribute>` makes.
abbrev pub find_function : Func → Text → Option Function
find_function func s = func.find registrations (func.attribute_name s)
