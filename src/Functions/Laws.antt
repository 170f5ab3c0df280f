-- ===== src/Functions/Laws.antt =====
-- What `func` finds under the names of the classes of sqlalchemy_cubrid/functions.py.
use sqlalchemy_cubrid.Package.{exports}
use sqlalchemy_cubrid.Functions.{
  Function, incr, decr, group_concat, nvl, nvl2, decode, if_, ifnull, class_name, sql_name,
  registrations, Func, find_function,
}
use sqlalchemy_cubrid.Prelude.Dict.{lookup, dict_of}
use sqlalchemy_cubrid.Prelude.{
  ◌≡◌, refl, sym, ap, ◌∙◌, true, Option, none, some, map, Text, codes, upper, lower, one_of,
  text_eq, arith,
}

abbrev pub found_by_func : Function → Option Function
found_by_func if_ = none
found_by_func f = some f

-- The name that `func` looks for.
unfoldable looked_for : Function → Text
unfolding class_name
looked_for if_ = codes "if"
looked_for f = class_name f

-- What a name finds among the registered classes.
abbrev registered_as : Text → Option Function
registered_as name = lookup (lower name) (dict_of (map (λ e. (lower e.0, e.1)) registrations))

looked_for-registered :
    (f : Function)
    → (registered_as (looked_for f) ≡ found_by_func f)
      × (one_of (class_name f) exports ≡ true)
      × (sql_name f ≡ upper (looked_for f))
unfolding registrations lookup dict_of lower looked_for class_name sql_name one_of exports upper
    text_eq
looked_for-registered incr = (refl, refl, refl)
looked_for-registered decr = (refl, refl, refl)
looked_for-registered group_concat = (refl, refl, refl)
looked_for-registered nvl = (refl, refl, refl)
looked_for-registered nvl2 = (refl, refl, refl)
looked_for-registered decode = (refl, refl, refl)
looked_for-registered if_ = (refl, refl, refl)
looked_for-registered ifnull = (refl, refl, refl)

module _ (func : Func) where
  looked_for-eq : (f : Function) → func.attribute_name (class_name f) ≡ looked_for f
  unfolding class_name looked_for
  looked_for-eq incr = func.keeps_other (codes "inc") b'r' (λ e. omega arith)
  looked_for-eq decr = func.keeps_other (codes "dec") b'r' (λ e. omega arith)
  looked_for-eq group_concat = func.keeps_other (codes "group_conca") b't' (λ e. omega arith)
  looked_for-eq nvl = func.keeps_other (codes "nv") b'l' (λ e. omega arith)
  looked_for-eq nvl2 = func.keeps_other (codes "nvl") b'2' (λ e. omega arith)
  looked_for-eq decode = func.keeps_other (codes "decod") b'e' (λ e. omega arith)
  looked_for-eq if_ = func.drops_underscore (codes "if")
  looked_for-eq ifnull = func.keeps_other (codes "ifnul") b'l' (λ e. omega arith)

  -- For any `func` that drops an underscore at the end of an attribute's name, as SQLAlchemy documents
  -- for reserved words, `func.<class name>` makes the class for each function but `if_`: `func.if_` looks
  -- for "if", which is not registered. Each class is exported by the package under its name, and its
  -- SQL name is what `func` looks for, in capitals.
  pub find_function-class_name :
      (f : Function)
      → (find_function func (class_name f) ≡ found_by_func f)
        × (one_of (class_name f) exports ≡ true)
        × (sql_name f ≡ upper (func.attribute_name (class_name f)))
  find_function-class_name f =
      let (found, exported, capitals) = looked_for-registered f in
      (
        func.find-registered registrations (func.attribute_name (class_name f))
            ∙ ap registered_as (looked_for-eq f)
            ∙ found,
        exported,
        capitals ∙ ap upper (sym (looked_for-eq f)),
      )
