-- ===== src/Alembic.antt =====
-- sqlalchemy_cubrid/alembic_impl.py. What `DefaultImpl.compare_type` and Python's `repr` do is a
-- parameter.
pub mod Migrate
use sqlalchemy_cubrid.Collection.Process.{Kind, cubrid_set, cubrid_multiset, cubrid_list}
use sqlalchemy_cubrid.Resolve.{default_element, SaType, null_type, instance_of, collection, txt}
use sqlalchemy_cubrid.Prelude.{
  Bool, true, false, not, Option, none, some, List, [], ◌∷◌, ◌++◌, Text, codes, text_eq, strip,
  upper, if◌then◌else◌,
}

-- `isinstance(type_obj, _COLLECTION_CLASSES)`, with the kind and the `element_type`, which has a
-- default. A collection is made from at most one text.
unfoldable pub as_collection : SaType → Option (Kind × Text)
as_collection (instance_of (collection k) (txt element_type ∷ [])) = some (k, element_type)
as_collection (instance_of (collection k) []) = some (k, default_element)
as_collection _ = none

unfoldable pub same_kind : Kind → Kind → Bool
same_kind cubrid_set cubrid_set = true
same_kind cubrid_multiset cubrid_multiset = true
same_kind cubrid_list cubrid_list = true
same_kind _ _ = false

-- `str(element_type).strip().upper()`
unfoldable pub normal_element : Text → Text
unfolding strip upper
normal_element s = upper (strip s)

-- `CubridImpl.compare_type`: whether the type has changed.
unfoldable pub compare_type : (SaType → SaType → Bool) → SaType → SaType → Bool
unfolding as_collection same_kind normal_element
compare_type default conn meta = elim (as_collection conn) [
  | some (k, e) ↦ elim (as_collection meta) [
    | some (j, f) ↦
        if same_kind k j then not (text_eq (normal_element e) (normal_element f)) else true
    | none ↦ true
  ]
  | none ↦ elim (as_collection meta) [ some _ ↦ true | none ↦ default conn meta ]
]

abbrev pub class_name : Kind → Text
class_name cubrid_set = codes "CubridSet"
class_name cubrid_multiset = codes "CubridMultiset"
class_name cubrid_list = codes "CubridList"

-- `CubridImpl.render_type`: the import that is added and the text, or `None` for `False`.
unfoldable pub render_type : (Text → Text) → SaType → Option (Text × Text)
unfolding as_collection
render_type repr t = elim (as_collection t) [
  | none ↦ none
  | some (k, e) ↦ some (
    codes "from sqlalchemy_cubrid.types import " ++ class_name k,
    class_name k ++ (codes "(" ++ (repr e ++ codes ")")),
  )
]
