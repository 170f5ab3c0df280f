-- ===== src/Alembic/Migrate.antt =====
-- What a migration sees of collection columns: sqlalchemy_cubrid/alembic_impl.py on types that the
-- dialect reflects.
use sqlalchemy_cubrid.Alembic.{as_collection, same_kind, normal_element, compare_type}
use sqlalchemy_cubrid.Collection.Process.{Kind, cubrid_set, cubrid_multiset, cubrid_list}
use sqlalchemy_cubrid.Resolve.{
  TypeClass, Arg, SaType, instance_of, collection, txt, get_col_spec, resolve_type,
}
use sqlalchemy_cubrid.Resolve.Pattern.{NoNewline}
use sqlalchemy_cubrid.Resolve.Laws.{resolve_type-get_col_spec}
use sqlalchemy_cubrid.Prelude.{
  if◌then◌else◌, ◌≡◌, ◌≢◌, refl, ◌↔◌, Bool, true, false, not, List, [], ◌∷◌, Text, text_eq,
  text_eq_iff, strip, upper, ok, arith,
}

same_kind_refl : (k : Kind) → same_kind k k ≡ true
unfolding same_kind
same_kind_refl cubrid_set = refl
same_kind_refl cubrid_multiset = refl
same_kind_refl cubrid_list = refl

same_kind_sound : (k j : Kind) → same_kind k j ≡ true → k ≡ j
unfolding same_kind
same_kind_sound cubrid_set cubrid_set h = refl
same_kind_sound cubrid_multiset cubrid_multiset h = refl
same_kind_sound cubrid_list cubrid_list h = refl
same_kind_sound cubrid_set cubrid_multiset h = cc
same_kind_sound cubrid_set cubrid_list h = cc
same_kind_sound cubrid_multiset cubrid_set h = cc
same_kind_sound cubrid_multiset cubrid_list h = cc
same_kind_sound cubrid_list cubrid_set h = cc
same_kind_sound cubrid_list cubrid_multiset h = cc

abbrev pub collection_of : Kind → Text → SaType
collection_of k e = instance_of (collection k) (txt e ∷ [])

unchanged : (a b : Bool) → (if a then not b else true) ≡ false → (a ≡ true) × (b ≡ true)
unchanged a b h = ground arith

-- Two collection types are taken for the same exactly when they are of one class and their element
-- types differ in nothing but letter case and surrounding space.
pub compare_type_iff :
    (default : SaType → SaType → Bool) (k j : Kind) (e f : Text)
    → (compare_type default (collection_of k e) (collection_of j f) ≡ false)
      ↔ ((k ≡ j) × (upper (strip e) ≡ upper (strip f)))
unfolding compare_type as_collection normal_element
compare_type_iff default k j e f = (
  λ h.
      let both = unchanged (same_kind k j) (text_eq (upper (strip e)) (upper (strip f))) h in
      (same_kind_sound k j (both.0), (text_eq_iff (upper (strip e)) (upper (strip f))).0 (both.1)),
  λ (h, same).
      rw (h, same_kind_refl j, (text_eq_iff (upper (strip e)) (upper (strip f))).1 same) refl,
)

-- After `create_all` a migration sees no change in a collection column: the type that the DDL name
-- reflects as compares equal to the one in the model, in any spelling that differs in letter case
-- and surrounding space only.
pub compare_type-get_col_spec :
    (accepts : TypeClass → List Arg → Bool) (default : SaType → SaType → Bool) (k : Kind)
    (e f : Text)
    → e ≢ []
    → NoNewline e
    → accepts (collection k) (txt e ∷ []) ≡ true
    → upper (strip e) ≡ upper (strip f)
    → (t : SaType) × (resolve_type accepts (get_col_spec k e) ≡ ok t)
      × (compare_type default t (collection_of k f) ≡ false)
compare_type-get_col_spec accepts default k e f n l a same = (
  collection_of k e,
  resolve_type-get_col_spec accepts k e n l a,
  (compare_type_iff default k k e f).1 (refl, same),
)
