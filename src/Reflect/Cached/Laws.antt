-- ===== src/Reflect/Cached/Laws.antt =====
-- What the cache of `has_index` and `has_sequence` in sqlalchemy_cubrid/dialect.py keeps.
use sqlalchemy_cubrid.Reflect.Constraints.{Index}
use sqlalchemy_cubrid.Reflect.Cached.{
  answer_fresh, Cache, cached, store, any_named, indexes_or_none, has_index,
}
use sqlalchemy_cubrid.Prelude.Dict.{set_item, lookup-upsert}
use sqlalchemy_cubrid.Prelude.{
  ap, ◌∙◌, subst, sym, ◌≡◌, refl, inl, inr, Bool, true, none, some, is_some, List, Text,
  text_eq_iff, Result, ok, err, Option-cases,
}

cached-store :
    {A : Type 0} (key : Text) (a : A) (c : Cache A)
    → is_some c ≡ true
    → cached key (store key a c) ≡ some a
unfolding cached store set_item
cached-store key a none h = cc
cached-store key a (some m) h =
    rw (lookup-upsert key key a (λ b. a) m, (text_eq_iff key key).1 refl) refl

has_index-cached :
    (get_indexes : Cache (List Index) → Result (List Index) × Cache (List Index)) (key name : Text)
    (is : List Index) (c : Cache (List Index))
    → cached key c ≡ some is
    → has_index get_indexes key name c ≡ (ok (any_named name is), c)
unfolding has_index
has_index-cached get_indexes key name is c h = rw (h, has_index) refl

answer_fresh-keeps :
    (key name : Text) (r : Result (List Index)) (kept after : Cache (List Index)) (b : Bool)
    → is_some kept ≡ true
    → answer_fresh key name r kept ≡ (ok b, after)
    → (is : List Index) × (b ≡ any_named name is) × (cached key after ≡ some is)
unfolding answer_fresh
answer_fresh-keeps key name (err e) kept after b k h = cc
answer_fresh-keeps key name (ok is) kept after b k h =
    (is, cc, subst (λ c. cached key c ≡ some is) (ap (λ p. p.1) h) (cached-store key is kept k))

has_index-keeps :
    (get_indexes : Cache (List Index) → Result (List Index) × Cache (List Index)) (key name : Text)
    (c after : Cache (List Index)) (b : Bool)
    → is_some ((get_indexes c).1) ≡ true
    → has_index get_indexes key name c ≡ (ok b, after)
    → (is : List Index) × (b ≡ any_named name is) × (cached key after ≡ some is)
unfolding has_index
has_index-keeps get_indexes key name c after b k h = elim (Option-cases (cached key c)) [
  | inr (is, e) ↦
      let p = sym (has_index-cached get_indexes key name is c e) ∙ h in
      (is, cc, subst (λ d. cached key d ≡ some is) (ap (λ q. q.1) p) e)
  | inl e ↦
      answer_fresh-keeps key name (indexes_or_none ((get_indexes c).0)) ((get_indexes c).1) after b
        k (sym (rw (e, has_index) refl) ∙ h)
]

-- With a cache that `get_indexes` leaves in place, a call of `has_index` that returns has read one
-- list of indexes and stored it, the empty list where the table is missing or cannot be read: from
-- then on each call for the table, about any index, answers from that list, without a query.
pub has_index-again :
    (get_indexes : Cache (List Index) → Result (List Index) × Cache (List Index)) (key name : Text)
    (c : Cache (List Index)) (b : Bool) (after : Cache (List Index))
    → is_some ((get_indexes c).1) ≡ true
    → has_index get_indexes key name c ≡ (ok b, after)
    → (is : List Index) × (b ≡ any_named name is)
      × ((later : Cache (List Index) → Result (List Index) × Cache (List Index)) (other : Text)
          → has_index later key other after ≡ (ok (any_named other is), after))
has_index-again get_indexes key name c b after k h =
    let (is, same, stored) = has_index-keeps get_indexes key name c after b k h in
    (is, same, λ later other. has_index-cached later key other is after stored)
