-- ===== src/Dml/Render.antt =====
-- Which columns ON DUPLICATE KEY UPDATE assigns, and in which order.
use sqlalchemy_cubrid.Dml.{
  OnDuplicate, Column, find_column, ordered_columns, other_columns, columns_in_order, assignments,
  visit_on_duplicate_key_update, assignment_text,
}
use sqlalchemy_cubrid.Prelude.Dict.{lookup}
use sqlalchemy_cubrid.Prelude.{
  is_some, ◌≡◌, refl, ap, ◌∙◌, ◌⊎◌, inl, inr, Bool, true, false, not, ◌&&◌, ◌||◌, Option, none,
  some, List, [], ◌∷◌, ◌++◌, map, arith, Text, codes, join, text_eq, text_eq_iff, one_of,
  Bool-cases, Option-cases,
}

abbrev pub column_keys : List Column → List Text
column_keys cs = map (λ c. c.key) cs

-- The keys that are assigned, in order.
abbrev pub assigned : {V : Type 0} → List (Column × V) → List Text
assigned xs = map (λ a. a.0.key) xs

one_of-append : (k : Text) (xs ys : List Text) → one_of k (xs ++ ys) ≡ (one_of k xs || one_of k ys)
unfolding one_of
one_of-append k [] ys = refl
one_of-append k (x ∷ xs) ys = ground (arith, one_of-append k xs ys)

one_of-find_column :
    (k j : Text) (table : List Column)
    → one_of j (column_keys (find_column k table)) ≡ (text_eq j k && one_of k (column_keys table))
unfolding find_column one_of
one_of-find_column k j [] = ground arith
one_of-find_column k j (c ∷ cs) = ground (
  arith,
  text_eq_iff j k,
  text_eq_iff c.key k,
  text_eq_iff k c.key,
  text_eq_iff j c.key,
  one_of-find_column k j cs,
)

column_keys-append :
    (cs ds : List Column) → column_keys (cs ++ ds) ≡ column_keys cs ++ column_keys ds
column_keys-append [] ds = refl
column_keys-append (c ∷ cs) ds = ap (λ ks. c.key ∷ ks) (column_keys-append cs ds)

one_of-ordered_columns :
    (ks : List Text) (j : Text) (table : List Column)
    → one_of j (column_keys (ordered_columns ks table))
      ≡ (one_of j ks && one_of j (column_keys table))
unfolding ordered_columns one_of
one_of-ordered_columns [] j table = refl
one_of-ordered_columns (k ∷ ks) j table =
    rw (column_keys-append, one_of-append, one_of-find_column, one_of-ordered_columns ks j table)
      elim (Bool-cases (text_eq j k)) [
        | inl e ↦ rw ((text_eq_iff j k).0 e) (ground (arith, text_eq_iff k k))
        | inr e ↦ rw e (ground arith)
      ]

one_of-other_columns :
    (ks : List Text) (j : Text) (table : List Column)
    → one_of j (column_keys (other_columns ks table))
      ≡ (not (one_of j ks) && one_of j (column_keys table))
unfolding other_columns one_of
one_of-other_columns ks j [] = ground arith
one_of-other_columns ks j (c ∷ cs) =
    ground (arith, text_eq_iff j c.key, one_of-other_columns ks j cs)

-- The columns that are looked at are those of the table.
pub one_of-columns_in_order :
    (o : Option (List Text)) (j : Text) (table : List Column)
    → one_of j (column_keys (columns_in_order o table)) ≡ one_of j (column_keys table)
unfolding columns_in_order
one_of-columns_in_order none j table = refl
one_of-columns_in_order (some []) j table = refl
one_of-columns_in_order (some (k ∷ ks)) j table =
    rw
      (
        column_keys-append,
        one_of-append,
        one_of-ordered_columns (k ∷ ks) j table,
        one_of-other_columns (k ∷ ks) j table,
      )
      ground arith

assigned-cons :
    {V : Type 0} (update : List (Text × V)) (c : Column) (cs : List Column)
    → (lookup c.key update ≡ none) × (assignments update (c ∷ cs) ≡ assignments update cs)
      ⊎ (is_some (lookup c.key update) ≡ true)
        × (assigned (assignments update (c ∷ cs)) ≡ c.key ∷ assigned (assignments update cs))
unfolding assignments
assigned-cons update c cs = elim (Option-cases (lookup c.key update)) [
  | inl e ↦ inl (e, rw (e, assignments) refl)
  | inr e ↦ inr (rw (e.1) refl, rw (e.1, assignments) refl)
]

same_lookup :
    {V : Type 0} (update : List (Text × V)) (j k : Text)
    → text_eq j k ≡ true
    → is_some (lookup j update) ≡ is_some (lookup k update)
same_lookup update j k h = ap (λ i. is_some (lookup i update)) ((text_eq_iff j k).0 h)

skip_column : (a b c d : Bool) → (c ≡ true → a ≡ d) → d ≡ false → (a && b) ≡ (a && (c || b))
skip_column a b c d h e = ground arith

take_column : (a b c d : Bool) → (c ≡ true → a ≡ d) → d ≡ true → (c || (a && b)) ≡ (a && (c || b))
take_column a b c d h e = ground arith

-- The keys that are assigned are the updated ones among the table's.
pub one_of-assignments :
    {V : Type 0} (update : List (Text × V)) (j : Text) (cs : List Column)
    → one_of j (assigned (assignments update cs))
      ≡ (is_some (lookup j update) && one_of j (column_keys cs))
unfolding one_of assignments
one_of-assignments update j [] = ground arith
one_of-assignments update j (c ∷ cs) = elim (assigned-cons update c cs) [
  | inl h ↦
      ap (λ xs. one_of j (assigned xs)) (h.1)
      ∙ (one_of-assignments update j cs
          ∙ skip_column _ _ _ _ (same_lookup update j c.key) (ap is_some (h.0)))
  | inr h ↦
      ap (one_of j) (h.1)
      ∙ (ap (λ b. text_eq j c.key || b) (one_of-assignments update j cs)
          ∙ take_column _ _ _ _ (same_lookup update j c.key) (h.0))
]

-- `on_duplicate_key_update` assigns the columns that are both in the table and in the update, whatever
-- ordering was given, and no other.
pub visit_on_duplicate_key_update-keys :
    {V : Type 0} (quote : Text → Text) (process : V → Text) (table : List Column)
    (clause : OnDuplicate V)
    → (sets : List (Column × V)) × (visit_on_duplicate_key_update quote process table clause
        ≡ codes "ON DUPLICATE KEY UPDATE "
          ++ join (codes ", ") (map (assignment_text quote process) sets))
      × ((k : Text)
          → one_of k (assigned sets)
            ≡ (is_some (lookup k clause.update) && one_of k (column_keys table)))
unfolding visit_on_duplicate_key_update
visit_on_duplicate_key_update-keys quote process table clause = (
  assignments clause.update (columns_in_order clause.parameter_ordering table),
  refl,
  λ k.
      one_of-assignments clause.update k (columns_in_order clause.parameter_ordering table)
      ∙ ap (λ b. is_some (lookup k clause.update) && b)
          (one_of-columns_in_order clause.parameter_ordering k table),
)

nothing_assigned :
    {V : Type 0} (sets : List (Column × V))
    → ((k : Text) → one_of k (assigned sets) ≡ false)
    → sets ≡ []
unfolding one_of
nothing_assigned [] h = refl
nothing_assigned (a ∷ sets) h =
    let e = h (a.0.key) in ground (arith, text_eq_iff (a.0.key) (a.0.key))

-- If no key of the update is a column's, the clause has no assignment at all.
pub visit_on_duplicate_key_update-unknown :
    {V : Type 0} (quote : Text → Text) (process : V → Text) (table : List Column)
    (clause : OnDuplicate V)
    → ((k : Text) → (is_some (lookup k clause.update) && one_of k (column_keys table)) ≡ false)
    → visit_on_duplicate_key_update quote process table clause ≡ codes "ON DUPLICATE KEY UPDATE "
unfolding join
visit_on_duplicate_key_update-unknown quote process table clause h =
    let (sets, text, same) = visit_on_duplicate_key_update-keys quote process table clause in
    rw (text, nothing_assigned sets (λ k. same k ∙ h k)) refl
