-- ===== src/Sql/Lists.antt =====
-- Lists with commas between their items, as the statements of the package write them, and a reader.
use sqlalchemy_cubrid.Sql.{◌>>=◌, expect, expect-append}
use sqlalchemy_cubrid.Prelude.{
  All, ℕ, zero, suc, ◌≡◌, ◌≤◌, ap, ◌∙◌, Bool, true, Option, none, some, List, [], ◌∷◌, ◌++◌, map,
  append_assoc, arith, Text, codes, join, length,
}

module _ {A : Type 0} (read_item : Text → Option (A × Text)) where
  abbrev pub after_item :
      (Text → Option (List A × Text)) → A → Text → Option Text → Option (List A × Text)
  after_item more a s none = some (a ∷ [], s)
  after_item more a s (some t) = more t >>= λ r. some (a ∷ r.0, r.1)

  -- One item or more; the number bounds them.
  unfoldable pub read_list : ℕ → Text → Option (List A × Text)
  read_list zero s = none
  read_list (suc n) s =
      read_item s >>= λ r. after_item (read_list n) r.0 r.1 (expect (codes ", ") r.1)

-- Where each item can be read.
pub any-All : {A : Type 0} (xs : List A) → All (λ _. Unit {0}) xs
any-All [] = tt
any-All (x ∷ xs) = (tt, any-All xs)

-- What an item's text is, which items can be read, and what may follow one; a comma may.
module _ {A : Type 0} (IsItem : A → Type 0) (read_item : Text → Option (A × Text)) (text : A → Text)
    (ends : Text → Bool) (ends_comma : (t : Text) → ends (codes ", " ++ t) ≡ true)
    (read-text : (a : A) (rest : Text)
      → IsItem a
      → ends rest ≡ true
      → read_item (text a ++ rest) ≡ some (a, rest)) where
  joined-append :
      (a b : A) (bs : List A) (rest : Text)
      → join (codes ", ") (map text (a ∷ b ∷ bs)) ++ rest
        ≡ text a ++ (codes ", " ++ (join (codes ", ") (map text (b ∷ bs)) ++ rest))
  unfolding join
  joined-append a b bs rest = append_assoc (text a) _ rest

  pub read_list-join :
      (n : ℕ) (a : A) (bs : List A) (rest : Text)
      → All IsItem (a ∷ bs)
      → length bs ≤ n
      → ends rest ≡ true
      → expect (codes ", ") rest ≡ none
      → read_list read_item (suc n) (join (codes ", ") (map text (a ∷ bs)) ++ rest)
        ≡ some (a ∷ bs, rest)
  unfolding read_list
  read_list-join n a [] rest (i, is) h e no_more =
      unfold join in
      ap
        (λ o.
          o >>= λ r. after_item read_item (read_list read_item n) r.0 r.1 (expect (codes ", ") r.1))
        (read-text a rest i e)
      ∙ ap (after_item read_item (read_list read_item n) a rest) no_more
  read_list-join zero a (b ∷ bs) rest is h e no_more = absurd (omega arith)
  read_list-join (suc n) a (b ∷ bs) rest (i, is) h e no_more =
      let others = join (codes ", ") (map text (b ∷ bs)) ++ rest in
      ap (read_list read_item (suc (suc n))) (joined-append a b bs rest)
      ∙ (ap
            (λ o. o >>= λ r.
              after_item read_item (read_list read_item (suc n)) r.0 r.1 (expect (codes ", ") r.1))
            (read-text a (codes ", " ++ others) i (ends_comma others))
          ∙ (ap (after_item read_item (read_list read_item (suc n)) a (codes ", " ++ others))
                (expect-append (codes ", ") others)
              ∙ ap (λ o. o >>= λ r. some (a ∷ r.0, r.1))
                  (read_list-join n b bs rest is (omega arith) e no_more)))
