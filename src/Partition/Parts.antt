-- ===== src/Partition/Parts.antt =====
-- The partitions in a statement of sqlalchemy_cubrid/partition.py, and a reader for them.
use sqlalchemy_cubrid.Sql.Groups.{balanced, read_group, read_group-balanced}
use sqlalchemy_cubrid.Sql.{◌>>=◌, expect, expect-append}
use sqlalchemy_cubrid.Sql.Quoted.{Quoting}
use sqlalchemy_cubrid.Prelude.{
  ℕ, zero, suc, ◌≡◌, ◌≤◌, refl, ap, ◌∙◌, true, false, Option, none, some, List, [], ◌∷◌, ◌++◌, map,
  append_assoc, arith, Text, codes, join, ◌==◌, All, length,
}

-- What follows a partition: a comma and more of them, or the closing bracket and the end.
abbrev pub after_part :
    (Text → Option (List (Text × Text))) → Text → Text → Text → Option (List (Text × Text))
after_part more name inner [] = none
after_part more name inner (c ∷ s) = elim (c == b',') [
  | false ↦ elim s [ [] ↦ some ((name, inner) ∷ []) | d ∷ t ↦ none ]
  | true ↦ do s ← expect (codes " ") s; parts ← more s; some ((name, inner) ∷ parts)
]

module _ (quoting : Quoting) where
  -- PARTITION name keyword (…), …) up to the end of the statement: each name with its text. The
  -- number bounds the partitions.
  unfoldable pub read_parts : Text → ℕ → Text → Option (List (Text × Text))
  read_parts keyword zero s = none
  read_parts keyword (suc n) s = do
    s ← expect (codes "PARTITION ") s
    (name, s) ← quoting.read_identifier s
    s ← expect keyword s
    (inner, s) ← read_group 0 [] s
    after_part (read_parts keyword n) name inner s

  -- ALTER TABLE table PARTITION BY method (column) and what stands behind it.
  unfoldable pub read_head : Text → Text → Option (Text × Text × Text)
  read_head method s = do
    s ← expect (codes "ALTER TABLE ") s
    (table, s) ← quoting.read_identifier s
    s ← expect (codes " PARTITION BY ") s
    s ← expect method s
    s ← expect (codes " (") s
    (column, s) ← quoting.read_identifier s
    s ← expect (codes ")") s
    some (table, column, s)

  abbrev pub part_text : Text → Text × Text → Text
  part_text kw (name, inner) =
      codes "PARTITION " ++ (quoting.quote_identifier name ++ (b' ' ∷ kw ++ (inner ++ codes ")")))

  abbrev pub parts_text : Text → List (Text × Text) → Text
  parts_text kw parts = join (codes ", ") (map (part_text kw) parts)

  part_text-append :
      (kw name inner rest : Text)
      → part_text kw (name, inner) ++ rest
        ≡ codes "PARTITION "
          ++ (quoting.quote_identifier name ++ (b' ' ∷ kw ++ (inner ++ b')' ∷ rest)))
  part_text-append kw name inner rest = simp (append_assoc)

  read_parts-part_text :
      (kw : Text) (n : ℕ) (name inner rest : Text)
      → balanced 0 inner ≡ true
      → read_parts (b' ' ∷ kw) (suc n) (part_text kw (name, inner) ++ rest)
        ≡ after_part (read_parts (b' ' ∷ kw) n) name inner rest
  unfolding read_parts
  read_parts-part_text kw n name inner rest h =
      ap (read_parts (b' ' ∷ kw) (suc n)) (part_text-append kw name inner rest)
      ∙ rw
          (
            expect-append (codes "PARTITION ") _,
            quoting.read-quote name _ refl,
            expect-append (b' ' ∷ kw) _,
            read_group-balanced 0 [] inner rest h,
          )
          refl

  pub read_parts-parts_text :
      (kw : Text) (n : ℕ) (p : Text × Text) (ps : List (Text × Text))
      → length ps ≤ n
      → All (λ p. balanced 0 p.1 ≡ true) (p ∷ ps)
      → read_parts (b' ' ∷ kw) (suc n) (parts_text kw (p ∷ ps) ++ codes ")") ≡ some (p ∷ ps)
  unfolding join read_parts expect
  read_parts-parts_text kw n p [] h (hp, hs) = read_parts-part_text kw n p.0 p.1 (codes ")") hp
  read_parts-parts_text kw zero p (q ∷ ps) h (hp, hs) = absurd (omega arith)
  read_parts-parts_text kw (suc n) p (q ∷ ps) h (hp, hs) =
      ap (read_parts (b' ' ∷ kw) (suc (suc n)))
        (append_assoc (part_text kw p) (codes ", " ++ parts_text kw (q ∷ ps)) (codes ")"))
      ∙ (read_parts-part_text kw (suc n) p.0 p.1
            (codes ", " ++ (parts_text kw (q ∷ ps) ++ codes ")")) hp
          ∙ ap (λ o. o >>= λ parts. some (p ∷ parts))
              (read_parts-parts_text kw n q ps (omega arith) hs))

  pub read_head_lem :
      (method table column rest : Text)
      → read_head method (
          codes "ALTER TABLE "
          ++ (quoting.quote_identifier table
              ++ (codes " PARTITION BY "
                  ++ (method
                      ++ (codes " ("
                          ++ (quoting.quote_identifier column ++ (codes ")" ++ rest)))))))
        ≡ some (table, column, rest)
  unfolding read_head
  read_head_lem method table column rest =
      rw
        (
          expect-append (codes "ALTER TABLE ") _,
          quoting.read-quote table _ refl,
          expect-append (codes " PARTITION BY ") _,
          expect-append method _,
          expect-append (codes " (") _,
          quoting.read-quote column _ refl,
          expect-append (codes ")") rest,
        )
        refl
