-- ===== src/Partition/ReadBack.antt =====
-- What a server reads out of the statements of sqlalchemy_cubrid/partition.py.
use sqlalchemy_cubrid.Sql.Groups.{balanced}
use sqlalchemy_cubrid.Partition.Parts.{
  read_parts, read_head, part_text, parts_text, read_parts-parts_text, read_head_lem,
}
use sqlalchemy_cubrid.Sql.{◌>>=◌, expect, expect-append, read_number, read_number-show_nat}
use sqlalchemy_cubrid.Sql.Quoted.{Quoting}
use sqlalchemy_cubrid.Partition.{
  RangePartition, ListPartition, range_part, visit_partition_by_range, visit_partition_by_hash,
  list_part, visit_partition_by_list,
}
use sqlalchemy_cubrid.Prelude.{
  sym, ℕ, zero, suc, pos, show_int, show_nat, ◌≡◌, ◌≤◌, refl, ap, ◌∙◌, true, Option, none, some,
  List, [], ◌∷◌, ◌++◌, map, append-nil, arith, Text, codes, join, All, length,
}

length-pairs :
    {A : Type 0} (f : A → Text × Text) (xs : List A) (n : ℕ) → length xs ≤ n → length (map f xs) ≤ n
length-pairs f [] n h = h
length-pairs f (x ∷ xs) zero h = absurd (omega arith)
length-pairs f (x ∷ xs) (suc n) h = omega (arith, length-pairs f xs n (omega arith))

All-pairs :
    {A : Type 0} (P : Text × Text → Type 0) (f : A → Text × Text) (xs : List A)
    → All (λ x. P (f x)) xs
    → All P (map f xs)
All-pairs P f [] h = tt
All-pairs P f (x ∷ xs) (hx, h) = (hx, All-pairs P f xs h)

-- What a server makes of the statement: the table, the column and the partitions.
pub data Scheme : Type 0 where
  range_scheme list_scheme : List (Text × Text) → Scheme
  hash_scheme : ℕ → Scheme

abbrev pub scheme_of :
    Text
    → Text
    → (List (Text × Text) → Scheme)
    → Option (List (Text × Text))
    → Option (Text × Text × Scheme)
scheme_of table column make none = none
scheme_of table column make (some parts) = some (table, column, make parts)

abbrev pub hash_of : Text → Text → ℕ × Text → Option (Text × Text × Scheme)
hash_of table column (n, []) = some (table, column, hash_scheme n)
hash_of table column (n, c ∷ s) = none

module _ (quoting : Quoting) where
  -- A reader for each statement; the number bounds the partitions.
  unfoldable pub read_range : ℕ → Text → Option (Text × Text × Scheme)
  read_range fuel s = do
    (table, column, s) ← read_head quoting (codes "RANGE") s
    s ← expect (codes " (") s
    scheme_of table column range_scheme (read_parts quoting (codes " VALUES LESS THAN (") fuel s)

  unfoldable pub read_list : ℕ → Text → Option (Text × Text × Scheme)
  read_list fuel s = do
    (table, column, s) ← read_head quoting (codes "LIST") s
    s ← expect (codes " (") s
    scheme_of table column list_scheme (read_parts quoting (codes " VALUES IN (") fuel s)

  unfoldable pub read_hash : Text → Option (Text × Text × Scheme)
  read_hash s = do
    (table, column, s) ← read_head quoting (codes "HASH") s
    s ← expect (codes " PARTITIONS ") s
    hash_of table column (read_number 0 s)

  range_parts :
      (ps : List RangePartition)
      → map (range_part quoting.quote_identifier) ps
        ≡ map (part_text quoting (codes "VALUES LESS THAN (")) (map (λ p. (p.name, p.less_than)) ps)
  unfolding range_part
  range_parts [] = refl
  range_parts (p ∷ ps) = ap (λ ts. range_part quoting.quote_identifier p ∷ ts) (range_parts ps)

  list_parts :
      (ps : List ListPartition)
      → map (list_part quoting.quote_identifier) ps
        ≡ map
            (part_text quoting (codes "VALUES IN ("))
            (map (λ p. (p.name, join (codes ", ") p.values)) ps)
  unfolding list_part
  list_parts [] = refl
  list_parts (p ∷ ps) = ap (λ ts. list_part quoting.quote_identifier p ∷ ts) (list_parts ps)

  abbrev statement_text : Text → Text → Text → List Text → Text
  statement_text method table column ts =
      codes "ALTER TABLE "
      ++ (quoting.quote_identifier table
          ++ (codes " PARTITION BY "
              ++ (method
                  ++ (codes " ("
                      ++ (quoting.quote_identifier column
                          ++ (codes ") (" ++ (join (codes ", ") ts ++ codes ")")))))))

  read_range-parts :
      (table column : Text) (fuel : ℕ) (p : Text × Text) (ps : List (Text × Text))
      → length ps ≤ fuel
      → All (λ p. balanced 0 p.1 ≡ true) (p ∷ ps)
      → read_range (suc fuel) (
          codes "ALTER TABLE "
          ++ (quoting.quote_identifier table
              ++ (codes " PARTITION BY RANGE ("
                  ++ (quoting.quote_identifier column
                      ++ (codes ") ("
                          ++ (parts_text quoting (codes "VALUES LESS THAN (") (p ∷ ps)
                              ++ codes ")"))))))
        ≡ some (table, column, range_scheme (p ∷ ps))
  unfolding read_range
  read_range-parts table column fuel p ps f h =
      rw
        (
          read_head_lem quoting (codes "RANGE") table column _,
          expect-append (codes " (") _,
          read_parts-parts_text quoting (codes "VALUES LESS THAN (") fuel p ps f h,
        )
        refl

  read_list-parts :
      (table column : Text) (fuel : ℕ) (p : Text × Text) (ps : List (Text × Text))
      → length ps ≤ fuel
      → All (λ p. balanced 0 p.1 ≡ true) (p ∷ ps)
      → read_list (suc fuel) (
          codes "ALTER TABLE "
          ++ (quoting.quote_identifier table
              ++ (codes " PARTITION BY LIST ("
                  ++ (quoting.quote_identifier column
                      ++ (codes ") ("
                          ++ (parts_text quoting (codes "VALUES IN (") (p ∷ ps) ++ codes ")"))))))
        ≡ some (table, column, list_scheme (p ∷ ps))
  unfolding read_list
  read_list-parts table column fuel p ps f h =
      rw
        (
          read_head_lem quoting (codes "LIST") table column _,
          expect-append (codes " (") _,
          read_parts-parts_text quoting (codes "VALUES IN (") fuel p ps f h,
        )
        refl

  -- ALTER TABLE … PARTITION BY says what it was made from, for any way to quote names that can be read:
  -- the table, the column, and each partition with its name and bound, each with its name and values, or
  -- the number of partitions. There is at least one partition, bounds and values close the brackets
  -- that they open, and the number is not negative; a reader's bound is enough if it is at least the
  -- number of partitions.
  pub read-visit_partition :
      (table column : Text) (r : RangePartition) (rs : List RangePartition) (l : ListPartition)
      (ls : List ListPartition) (count fuel : ℕ)
      → All (λ p. balanced 0 p.less_than ≡ true) (r ∷ rs)
      → All (λ p. balanced 0 (join (codes ", ") p.values) ≡ true) (l ∷ ls)
      → length rs ≤ fuel
      → length ls ≤ fuel
      → (read_range (suc fuel) (
            visit_partition_by_range quoting.quote_identifier
              record { table_name = table; column = column; partitions = r ∷ rs })
          ≡ some (table, column, range_scheme (map (λ p. (p.name, p.less_than)) (r ∷ rs))))
        × (read_list (suc fuel) (
              visit_partition_by_list quoting.quote_identifier
                record { table_name = table; column = column; partitions = l ∷ ls })
            ≡ some (
              table,
              column,
              list_scheme (map (λ p. (p.name, join (codes ", ") p.values)) (l ∷ ls)),
            ))
        × (read_hash (
              visit_partition_by_hash quoting.quote_identifier
                record { table_name = table; column = column; partitions = pos count })
            ≡ some (table, column, hash_scheme count))
  unfolding visit_partition_by_range visit_partition_by_list visit_partition_by_hash show_int
      read_hash
  read-visit_partition table column r rs l ls count fuel hr hl fr fl = (
    ap (λ ts. read_range (suc fuel) (statement_text (codes "RANGE") table column ts))
          (range_parts (r ∷ rs))
        ∙ read_range-parts table column fuel (r.name, r.less_than)
            (map (λ p. (p.name, p.less_than)) rs)
            (length-pairs (λ p. (p.name, p.less_than)) rs fuel fr)
            (All-pairs (λ p. balanced 0 p.1 ≡ true) (λ p. (p.name, p.less_than)) (r ∷ rs) hr),
    ap (λ ts. read_list (suc fuel) (statement_text (codes "LIST") table column ts))
          (list_parts (l ∷ ls))
        ∙ read_list-parts table column fuel (l.name, join (codes ", ") l.values)
            (map (λ p. (p.name, join (codes ", ") p.values)) ls)
            (length-pairs (λ p. (p.name, join (codes ", ") p.values)) ls fuel fl)
            (All-pairs (λ p. balanced 0 p.1 ≡ true) (λ p. (p.name, join (codes ", ") p.values))
              (l ∷ ls) hl),
    rw (read_head_lem quoting (codes "HASH") table column _, expect-append (codes " PARTITIONS ") _)
        (ap (hash_of table column) (
          ap (read_number 0) (sym (append-nil (show_nat count)))
          ∙ read_number-show_nat count [] tt)),
  )
