-- ===== src/Ddl/AutoIncrement.antt =====
-- Which columns of a table AUTO_INCREMENT goes to: `get_column_specification` of
-- sqlalchemy_cubrid/compiler.py over the columns of one table.
use sqlalchemy_cubrid.Ddl.{suc, Column, is_designated, is_auto_increment}
use sqlalchemy_cubrid.Prelude.{
  inr, ==_iff, subst, inl, Bool-cases, if◌then◌else◌, ◌≤◌, ℕ, ◌≡◌, ◌≢◌, refl, Option, none, some,
  List, [], ◌∷◌, All, ◌==◌, arith,
}

-- No two columns are the same object.
abbrev pub AreDistinct : List Column → Type 0
AreDistinct [] = Unit
AreDistinct (c ∷ cs) = All (λ d. d.id ≢ c.id) cs × AreDistinct cs

-- How many columns are written with AUTO_INCREMENT.
unfoldable pub count_auto_increment : Option ℕ → List Column → ℕ
unfolding is_auto_increment
count_auto_increment i [] = 0
count_auto_increment i (c ∷ cs) =
    let rest = count_auto_increment i cs in if is_auto_increment (some i) c then suc rest else rest

others_not_designated :
    (i : ℕ) (cs : List Column) → All (λ d. d.id ≢ i) cs → count_auto_increment (some i) cs ≡ 0
unfolding count_auto_increment is_designated
others_not_designated i [] h = refl
others_not_designated i (c ∷ cs) (hc, hs) = ground (arith, others_not_designated i cs hs)

none_designated : (cs : List Column) → count_auto_increment none cs ≡ 0
unfolding count_auto_increment is_designated
none_designated [] = refl
none_designated (c ∷ cs) = ground (arith, none_designated cs)

-- At most one column of a table is written with AUTO_INCREMENT, where the columns are distinct.
pub count_auto_increment_bound :
    (i : Option ℕ) (cs : List Column) → AreDistinct cs → count_auto_increment i cs ≤ 1
unfolding count_auto_increment is_designated
count_auto_increment_bound none cs h = ground (arith, none_designated cs)
count_auto_increment_bound (some i) [] h = omega arith
count_auto_increment_bound (some i) (c ∷ cs) (hc, hs) = elim (Bool-cases (c.id == i)) [
  | inl e ↦ ground (
    arith,
    others_not_designated i cs (subst (λ j. All (λ d. d.id ≢ j) cs) ((==_iff c.id i).0 e) hc),
  )
  | inr n ↦ ground (arith, count_auto_increment_bound (some i) cs hs)
]
