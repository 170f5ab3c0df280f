-- ===== src/Ddl/SerialOptions.antt =====
-- The options of CREATE SERIAL as `visit_create_sequence` of sqlalchemy_cubrid/compiler.py writes them,
-- and readers for them.
use sqlalchemy_cubrid.Sql.{◌>>=◌, expect, expect-append, read_number, read_number-show_nat, NoDigit}
use sqlalchemy_cubrid.Ddl.{given_int, limit_text}
use sqlalchemy_cubrid.Prelude.{
  show_nat-All, show_nat-ne-nil, IsDigit, All, ◌≢◌, ℕ, zero, suc, ℤ, pos, negsuc, show_int,
  show_nat, ◌≡◌, refl, ap, ◌∙◌, Bool, true, false, Option, none, some, [], ◌∷◌, ◌++◌, append_assoc,
  arith, Text, codes, ◌==◌,
}

abbrev negated : ℕ × Text → Option (ℤ × Text)
negated (zero, s) = none
negated (suc n, s) = some (negsuc n, s)

abbrev positive : ℕ × Text → Option (ℤ × Text)
positive (n, s) = some (pos n, s)

-- An integer with an optional sign.
unfoldable pub read_int : Text → Option (ℤ × Text)
read_int [] = none
read_int (c ∷ s) = elim (c == b'-') [
  | true ↦ negated (read_number 0 s)
  | false ↦ positive (read_number 0 (c ∷ s))
]

abbrev at_int : Text → Option Text → Option (Option ℤ × Text)
at_int s none = some (none, s)
at_int s (some t) = read_int t >>= λ r. some (some r.0, r.1)

-- An option with a number.
unfoldable pub read_given : Text → Text → Option (Option ℤ × Text)
read_given keyword s = at_int s (expect keyword s)

-- A limit: not given, switched off, or a number.
pub data Limit : Type 0 where
  unset switched_off : Limit
  bound : ℤ → Limit

abbrev pub limit_of : Option ℤ → Bool → Limit
limit_of none false = unset
limit_of none true = switched_off
limit_of (some n) b = bound n

abbrev at_without : Text → Option Text → Option (Limit × Text)
at_without s none = some (unset, s)
at_without s (some t) = some (switched_off, t)

abbrev at_bound : Text → Text → Option Text → Option (Limit × Text)
at_bound without s none = at_without s (expect without s)
at_bound without s (some t) = read_int t >>= λ r. some (bound r.0, r.1)

unfoldable pub read_bound : Text → Text → Text → Option (Limit × Text)
read_bound keyword without s = at_bound without s (expect keyword s)

abbrev pub at_nocycle : Text → Option Text → Option Bool × Text
at_nocycle s none = (none, s)
at_nocycle s (some t) = (some false, t)

abbrev pub at_cycle : Text → Option Text → Option Bool × Text
at_cycle s none = at_nocycle s (expect (codes " NOCYCLE") s)
at_cycle s (some t) = (some true, t)

unfoldable pub read_cycle : Text → Option Bool × Text
read_cycle s = at_cycle s (expect (codes " CYCLE") s)

show_nat_head :
    (n : ℕ) (rest : Text)
    → read_int (show_nat n ++ rest) ≡ positive (read_number 0 (show_nat n ++ rest))
show_nat_head n rest = digits_head (show_nat n) rest (show_nat-ne-nil n) (show_nat-All n)
  where
    digits_head :
        (s rest : Text)
        → s ≢ []
        → All IsDigit s
        → read_int (s ++ rest) ≡ positive (read_number 0 (s ++ rest))
    digits_head [] rest h k = absurd (h refl)
    digits_head (c ∷ s) rest h (k, ks) = unfold read_int in ground (arith, k)

read_int-show_int :
    (z : ℤ) (rest : Text) → NoDigit rest → read_int (show_int z ++ rest) ≡ some (z, rest)
unfolding show_int
read_int-show_int (pos n) rest h =
    show_nat_head n rest ∙ ap positive (read_number-show_nat n rest h)
read_int-show_int (negsuc n) rest h =
    unfold read_int in ap negated (read_number-show_nat (suc n) rest h)

module _ (keyword : Text) where
  pub read_given-given_int :
      (o : Option ℤ) (rest : Text)
      → NoDigit rest
      → expect keyword rest ≡ none
      → read_given keyword (given_int keyword o ++ rest) ≡ some (o, rest)
  unfolding read_given
  read_given-given_int none rest h e = ap (at_int rest) e
  read_given-given_int (some z) rest h e =
      ap (read_given keyword) (append_assoc keyword (show_int z) rest)
      ∙ (ap (at_int (keyword ++ (show_int z ++ rest))) (expect-append keyword (show_int z ++ rest))
          ∙ ap (λ o. o >>= λ r. some (some r.0, r.1)) (read_int-show_int z rest h))

  pub read_bound-limit_text :
      (without : Text) (o : Option ℤ) (b : Bool) (rest : Text)
      → NoDigit rest
      → expect keyword rest ≡ none
      → expect without rest ≡ none
      → ((t : Text) → expect keyword (without ++ t) ≡ none)
      → read_bound keyword without (limit_text keyword without o b ++ rest)
        ≡ some (limit_of o b, rest)
  unfolding read_bound
  read_bound-limit_text without none false rest h e f g =
      ap (at_bound without rest) e ∙ ap (at_without rest) f
  read_bound-limit_text without none true rest h e f g =
      ap (at_bound without (without ++ rest)) (g rest)
      ∙ ap (at_without (without ++ rest)) (expect-append without rest)
  read_bound-limit_text without (some z) b rest h e f g =
      ap (read_bound keyword without) (append_assoc keyword (show_int z) rest)
      ∙ (ap (at_bound without (keyword ++ (show_int z ++ rest)))
            (expect-append keyword (show_int z ++ rest))
          ∙ ap (λ o. o >>= λ r. some (bound r.0, r.1)) (read_int-show_int z rest h))
