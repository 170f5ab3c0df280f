-- ===== src/Version/Laws.antt =====
-- What the version functions of sqlalchemy_cubrid/dialect.py compute.
use sqlalchemy_cubrid.Version.{
  leading_digits, leading_int, version_parts, server_version_info, tuple_ge, serial_attr_column,
  sequence_names_statement,
}
use sqlalchemy_cubrid.Prelude.{
  split_from-append, Lacks, split_from-Lacks, ok, text_eq, All-map, All-append, ℕ, ◌≡◌, ◌≢◌, refl,
  sym, ap, ◌∙◌, inl, inr, true, false, some, List, [], ◌∷◌, ◌++◌, map, append_assoc, append-nil,
  arith, Text, codes, join, split_from, show_nat, show_nat-All, show_nat-ne-nil, value-show_nat,
  IsDigit, All, is_digit, value, Bool-cases,
}

-- A version number as the server prints it: numbers between dots, and a suffix behind the last one.
unfoldable pub print_version : List ℕ → Text → Text
print_version ns suffix = join (codes ".") (map show_nat ns) ++ suffix

-- What may follow the last number: no digit at the front, no dot anywhere.
abbrev pub IsSuffix : Text → Type 0
IsSuffix [] = Unit
IsSuffix (c ∷ s) = (is_digit c ≡ false) × Lacks b'.' (c ∷ s)

leading_digits-append : (ds s : Text) → All IsDigit ds → IsSuffix s → leading_digits (ds ++ s) ≡ ds
unfolding leading_digits
leading_digits-append [] [] h k = refl
leading_digits-append [] (c ∷ s) h (k, _) = ground arith
leading_digits-append (d ∷ ds) s (hd, hds) k = ground (arith, leading_digits-append ds s hds k)

leading_int-digits :
    (ds s : Text)
    → ds ≢ []
    → All IsDigit ds
    → IsSuffix s
    → leading_int (ds ++ s) ≡ some (value 0 ds)
unfolding leading_int
leading_int-digits [] s n h k = absurd (n refl)
leading_int-digits (d ∷ ds) s n h k = rw (leading_digits-append (d ∷ ds) s h k, leading_int)

leading_int-show_nat : (n : ℕ) (s : Text) → IsSuffix s → leading_int (show_nat n ++ s) ≡ some n
leading_int-show_nat n s h =
    leading_int-digits (show_nat n) s (show_nat-ne-nil n) (show_nat-All n) h
    ∙ ap some (value-show_nat n)

NoDot-suffix : (s : Text) → IsSuffix s → Lacks b'.' s
NoDot-suffix [] h = tt
NoDot-suffix (c ∷ s) h = h.1

NoDot-digits : (n : ℕ) → Lacks b'.' (show_nat n)
NoDot-digits n = All-map IsDigit (λ d. d ≢ b'.') (λ d k. omega arith) (show_nat n) (show_nat-All n)

NoDot-show_nat : (n : ℕ) (s : Text) → IsSuffix s → Lacks b'.' (show_nat n ++ s)
NoDot-show_nat n s h = All-append (λ d. d ≢ b'.') (show_nat n) s (NoDot-digits n) (NoDot-suffix s h)

version_parts-cons :
    (x : Text) (xs : List Text) (n : ℕ)
    → leading_int x ≡ some n
    → version_parts (x ∷ xs) ≡ n ∷ version_parts xs
unfolding version_parts
version_parts-cons x xs n e = rw (e, version_parts)

version_parts-print :
    (n : ℕ) (ns : List ℕ) (s : Text)
    → IsSuffix s
    → version_parts (split_from b'.' [] (print_version (n ∷ ns) s)) ≡ n ∷ ns
unfolding version_parts print_version join
version_parts-print n [] s h =
    rw (split_from-Lacks b'.' [] (show_nat n ++ s) (NoDot-show_nat n s h))
      (version_parts-cons (show_nat n ++ s) [] n (leading_int-show_nat n s h))
version_parts-print n (m ∷ ns) s h =
    rw
      (
        append_assoc (show_nat n) _ s,
        split_from-append b'.' [] (show_nat n) (print_version (m ∷ ns) s) (NoDot-digits n),
      )
      (version_parts-cons (show_nat n) (split_from b'.' [] (print_version (m ∷ ns) s)) n
          (ap leading_int (sym (append-nil (show_nat n))) ∙ leading_int-show_nat n [] tt)
        ∙ ap (λ t. n ∷ t) (version_parts-print m ns s h))

-- Whatever the server prints, numbers between dots are read as the version, and a suffix such as
-- "-beta" behind the last one is left out.
pub server_version_info-print :
    (n : ℕ) (ns : List ℕ) (s : Text)
    → IsSuffix s
    → server_version_info (print_version (n ∷ ns) s) ≡ n ∷ ns
unfolding server_version_info
server_version_info-print n ns s h = rw (version_parts-print n ns s h)

-- The order of versions is total and transitive.
tuple_ge_trans : (a b c : List ℕ) → tuple_ge a b ≡ true → tuple_ge b c ≡ true → tuple_ge a c ≡ true
unfolding tuple_ge
tuple_ge_trans a b [] h k = refl
tuple_ge_trans [] [] (n ∷ c) h k = k
tuple_ge_trans [] (m ∷ b) (n ∷ c) h k = cc
tuple_ge_trans (l ∷ a) [] (n ∷ c) h k = cc
tuple_ge_trans (l ∷ a) (m ∷ b) (n ∷ c) h k = ground (arith, tuple_ge_trans a b c)

-- A server at least as new as one with `attr_name` has `attr_name` too.
pub serial_attr_column_mono :
    (v w : List ℕ)
    → tuple_ge w v ≡ true
    → serial_attr_column v ≡ codes "attr_name"
    → serial_attr_column w ≡ codes "attr_name"
unfolding serial_attr_column
serial_attr_column_mono v w newer h = ground (arith, tuple_ge_trans w v (11 ∷ 4 ∷ []) newer)

-- The assertion in `get_sequence_names` never fails, and the statement asks for the column of the
-- version.
pub sequence_names_statement-eq :
    (v : List ℕ)
    → sequence_names_statement v
      ≡ ok (
          codes "SELECT name FROM db_serial WHERE "
          ++ (serial_attr_column v ++ codes " IS NULL ORDER BY name"))
unfolding sequence_names_statement serial_attr_column text_eq
sequence_names_statement-eq v = elim (Bool-cases (tuple_ge v (11 ∷ 4 ∷ []))) [
  | inl e ↦ rw e
  | inr e ↦ rw e
]
