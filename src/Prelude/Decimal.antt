-- ===== src/Prelude/Decimal.antt =====
-- `"%d" % n` for a natural number, `int(s)`, and that the second undoes the first. The interpreter's
-- configurable limit on the number of digits is not modelled.
use Prim.Native.Nat.{ℕ, zero, suc, ◌+◌, ◌-◌, ◌*◌, ◌/◌, ◌%◌, ◌<◌, ◌≤◌}
use mathlib.Core.Path.{◌≡◌, refl, ap, ◌∙◌}
use mathlib.Core.Logic.{◌≢◌}
use mathlib.Core.Bool.{Bool, true, false, ◌&&◌}
use mathlib.Core.Option.{Option, none, some}
use mathlib.Core.List.{[], ◌∷◌, foldl}
use native.Mathlib.Omega.{arith}
use sqlalchemy_cubrid.Prelude.Tests.{Bool-cases, ltb, ◌==◌, if◌then◌else◌}
use sqlalchemy_cubrid.Prelude.Lists.{All, All-map}
use sqlalchemy_cubrid.Prelude.Strings.{Text, codes}
use sqlalchemy_cubrid.Prelude.Chars.{is_digit, NotSpace, strip, strip-eq}
use mathlib.Core.Logic.{inl, inr}
use sqlalchemy_cubrid.Prelude.Outcome.{Caught, Result, ok, err, value_error}

-- `negsuc n` is -(n + 1).
pub data ℤ : Type 0 where
  pos : ℕ → ℤ
  negsuc : ℕ → ℤ

show_from : ℕ → ℕ → Text → Text
show_from zero n out = out
show_from (suc f) n out =
    let rest = show_from f (n / 10) ((b'0' + n % 10) ∷ out) in
    if ltb n 10 then (b'0' + n % 10) ∷ out else rest

-- `"%d" % n`; a number has fewer digits than the fuel.
unfoldable pub show_nat : ℕ → Text
unfolding show_from
show_nat n = show_from (suc n) n []

-- `"%d" % z`
unfoldable pub show_int : ℤ → Text
unfolding show_nat
show_int (pos n) = show_nat n
show_int (negsuc n) = b'-' ∷ show_nat (suc n)

-- Digits, with single underscores between them; the flag tells that a digit stands just before.
scan_digits : ℕ → Bool → Text → Option ℕ
scan_digits n after [] = if after then some n else none
scan_digits n after (c ∷ s) = elim (is_digit c) [
  | true ↦ scan_digits (n * 10 + (c - b'0')) true s
  | false ↦ elim (c == b'_' && after) [ true ↦ scan_digits n false s | false ↦ none ]
]

negate : ℕ → ℤ
negate zero = pos 0
negate (suc n) = negsuc n

signed : Text → Result ℤ
signed [] = err value_error
signed (c ∷ s) =
    if c == b'-'
    then elim (scan_digits 0 false s) [ none ↦ err value_error | some n ↦ ok (negate n) ]
    else if c == b'+'
    then elim (scan_digits 0 false s) [ none ↦ err value_error | some n ↦ ok (pos n) ]
    else elim (scan_digits 0 false (c ∷ s)) [ none ↦ err value_error | some n ↦ ok (pos n) ]

-- `int(s)`
unfoldable pub parse_int : Text → Result ℤ
unfolding scan_digits negate signed strip
parse_int s = signed (strip s)

abbrev pub IsDigit : ℕ → Type 0
IsDigit c = (b'0' ≤ c) × (c ≤ b'9')

-- The number that digits spell behind `n`.
abbrev pub value : ℕ → Text → ℕ
value = foldl (λ n c. n * 10 + (c - b'0'))

scan_digits-value : (n : ℕ) (s : Text) → All IsDigit s → scan_digits n true s ≡ some (value n s)
unfolding scan_digits
scan_digits-value n [] h = refl
scan_digits-value n (c ∷ s) (hc, hs) = ground (arith, scan_digits-value (n * 10 + (c - b'0')) s hs)

show_from-All : (f n : ℕ) (out : Text) → All IsDigit out → All IsDigit (show_from f n out)
unfolding show_from
show_from-All zero n out h = h
show_from-All (suc f) n out h = ground (arith, show_from-All f (n / 10) ((b'0' + n % 10) ∷ out))

pub show_nat-All : (n : ℕ) → All IsDigit (show_nat n)
unfolding show_nat
show_nat-All n = show_from-All (suc n) n [] tt

value-show_from : (f n : ℕ) (out : Text) → n < f → value 0 (show_from f n out) ≡ value n out
unfolding show_from
value-show_from zero n out h = elim h [ ]
value-show_from (suc f) n out h = ground (arith, value-show_from f (n / 10) ((b'0' + n % 10) ∷ out))

show_from-ne-nil : (f n : ℕ) (out : Text) → out ≢ [] → show_from f n out ≢ []
unfolding show_from
show_from-ne-nil zero n out h = h
show_from-ne-nil (suc f) n out h =
    ground (arith, show_from-ne-nil f (n / 10) ((b'0' + n % 10) ∷ out))

pub show_nat-ne-nil : (n : ℕ) → show_nat n ≢ []
unfolding show_nat show_from
show_nat-ne-nil n = ground (arith, show_from-ne-nil n (n / 10) ((b'0' + n % 10) ∷ []))

-- The digits of a number spell it.
pub value-show_nat : (n : ℕ) → value 0 (show_nat n) ≡ n
unfolding show_nat
value-show_nat n = value-show_from (suc n) n [] (omega arith)

pub digit-NotSpace : (c : ℕ) → IsDigit c → NotSpace c
digit-NotSpace c h = ground arith

signed-digits : (s : Text) → s ≢ [] → All IsDigit s → signed s ≡ ok (pos (value 0 s))
unfolding signed scan_digits
signed-digits [] h _ = absurd (h refl)
signed-digits (c ∷ s) _ (hc, hs) = ground (arith, scan_digits-value (0 * 10 + (c - b'0')) s hs)

-- `int` reads one or more digits as their value.
pub parse_int-digits : (s : Text) → s ≢ [] → All IsDigit s → parse_int s ≡ ok (pos (value 0 s))
parse_int-digits s h d =
    unfold parse_int in
    (ap signed (strip-eq s (All-map IsDigit NotSpace digit-NotSpace s d)) ∙ signed-digits s h d)

-- `int` undoes `%d`.
pub parse_int-show_nat : (n : ℕ) → parse_int (show_nat n) ≡ ok (pos n)
parse_int-show_nat n =
    parse_int-digits (show_nat n) (show_nat-ne-nil n) (show_nat-All n)
    ∙ ap (λ (m : ℕ). ok (pos m)) (value-show_nat n)

read_signed-Caught :
    (sign : ℕ → ℤ) (o : Option ℕ)
    → Caught {A = ℤ} (elim o [ none ↦ err value_error | some n ↦ ok (sign n) ])
read_signed-Caught sign none = inr refl
read_signed-Caught sign (some n) = inl (sign n, refl)

signed-Caught : (s : Text) → Caught (signed s)
unfolding signed
signed-Caught [] = inr refl
signed-Caught (c ∷ s) = elim (Bool-cases (c == b'-')) [
  | inl e ↦ rw e (read_signed-Caught negate (scan_digits 0 false s))
  | inr n ↦ rw n (elim (Bool-cases (c == b'+')) [
    | inl e ↦ rw e (read_signed-Caught pos (scan_digits 0 false s))
    | inr m ↦ rw m (read_signed-Caught pos (scan_digits 0 false (c ∷ s)))
  ])
]

-- `int` returns a number or raises `ValueError`.
pub parse_int-Caught : (s : Text) → Caught (parse_int s)
unfolding parse_int
parse_int-Caught s = signed-Caught (strip s)

show_nat-1073741823 : show_nat 1073741823 ≡ codes "1073741823"
unfolding show_nat
show_nat-1073741823 = refl

parse_int_signs :
    (parse_int (codes " -12 ") ≡ ok (negsuc 11))
    × (parse_int (codes "+1_0") ≡ ok (pos 10))
    × (parse_int (codes "1_") ≡ err value_error)
unfolding parse_int
parse_int_signs = (refl, refl, refl)
