-- ===== src/Ddl/SerialText.antt =====
-- Where each option of CREATE SERIAL ends, in what `visit_create_sequence` of
-- sqlalchemy_cubrid/compiler.py writes.
use sqlalchemy_cubrid.Ddl.SerialOptions.{at_cycle, at_nocycle, read_cycle}
use sqlalchemy_cubrid.Sql.{expect, expect-append, NoDigit}
use sqlalchemy_cubrid.Sql.Quoted.{EndsName}
use sqlalchemy_cubrid.Ddl.{Sequence, given_int, limit_text, cycle_text}
use sqlalchemy_cubrid.Prelude.{
  subst, ℤ, show_int, ◌≡◌, refl, ap, ◌∙◌, Bool, true, false, Option, none, some, [], ◌∷◌, ◌++◌,
  append_assoc, append-nil, arith, Text, codes,
}

-- Nothing, or a space at the beginning.
abbrev pub IsSpaced : Text → Type 0
IsSpaced [] = Unit
IsSpaced (c ∷ s) = c ≡ b' '

pub IsSpaced-NoDigit : (s : Text) → IsSpaced s → NoDigit s
IsSpaced-NoDigit [] h = tt
IsSpaced-NoDigit (c ∷ s) h = ground (arith, h)

pub IsSpaced-EndsName : (s : Text) → IsSpaced s → EndsName s
IsSpaced-EndsName [] h = tt
IsSpaced-EndsName (c ∷ s) h = ground (arith, h)

-- Behind an option there stands another one, which begins with a space and its keyword, or the end.
given_int-IsSpaced :
    (k : Text) (o : Option ℤ) (rest : Text)
    → IsSpaced rest
    → IsSpaced (given_int (b' ' ∷ k) o ++ rest)
given_int-IsSpaced k none rest h = h
given_int-IsSpaced k (some z) rest h = refl

limit_text-IsSpaced :
    (k l : Text) (o : Option ℤ) (b : Bool) (rest : Text)
    → IsSpaced rest
    → IsSpaced (limit_text (b' ' ∷ k) (b' ' ∷ l) o b ++ rest)
limit_text-IsSpaced k l none false rest h = h
limit_text-IsSpaced k l none true rest h = refl
limit_text-IsSpaced k l (some z) b rest h = refl

cycle_text-IsSpaced :
    (o : Option Bool) (rest : Text) → IsSpaced rest → IsSpaced (cycle_text o ++ rest)
cycle_text-IsSpaced none rest h = h
cycle_text-IsSpaced (some true) rest h = refl
cycle_text-IsSpaced (some false) rest h = refl

-- A keyword that no option begins with.
module _ (wanted : Text) where
  absent-given_int :
      (k : Text) (o : Option ℤ) (rest : Text)
      → ((t : Text) → expect wanted (k ++ t) ≡ none)
      → expect wanted rest ≡ none
      → expect wanted (given_int k o ++ rest) ≡ none
  absent-given_int k none rest f e = e
  absent-given_int k (some z) rest f e =
      ap (expect wanted) (append_assoc k (show_int z) rest) ∙ f (show_int z ++ rest)

  absent-limit_text :
      (k l : Text) (o : Option ℤ) (b : Bool) (rest : Text)
      → ((t : Text) → expect wanted (k ++ t) ≡ none)
      → ((t : Text) → expect wanted (l ++ t) ≡ none)
      → expect wanted rest ≡ none
      → expect wanted (limit_text k l o b ++ rest) ≡ none
  absent-limit_text k l none false rest f g e = e
  absent-limit_text k l none true rest f g e = g rest
  absent-limit_text k l (some z) b rest f g e =
      ap (expect wanted) (append_assoc k (show_int z) rest) ∙ f (show_int z ++ rest)

  absent-cycle_text :
      (o : Option Bool) (rest : Text)
      → ((t : Text) → expect wanted (codes " CYCLE" ++ t) ≡ none)
      → ((t : Text) → expect wanted (codes " NOCYCLE" ++ t) ≡ none)
      → expect wanted rest ≡ none
      → expect wanted (cycle_text o ++ rest) ≡ none
  absent-cycle_text none rest f g e = e
  absent-cycle_text (some true) rest f g e = f rest
  absent-cycle_text (some false) rest f g e = g rest

pub read_cycle-cycle_text :
    (o : Option Bool) (rest : Text)
    → expect (codes " CYCLE") rest ≡ none
    → expect (codes " NOCYCLE") rest ≡ none
    → read_cycle (cycle_text o ++ rest) ≡ (o, rest)
unfolding read_cycle
read_cycle-cycle_text none rest e f = ap (at_cycle rest) e ∙ ap (at_nocycle rest) f
read_cycle-cycle_text (some true) rest e f =
    ap (at_cycle (codes " CYCLE" ++ rest)) (expect-append (codes " CYCLE") rest)
read_cycle-cycle_text (some false) rest e f = unfold expect in refl

-- The texts behind each option.
abbrev pub from_cache : Sequence → Text
from_cache s = given_int (codes " CACHE ") s.cache

abbrev pub from_cycle : Sequence → Text
from_cycle s = cycle_text s.cycle ++ from_cache s

abbrev pub from_max : Sequence → Text
from_max s =
    limit_text (codes " MAXVALUE ") (codes " NOMAXVALUE") s.maxvalue s.nomaxvalue ++ from_cycle s

abbrev pub from_min : Sequence → Text
from_min s =
    limit_text (codes " MINVALUE ") (codes " NOMINVALUE") s.minvalue s.nominvalue ++ from_max s

abbrev pub from_increment : Sequence → Text
from_increment s = given_int (codes " INCREMENT BY ") s.increment ++ from_min s

abbrev pub from_start : Sequence → Text
from_start s = given_int (codes " START WITH ") s.start ++ from_increment s

from_cache-IsSpaced : (s : Sequence) → IsSpaced (from_cache s)
from_cache-IsSpaced s =
    subst IsSpaced (append-nil (from_cache s)) (given_int-IsSpaced (codes "CACHE ") s.cache [] tt)

pub from_cycle-IsSpaced : (s : Sequence) → IsSpaced (from_cycle s)
from_cycle-IsSpaced s = cycle_text-IsSpaced s.cycle (from_cache s) (from_cache-IsSpaced s)

pub from_max-IsSpaced : (s : Sequence) → IsSpaced (from_max s)
from_max-IsSpaced s =
    limit_text-IsSpaced (codes "MAXVALUE ") (codes "NOMAXVALUE") s.maxvalue s.nomaxvalue
      (from_cycle s) (from_cycle-IsSpaced s)

pub from_min-IsSpaced : (s : Sequence) → IsSpaced (from_min s)
from_min-IsSpaced s =
    limit_text-IsSpaced (codes "MINVALUE ") (codes "NOMINVALUE") s.minvalue s.nominvalue
      (from_max s) (from_max-IsSpaced s)

pub from_increment-IsSpaced : (s : Sequence) → IsSpaced (from_increment s)
from_increment-IsSpaced s =
    given_int-IsSpaced (codes "INCREMENT BY ") s.increment (from_min s) (from_min-IsSpaced s)

pub from_start-IsSpaced : (s : Sequence) → IsSpaced (from_start s)
from_start-IsSpaced s =
    given_int-IsSpaced (codes "START WITH ") s.start (from_increment s) (from_increment-IsSpaced s)

module _ (wanted : Text) where
  absent_in_cache :
      (s : Sequence)
      → ((t : Text) → expect wanted (codes " CACHE " ++ t) ≡ none)
      → expect wanted [] ≡ none
      → expect wanted (from_cache s) ≡ none
  absent_in_cache s f e =
      subst (λ t. expect wanted t ≡ none) (append-nil (from_cache s))
        (absent-given_int wanted (codes " CACHE ") s.cache [] f e)

  absent_in_cycle :
      (s : Sequence)
      → ((t : Text) → expect wanted (codes " CYCLE" ++ t) ≡ none)
      → ((t : Text) → expect wanted (codes " NOCYCLE" ++ t) ≡ none)
      → expect wanted (from_cache s) ≡ none
      → expect wanted (from_cycle s) ≡ none
  absent_in_cycle s f g e = absent-cycle_text wanted s.cycle (from_cache s) f g e

  absent_in_max :
      (s : Sequence)
      → ((t : Text) → expect wanted (codes " MAXVALUE " ++ t) ≡ none)
      → ((t : Text) → expect wanted (codes " NOMAXVALUE" ++ t) ≡ none)
      → expect wanted (from_cycle s) ≡ none
      → expect wanted (from_max s) ≡ none
  absent_in_max s f g e =
      absent-limit_text wanted (codes " MAXVALUE ") (codes " NOMAXVALUE") s.maxvalue s.nomaxvalue
        (from_cycle s) f g e

  absent_in_min :
      (s : Sequence)
      → ((t : Text) → expect wanted (codes " MINVALUE " ++ t) ≡ none)
      → ((t : Text) → expect wanted (codes " NOMINVALUE" ++ t) ≡ none)
      → expect wanted (from_max s) ≡ none
      → expect wanted (from_min s) ≡ none
  absent_in_min s f g e =
      absent-limit_text wanted (codes " MINVALUE ") (codes " NOMINVALUE") s.minvalue s.nominvalue
        (from_max s) f g e

pub no_cycle : (s : Sequence) → expect (codes " CYCLE") (from_cache s) ≡ none
unfolding expect
no_cycle s = absent_in_cache (codes " CYCLE") s (λ t. refl) refl

pub no_nocycle : (s : Sequence) → expect (codes " NOCYCLE") (from_cache s) ≡ none
unfolding expect
no_nocycle s = absent_in_cache (codes " NOCYCLE") s (λ t. refl) refl

pub no_max : (s : Sequence) → expect (codes " MAXVALUE ") (from_cycle s) ≡ none
unfolding expect
no_max s =
    absent_in_cycle (codes " MAXVALUE ") s (λ t. refl) (λ t. refl)
      (absent_in_cache (codes " MAXVALUE ") s (λ t. refl) refl)

pub no_nomax : (s : Sequence) → expect (codes " NOMAXVALUE") (from_cycle s) ≡ none
unfolding expect
no_nomax s =
    absent_in_cycle (codes " NOMAXVALUE") s (λ t. refl) (λ t. refl)
      (absent_in_cache (codes " NOMAXVALUE") s (λ t. refl) refl)

pub no_min : (s : Sequence) → expect (codes " MINVALUE ") (from_max s) ≡ none
unfolding expect
no_min s =
    absent_in_max (codes " MINVALUE ") s (λ t. refl) (λ t. refl)
      (absent_in_cycle (codes " MINVALUE ") s (λ t. refl) (λ t. refl)
        (absent_in_cache (codes " MINVALUE ") s (λ t. refl) refl))

pub no_nomin : (s : Sequence) → expect (codes " NOMINVALUE") (from_max s) ≡ none
unfolding expect
no_nomin s =
    absent_in_max (codes " NOMINVALUE") s (λ t. refl) (λ t. refl)
      (absent_in_cycle (codes " NOMINVALUE") s (λ t. refl) (λ t. refl)
        (absent_in_cache (codes " NOMINVALUE") s (λ t. refl) refl))

pub no_increment : (s : Sequence) → expect (codes " INCREMENT BY ") (from_min s) ≡ none
unfolding expect
no_increment s =
    absent_in_min (codes " INCREMENT BY ") s (λ t. refl) (λ t. refl)
      (absent_in_max (codes " INCREMENT BY ") s (λ t. refl) (λ t. refl)
        (absent_in_cycle (codes " INCREMENT BY ") s (λ t. refl) (λ t. refl)
          (absent_in_cache (codes " INCREMENT BY ") s (λ t. refl) refl)))

pub no_start : (s : Sequence) → expect (codes " START WITH ") (from_increment s) ≡ none
unfolding expect
no_start s =
    absent-given_int (codes " START WITH ") (codes " INCREMENT BY ") s.increment (from_min s)
      (λ t. refl)
      (absent_in_min (codes " START WITH ") s (λ t. refl) (λ t. refl)
        (absent_in_max (codes " START WITH ") s (λ t. refl) (λ t. refl)
          (absent_in_cycle (codes " START WITH ") s (λ t. refl) (λ t. refl)
            (absent_in_cache (codes " START WITH ") s (λ t. refl) refl))))
