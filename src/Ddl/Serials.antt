-- ===== src/Ddl/Serials.antt =====
-- What a server reads out of CREATE SERIAL, as `visit_create_sequence` of sqlalchemy_cubrid/compiler.py
-- writes it.
use sqlalchemy_cubrid.Ddl.SerialText.{
  from_cache, from_cycle, from_max, from_min, from_increment, from_start, from_max-IsSpaced,
  from_cycle-IsSpaced, from_min-IsSpaced, from_increment-IsSpaced, from_start-IsSpaced,
  IsSpaced-NoDigit, IsSpaced-EndsName, read_cycle-cycle_text, no_cycle, no_nocycle, no_max,
  no_nomax, no_min, no_nomin, no_increment, no_start,
}
use sqlalchemy_cubrid.Ddl.SerialOptions.{
  Limit, limit_of, read_given, read_bound, read_cycle, read_given-given_int, read_bound-limit_text,
}
use sqlalchemy_cubrid.Sql.{◌>>=◌, expect, expect-append}
use sqlalchemy_cubrid.Sql.Quoted.{Quoting}
use sqlalchemy_cubrid.Ddl.{Sequence, visit_create_sequence}
use sqlalchemy_cubrid.Prelude.{
  subst, ℤ, ◌≡◌, refl, Bool, Option, none, some, [], ◌∷◌, append-nil, Text, codes,
}

-- What CREATE SERIAL says, behind the name.
pub record Serial : Type 0 where
  pub start : Option ℤ
  pub increment : Option ℤ
  pub min : Limit
  pub max : Limit
  pub cycle : Option Bool
  pub cache : Option ℤ

module _ (quoting : Quoting) where
  unfoldable pub read_create_serial : Text → Option (Text × Serial)
  read_create_serial s = do
    s ← expect (codes "CREATE SERIAL ") s
    (name, s) ← quoting.read_identifier s
    (start, s) ← read_given (codes " START WITH ") s
    (increment, s) ← read_given (codes " INCREMENT BY ") s
    (min, s) ← read_bound (codes " MINVALUE ") (codes " NOMINVALUE") s
    (max, s) ← read_bound (codes " MAXVALUE ") (codes " NOMAXVALUE") s
    let (cycle, s) = read_cycle s
    (cache, s) ← read_given (codes " CACHE ") s
    elim s [
      | [] ↦ some (
        name,
        record {
          start = start;
          increment = increment;
          min = min;
          max = max;
          cycle = cycle;
          cache = cache;
        },
      )
      | c ∷ t ↦ none
    ]

  read_cache : (s : Sequence) → read_given (codes " CACHE ") (from_cache s) ≡ some (s.cache, [])
  unfolding expect
  read_cache s =
      subst (λ t. read_given (codes " CACHE ") t ≡ some (s.cache, [])) (append-nil (from_cache s))
        (read_given-given_int (codes " CACHE ") s.cache [] tt refl)

  -- CREATE SERIAL says what its sequence was made with, for any way to quote names that can be read: each
  -- number with its sign, where a limit that is given hides that it is switched off, and CYCLE and
  -- NOCYCLE, each option exactly if it is set.
  pub read-visit_create_sequence :
      (name : Text) (s : Sequence)
      → read_create_serial (visit_create_sequence (quoting.quote_identifier name) s)
        ≡ some (
          name,
          record {
            start = s.start;
            increment = s.increment;
            min = limit_of s.minvalue s.nominvalue;
            max = limit_of s.maxvalue s.nomaxvalue;
            cycle = s.cycle;
            cache = s.cache;
          },
        )
  unfolding visit_create_sequence read_create_serial
  read-visit_create_sequence name s =
      rw
        (
          expect-append (codes "CREATE SERIAL ") _,
          quoting.read-quote name _ (IsSpaced-EndsName (from_start s) (from_start-IsSpaced s)),
          read_given-given_int (codes " START WITH ") s.start (from_increment s)
              (IsSpaced-NoDigit (from_increment s) (from_increment-IsSpaced s)) (no_start s),
          read_given-given_int (codes " INCREMENT BY ") s.increment (from_min s)
              (IsSpaced-NoDigit (from_min s) (from_min-IsSpaced s)) (no_increment s),
          read_bound-limit_text (codes " MINVALUE ") (codes " NOMINVALUE") s.minvalue s.nominvalue
              (from_max s) (IsSpaced-NoDigit (from_max s) (from_max-IsSpaced s)) (no_min s)
              (no_nomin s) (λ t. unfold expect in refl),
          read_bound-limit_text (codes " MAXVALUE ") (codes " NOMAXVALUE") s.maxvalue s.nomaxvalue
              (from_cycle s) (IsSpaced-NoDigit (from_cycle s) (from_cycle-IsSpaced s)) (no_max s)
              (no_nomax s) (λ t. unfold expect in refl),
          read_cycle-cycle_text s.cycle (from_cache s) (no_cycle s) (no_nocycle s),
          read_cache s,
        )
        (rw (read_cycle-cycle_text s.cycle (from_cache s) (no_cycle s) (no_nocycle s)) refl)
