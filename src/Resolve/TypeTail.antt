-- ===== src/Resolve/TypeTail.antt =====
-- The parameters behind the name of a type, in the regular expression that `_resolve_type` of
-- sqlalchemy_cubrid/dialect.py compiles.
use sqlalchemy_cubrid.Regex.{
  or_else, Regex, char, opt, group, star_lazy, end_of_text, seqs, plus, lit, Captures, Rest, before,
  is_end, run_star, run_char, run, captured,
}
use sqlalchemy_cubrid.Regex.Steps.{before-append}
use sqlalchemy_cubrid.Resolve.Pattern.{newline, at_end, is_nil, match_params, match_tail}
use sqlalchemy_cubrid.Prelude.{
  subst, ==_iff, if◌then◌else◌, ℕ, ◌≡◌, refl, sym, ap, ◌∙◌, Bool, true, false, not, ◌&&◌, ◌||◌,
  ◌==◌, Option, none, some, [], ◌∷◌, ◌++◌, append_assoc, Text, is_word, is_space, Bool-cases,
  Option-cases, inl, inr, arith,
}

abbrev params_pattern : Regex
params_pattern = group 2 (plus (λ c. not (c == newline)))

abbrev pub tail_pattern : Regex
tail_pattern = seqs (opt (seqs (lit b'(' ∷ params_pattern ∷ lit b')' ∷ [])) ∷ end_of_text ∷ [])

-- `(\w[\w\s]*?)(?:\((.+)\))?$`
unfoldable pub type_pattern : Regex
type_pattern = seqs (
    group 1 (seqs (char is_word ∷ star_lazy (λ c. is_word c || is_space c) ∷ []))
    ∷ opt (seqs (lit b'(' ∷ group 2 (plus (λ c. not (c == newline))) ∷ lit b')' ∷ []))
    ∷ end_of_text
    ∷ [])

-- `match.group(1)` and `match.group(2)`, if there is a match.
unfoldable pub groups_of : Option (Captures × Text) → Option (Text × Option Text)
unfolding captured
groups_of none = none
groups_of (some (caps, rest)) =
    some (elim (captured 1 caps) [ none ↦ [] | some base ↦ base ], captured 2 caps)

is_end-eq : (s : Text) → is_end s ≡ at_end s
unfolding at_end
is_end-eq [] = refl
is_end-eq (c ∷ []) = refl
is_end-eq (c ∷ d ∷ s) = refl

-- What stands behind the parameters.
abbrev close : Rest
close = run_char (λ c. c == b')') (λ caps s. if is_end s then some (caps, s) else none)

abbrev with_params : Text → Option Text → Option (Text × Option Text)
with_params base none = none
with_params base (some p) = some (base, some p)

abbrev pub with_tail : Text → Option (Option Text) → Option (Text × Option Text)
with_tail base none = none
with_tail base (some params) = some (base, params)

-- The bracket that ends the parameters can stand in one place only.
close_last :
    (k : Rest) (caps : Captures) (s : Text)
    → at_end s ≡ true
    → k caps [] ≡ none
    → k caps (newline ∷ []) ≡ none
    → run_star (λ c. not (c == newline)) k caps s ≡ none
unfolding run_star at_end
close_last k caps [] h e f = e
close_last k caps (c ∷ []) h e f = rw ((==_iff c newline).0 h) f
close_last k caps (c ∷ d ∷ s) h e f = cc

run_star_step :
    (p : ℕ → Bool) (k : Rest) (caps : Captures) (c : ℕ) (s : Text)
    → p c ≡ true
    → run_star p k caps (c ∷ s) ≡ or_else (run_star p k caps s) (k caps (c ∷ s))
unfolding run_star
run_star_step p k caps c s h = elim (Option-cases (run_star p k caps s)) [
  | inl e ↦ rw (h, run_star) (rw e refl)
  | inr (r, e) ↦ rw (h, run_star) (rw e refl)
]

groups_of-or_else : (o : Option (Captures × Text)) → groups_of (or_else o none) ≡ groups_of o
groups_of-or_else none = refl
groups_of-or_else (some r) = refl

close_fails :
    (caps : Captures) (c : ℕ) (s : Text)
    → (c == b')' && at_end s) ≡ false
    → close caps (c ∷ s) ≡ none
close_fails caps c s h = ground (arith, is_end-eq s)

close_hits :
    (caps : Captures) (c : ℕ) (s : Text)
    → (c == b')' && at_end s) ≡ true
    → close caps (c ∷ s) ≡ some (caps, s)
close_hits caps c s h = ground (arith, is_end-eq s)

match_params_next :
    (taken : Text) (c : ℕ) (s : Text)
    → (c == newline) ≡ false
    → (c == b')' && at_end s) ≡ false
    → match_params taken (c ∷ s) ≡ match_params (taken ++ c ∷ []) s
unfolding match_params
match_params_next taken c s n h = ground (arith, n, h)

match_params_last :
    (taken : Text) (c : ℕ) (s : Text)
    → is_nil taken ≡ false
    → (c == b')' && at_end s) ≡ true
    → match_params taken (c ∷ s) ≡ some taken
unfolding match_params
match_params_last taken c s n h = ground (arith, n, h)

match_params-newline : (taken : Text) (s : Text) → match_params taken (newline ∷ s) ≡ none
unfolding match_params
match_params-newline taken s = refl

is_nil-append : (t : Text) (c : ℕ) → is_nil (t ++ c ∷ []) ≡ false
is_nil-append [] c = refl
is_nil-append (d ∷ t) c = refl

-- The captures at the end of the parameters.
abbrev params_rest : Text → Rest
params_rest whole caps r = close ((2, before whole r) ∷ caps) r

run-params :
    (base whole taken s : Text)
    → whole ≡ taken ++ s
    → is_nil taken ≡ false
    → groups_of (run_star (λ c. not (c == newline)) (params_rest whole) ((1, base) ∷ []) s)
      ≡ with_params base (match_params taken s)
run-params base whole taken [] w n = unfold run_star match_params groups_of in refl
run-params base whole taken (c ∷ s) w n = elim (Bool-cases (c == newline)) [
  | inl nl ↦
      rw ((==_iff c newline).0 nl, match_params-newline taken s) (unfold run_star groups_of in refl)
  | inr ne ↦ elim (Bool-cases (c == b')' && at_end s)) [
    | inr go ↦
        ap groups_of (
          run_star_step (λ d. not (d == newline)) (params_rest whole) ((1, base) ∷ []) c s
            (ground (arith, ne))
          ∙ ap (or_else (run_star (λ d. not (d == newline)) (params_rest whole) ((1, base) ∷ []) s))
              (close_fails ((2, before whole (c ∷ s)) ∷ (1, base) ∷ []) c s go))
        ∙ (groups_of-or_else
              (run_star (λ d. not (d == newline)) (params_rest whole) ((1, base) ∷ []) s)
            ∙ (run-params base whole (taken ++ c ∷ []) s (w ∙ sym (append_assoc taken (c ∷ []) s))
                  (is_nil-append taken c)
                ∙ ap (with_params base) (sym (match_params_next taken c s ne go))))
    | inl here ↦
        ap groups_of (
          run_star_step (λ d. not (d == newline)) (params_rest whole) ((1, base) ∷ []) c s
            (ground (arith, ne))
          ∙ (ap (λ o. or_else o (params_rest whole ((1, base) ∷ []) (c ∷ s)))
                (close_last (params_rest whole) ((1, base) ∷ []) s (ground (arith, here)) refl refl)
              ∙ close_hits ((2, before whole (c ∷ s)) ∷ (1, base) ∷ []) c s here))
        ∙ (unfold groups_of in
            ap (λ t. some (base, some t))
              (ap (λ t. before t (c ∷ s)) w ∙ before-append taken (c ∷ s))
            ∙ ap (with_params base) (sym (match_params_last taken c s n here)))
  ]
]

abbrev pub finish : Rest
finish caps s = some (caps, s)

run-open :
    (base s : Text)
    → groups_of (
        run_char
          (λ c. not (c == newline))
          (run_star (λ c. not (c == newline)) (params_rest s))
          ((1, base) ∷ [])
          s)
      ≡ with_params base (match_params [] s)
run-open base [] = unfold match_params groups_of in refl
run-open base (c ∷ s) = elim (Bool-cases (c == newline)) [
  | inl nl ↦ rw ((==_iff c newline).0 nl, match_params-newline [] s) (unfold groups_of in refl)
  | inr ne ↦
      rw ne (run-params base (c ∷ s) (c ∷ []) s refl refl)
      ∙ ap (with_params base) (sym (match_params_first c s ne))
]
  where
    match_params_first :
        (c : ℕ) (s : Text)
        → (c == newline) ≡ false
        → match_params [] (c ∷ s) ≡ match_params (c ∷ []) s
    match_params_first c s ne = unfold match_params in ground (arith, ne)

open_not_end : (s : Text) → is_end (b'(' ∷ s) ≡ false
open_not_end [] = refl
open_not_end (c ∷ s) = refl

with_params-eq :
    (base : Text) (o : Option Text)
    → with_params base o ≡ with_tail base (elim o [ none ↦ none | some p ↦ some (some p) ])
with_params-eq base none = refl
with_params-eq base (some p) = refl

run-open_tail :
    (base s : Text)
    → groups_of (run tail_pattern finish ((1, base) ∷ []) (b'(' ∷ s))
      ≡ with_tail base (match_tail (b'(' ∷ s))
unfolding run match_tail
run-open_tail base s =
    rw (open_not_end s)
      (groups_of-or_else _ ∙ (run-open base s ∙ with_params-eq base (match_params [] s)))

-- The parameters in their brackets, or the end.
pub run-tail :
    (base s : Text)
    → groups_of (run tail_pattern finish ((1, base) ∷ []) s) ≡ with_tail base (match_tail s)
unfolding run match_tail groups_of
run-tail base [] = refl
run-tail base (c ∷ s) = elim (Bool-cases (c == b'(')) [
  | inl e ↦
      subst
        (λ d.
          groups_of (run tail_pattern finish ((1, base) ∷ []) (d ∷ s))
          ≡ with_tail base (match_tail (d ∷ s)))
        (sym ((==_iff c b'(').0 e)) (run-open_tail base s)
  | inr n ↦
      rw (n, is_end-eq (c ∷ s))
        (elim (Bool-cases (at_end (c ∷ s))) [ inl h ↦ rw h refl | inr h ↦ rw h refl ])
]
