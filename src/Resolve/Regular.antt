-- ===== src/Resolve/Regular.antt =====
-- The matcher of type strings against the regular expression that `_resolve_type` of
-- sqlalchemy_cubrid/dialect.py compiles.
use sqlalchemy_cubrid.Resolve.TypeTail.{
  type_pattern, groups_of, tail_pattern, with_tail, finish, run-tail,
}
use sqlalchemy_cubrid.Regex.{Captures, Rest, before, run_lazy, run, match}
use sqlalchemy_cubrid.Regex.Steps.{before-append}
use sqlalchemy_cubrid.Resolve.Pattern.{match_tail, match_base, match_type}
use sqlalchemy_cubrid.Prelude.{
  ℕ, ◌≡◌, refl, sym, ap, ◌∙◌, Bool, true, false, ◌||◌, Option, none, some, [], ◌∷◌, ◌++◌,
  append_assoc, Text, is_word, is_space, Bool-cases, Option-cases, inl, inr,
}

groups_of-none : (o : Option (Captures × Text)) → groups_of o ≡ none → o ≡ none
unfolding groups_of
groups_of-none none h = refl
groups_of-none (some r) h = cc

module _ (p : ℕ → Bool) (k : Rest) (caps : Captures) (c : ℕ) (s : Text) where
  lazy_stops : {r : Captures × Text} → k caps (c ∷ s) ≡ some r → run_lazy p k caps (c ∷ s) ≡ some r
  unfolding run_lazy
  lazy_stops h = rw (h, run_lazy) refl

  lazy_goes :
      k caps (c ∷ s) ≡ none
      → run_lazy p k caps (c ∷ s) ≡ elim (p c) [ true ↦ run_lazy p k caps s | false ↦ none ]
  unfolding run_lazy
  lazy_goes h = rw (h, run_lazy) refl

abbrev name_rest : Text → Rest
name_rest whole caps r = run tail_pattern finish ((1, before whole r) ∷ caps) r

abbrev name_char : ℕ → Bool
name_char c = is_word c || is_space c

match_base_stops :
    (taken : Text) (c : ℕ) (s : Text) (params : Option Text)
    → match_tail (c ∷ s) ≡ some params
    → match_base taken (c ∷ s) ≡ some (taken, params)
unfolding match_base
match_base_stops taken c s params e = rw (e, match_base) refl

match_base_goes :
    (taken : Text) (c : ℕ) (s : Text)
    → match_tail (c ∷ s) ≡ none
    → match_base taken (c ∷ s)
      ≡ elim (name_char c) [ true ↦ match_base (taken ++ c ∷ []) s | false ↦ none ]
unfolding match_base
match_base_goes taken c s e = rw (e, match_base) refl

base_stops :
    (whole taken : Text) (c : ℕ) (s : Text) (params : Option Text)
    → match_tail (c ∷ s) ≡ some params
    → groups_of (name_rest whole [] (c ∷ s)) ≡ some (taken, params)
    → groups_of (run_lazy name_char (name_rest whole) [] (c ∷ s)) ≡ match_base taken (c ∷ s)
base_stops whole taken c s params e g = elim (Option-cases (name_rest whole [] (c ∷ s))) [
  | inl stuck ↦ absurd (none_ne (sym (ap groups_of stuck) ∙ g))
  | inr (r, hit) ↦
      ap groups_of (lazy_stops name_char (name_rest whole) [] c s hit)
      ∙ (sym (ap groups_of hit) ∙ (g ∙ sym (match_base_stops taken c s params e)))
]
  where
    none_ne : groups_of none ≡ some (taken, params) → ⊥
    none_ne h = unfold groups_of in cc h

run-base :
    (whole taken s : Text)
    → whole ≡ taken ++ s
    → groups_of (run_lazy name_char (name_rest whole) [] s) ≡ match_base taken s
run-base whole taken [] w =
    ap (λ t. groups_of (run_lazy name_char (name_rest t) [] [])) w
    ∙ (unfold run_lazy run groups_of match_base in
        ap (λ t. some (t, none)) (before-append taken []))
run-base whole taken (c ∷ s) w = elim (Option-cases (match_tail (c ∷ s))) [
  | inr (params, e) ↦ base_stops whole taken c s params e (
      run-tail (before whole (c ∷ s)) (c ∷ s)
      ∙ (ap (with_tail (before whole (c ∷ s))) e
          ∙ ap (λ t. some (t, params))
              (ap (λ t. before t (c ∷ s)) w ∙ before-append taken (c ∷ s))))
  | inl e ↦
      let stuck =
        groups_of-none (name_rest whole [] (c ∷ s))
          (run-tail (before whole (c ∷ s)) (c ∷ s) ∙ ap (with_tail (before whole (c ∷ s))) e) in
      ap groups_of (lazy_goes name_char (name_rest whole) [] c s stuck)
      ∙ (elim (Bool-cases (name_char c)) [
        | inl y ↦
            rw y (run-base whole (taken ++ c ∷ []) s (w ∙ sym (append_assoc taken (c ∷ []) s)))
        | inr n ↦ rw n (unfold groups_of in refl)
      ]
          ∙ sym (match_base_goes taken c s e))
]

-- The matcher that the model of `_resolve_type` uses finds what the backtracking match of its regular
-- expression finds, on every text: the same match or none, and the same two groups.
pub match_type-eq : (s : Text) → match_type s ≡ groups_of (match type_pattern s)
unfolding match_type match type_pattern run
match_type-eq [] = unfold groups_of in refl
match_type-eq (c ∷ s) = elim (Bool-cases (is_word c)) [
  | inl e ↦ rw e (sym (run-base (c ∷ s) (c ∷ []) s refl))
  | inr n ↦ rw n (unfold groups_of in refl)
]
