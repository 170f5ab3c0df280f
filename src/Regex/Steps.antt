-- ===== src/Regex/Steps.antt =====
-- How a match proceeds through a text whose parts are known.
use sqlalchemy_cubrid.Regex.{group, plus, word, Captures, Rest, before, run_star, run_char, run}
use sqlalchemy_cubrid.Prelude.{
  inr, inl, Bool-cases, ==_refl, ◌||◌, ℕ, ◌≡◌, ◌≢◌, refl, ap, ◌∙◌, Bool, true, false, not, none,
  some, [], ◌∷◌, ◌++◌, Text, All, Lacks, length-append, take, take-append_length, ◌==◌, to_lower,
  arith,
}

-- The text does not go on with a character of the class.
abbrev pub Stops : (ℕ → Bool) → Text → Type 0
Stops p [] = Unit
Stops p (c ∷ s) = p c ≡ false

abbrev pub AllIn : (ℕ → Bool) → Text → Type 0
AllIn p = All (λ c. p c ≡ true)

-- A greedy part takes all characters of its class, if the rest then matches.
pub run_star-append :
    (p : ℕ → Bool) (k : Rest) (caps : Captures) (w rest : Text) {out : Captures × Text}
    → AllIn p w
    → Stops p rest
    → k caps rest ≡ some out
    → run_star p k caps (w ++ rest) ≡ some out
unfolding run_star
run_star-append p k caps [] [] h st e = e
run_star-append p k caps [] (c ∷ rest) h st e = rw (st, run_star) e
run_star-append p k caps (c ∷ w) rest (hc, hw) st e =
    rw (hc, run_star) (rw (run_star-append p k caps w rest hw st e) refl)

pub before-append : (w rest : Text) → before (w ++ rest) rest ≡ w
before-append w rest =
    ap (λ n. take n (w ++ rest)) (omega (arith, length-append w rest)) ∙ take-append_length w rest

-- `([…]+)` on a non-empty text of the class.
pub run-group_plus :
    (n : ℕ) (p : ℕ → Bool) (k : Rest) (caps : Captures) (w rest : Text) {out : Captures × Text}
    → w ≢ []
    → AllIn p w
    → Stops p rest
    → k ((n, w) ∷ caps) rest ≡ some out
    → run (group n (plus p)) k caps (w ++ rest) ≡ some out
unfolding run
run-group_plus n p k caps [] rest ne h st e = absurd (ne refl)
run-group_plus n p k caps (c ∷ w) rest ne (hc, hw) st e = rw hc (
    run_star-append p (λ caps' r. k ((n, before (c ∷ (w ++ rest)) r) ∷ caps') r) caps w rest hw st
      (ap (λ t. k ((n, t) ∷ caps) rest) (before-append (c ∷ w) rest) ∙ e))

pub ==_of_ne : (a b : ℕ) → a ≢ b → (a == b) ≡ false
==_of_ne a b h = ground arith

-- `[^c]*` goes back through characters that are not `d`, and fails if it meets no `d`.
pub run_star_fails :
    (p : ℕ → Bool) (d : ℕ) (k : Rest) (caps : Captures) (w : Text) (e : ℕ) (rest : Text)
    → Lacks d w
    → e ≢ d
    → p e ≡ false
    → run_star p (run_char (λ c. c == d) k) caps (w ++ e ∷ rest) ≡ none
unfolding run_star
run_star_fails p d k caps [] e rest h ne st = rw (st, run_star) (rw (==_of_ne e d ne) refl)
run_star_fails p d k caps (c ∷ w) e rest (hc, hw) ne st = elim (Bool-cases (p c)) [
  | inl t ↦
      rw (t, run_star) (rw (run_star_fails p d k caps w e rest hw ne st, ==_of_ne c d hc) refl)
  | inr f ↦ rw (f, run_star) (rw (==_of_ne c d hc) refl)
]

-- It goes back to the last `d`, if the rest matches behind that.
pub run_star_back :
    (p : ℕ → Bool) (d : ℕ) (k : Rest) (caps : Captures) (u w : Text) (e : ℕ) (rest : Text)
    {out : Captures × Text}
    → AllIn p u
    → p d ≡ true
    → Lacks d w
    → e ≢ d
    → p e ≡ false
    → k caps (w ++ e ∷ rest) ≡ some out
    → run_star p (run_char (λ c. c == d) k) caps (u ++ d ∷ (w ++ e ∷ rest)) ≡ some out
unfolding run_star
run_star_back p d k caps [] w e rest hu pd hw ne st g =
    rw (pd, run_star) (rw (run_star_fails p d k caps w e rest hw ne st, ==_refl d) g)
run_star_back p d k caps (c ∷ u) w e rest (hc, hu) pd hw ne st g =
    rw (hc, run_star) (rw (run_star_back p d k caps u w e rest hu pd hw ne st g) refl)

-- A text that differs from a word inside both.
unfoldable pub differs : Text → Text → Bool
differs [] w = false
differs (c ∷ s) [] = false
differs (c ∷ s) (d ∷ w) = not (to_lower c == to_lower d) || differs s w

-- Where it does, a pattern that begins with the word does not match.
pub run-word_fails :
    (s rest w : Text) (k : Rest) (caps : Captures)
    → differs s w ≡ true
    → run (word w) k caps (s ++ rest) ≡ none
unfolding run differs
run-word_fails [] rest w k caps h = cc
run-word_fails (c ∷ s) rest [] k caps h = cc
run-word_fails (c ∷ s) rest (d ∷ w) k caps h = elim (Bool-cases (to_lower c == to_lower d)) [
  | inl e ↦ rw e (run-word_fails s rest w k caps (ground (arith, e)))
  | inr n ↦ rw n refl
]
