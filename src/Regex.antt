-- ===== src/Regex.antt =====
-- Regular expressions as Python's `re` matches them: by backtracking, a greedy part first as long as
-- it can be. Only the constructs that the package uses, on the ASCII range.
pub mod Steps
use sqlalchemy_cubrid.Prelude.{
  ℕ, ◌-◌, Bool, true, false, ◌&&◌, ◌||◌, not, Option, none, some, List, [], ◌∷◌, ◌++◌, Text, length,
  take, ◌==◌, is_space, to_lower, if◌then◌else◌,
}

pub data Regex : Type 0 where
  empty : Regex
  char : (ℕ → Bool) → Regex
  seq : Regex → Regex → Regex
  alt : Regex → Regex → Regex
  opt : Regex → Regex
  star : (ℕ → Bool) → Regex
  star_lazy : (ℕ → Bool) → Regex
  group : ℕ → Regex → Regex
  end_of_text : Regex

-- The groups that have matched, the last one first.
abbrev pub Captures : Type 0
Captures = List (ℕ × Text)

-- What remains to be matched, and what it makes of the groups and of the text that is left.
abbrev pub Rest : Type 0
Rest = Captures → Text → Option (Captures × Text)

-- The text before a suffix of it.
abbrev pub before : Text → Text → Text
before s rest = take (length s - length rest) s

-- `$` matches at the end, and before a line break at the end.
abbrev pub is_end : Text → Bool
is_end [] = true
is_end (c ∷ []) = c == 10
is_end (c ∷ d ∷ s) = false

-- `[…]*`: one more character, or else the rest.
unfoldable pub run_star : (ℕ → Bool) → Rest → Rest
run_star p k caps [] = k caps []
run_star p k caps (c ∷ s) = elim (p c) [
  | true ↦ elim (run_star p k caps s) [ some r ↦ some r | none ↦ k caps (c ∷ s) ]
  | false ↦ k caps (c ∷ s)
]

-- `[…]*?`: the rest, or else one more character.
unfoldable pub run_lazy : (ℕ → Bool) → Rest → Rest
run_lazy p k caps [] = k caps []
run_lazy p k caps (c ∷ s) = elim (k caps (c ∷ s)) [
  | some r ↦ some r
  | none ↦ elim (p c) [ true ↦ run_lazy p k caps s | false ↦ none ]
]

abbrev pub run_char : (ℕ → Bool) → Rest → Rest
run_char p k caps [] = none
run_char p k caps (c ∷ s) = if p c then k caps s else none

abbrev pub or_else : Option (Captures × Text) → Option (Captures × Text) → Option (Captures × Text)
or_else (some r) o = some r
or_else none o = o

unfoldable pub run : Regex → Rest → Rest
unfolding run_star run_lazy
run empty k caps s = k caps s
run (char p) k caps s = run_char p k caps s
run (seq a b) k caps s = run a (run b k) caps s
run (alt a b) k caps s = elim (run a k caps s) [ some r ↦ some r | none ↦ run b k caps s ]
run (opt a) k caps s = or_else (run a k caps s) (k caps s)
run (star p) k caps s = run_star p k caps s
run (star_lazy p) k caps s = run_lazy p k caps s
run (group n a) k caps s = run a (λ caps' rest. k ((n, before s rest) ∷ caps') rest) caps s
run end_of_text k caps s = if is_end s then k caps s else none

-- `re.match`: the groups and the text behind the match.
unfoldable pub match : Regex → Text → Option (Captures × Text)
unfolding run
match r s = run r (λ caps rest. some (caps, rest)) [] s

-- `match.group(n)`
unfoldable pub captured : ℕ → Captures → Option Text
captured n [] = none
captured n ((m, t) ∷ caps) = if m == n then some t else captured n caps

abbrev pub seqs : List Regex → Regex
seqs [] = empty
seqs (r ∷ []) = r
seqs (r ∷ q ∷ rs) = seq r (seqs (q ∷ rs))

-- `[…]+`
abbrev pub plus : (ℕ → Bool) → Regex
plus p = seq (char p) (star p)

abbrev pub lit : ℕ → Regex
lit c = char (λ d. d == c)

-- A word under `re.IGNORECASE`.
abbrev pub word : Text → Regex
word [] = empty
word (c ∷ s) = seq (char (λ d. to_lower d == to_lower c)) (word s)

-- `\s+` and `\s*`
abbrev pub spaces : Regex
spaces = plus is_space

abbrev pub spaces_or_none : Regex
spaces_or_none = star is_space

-- `[^c]+`
abbrev pub plus_not : ℕ → Regex
plus_not c = plus (λ d. not (d == c))
