-- ===== src/Resolve/Pattern.antt =====
-- The regular expressions of `_resolve_type` in sqlalchemy_cubrid/dialect.py: `re.match` with
-- `(\w[\w\s]*?)(?:\((.+)\))?$`, and `re.findall` with `'([^']*)'`.
use sqlalchemy_cubrid.Prelude.{
  ℕ, ◌≡◌, ◌≢◌, refl, sym, ap, ◌∙◌, Bool, true, false, ◌&&◌, ◌||◌, not, Option, none, some, List, [],
  ◌∷◌, ◌++◌, append_assoc, append-nil, arith, Text, All, is_word, is_space, ◌==◌, if◌then◌else◌,
}

abbrev pub newline : ℕ
newline = 10

-- `$` matches at the end, and before a line break at the end.
unfoldable pub at_end : Text → Bool
at_end [] = true
at_end (c ∷ []) = c == newline
at_end (c ∷ d ∷ s) = false

abbrev pub is_nil : Text → Bool
is_nil [] = true
is_nil (c ∷ s) = false

-- `(.+)\)$`, behind what `.+` has taken: a bracket can only be the last one.
unfoldable pub match_params : Text → Text → Option Text
unfolding at_end
match_params taken [] = none
match_params taken (c ∷ s) = elim (c == b')' && at_end s && not (is_nil taken)) [
  | true ↦ some taken
  | false ↦ elim (c == newline) [ true ↦ none | false ↦ match_params (taken ++ c ∷ []) s ]
]

-- `(?:\((.+)\))?$`: `none` for no match, `some none` for a match without the group.
unfoldable pub match_tail : Text → Option (Option Text)
unfolding match_params
match_tail [] = some none
match_tail (c ∷ s) =
    if c == b'('
    then elim (match_params [] s) [ none ↦ none | some p ↦ some (some p) ]
    else if at_end (c ∷ s)
    then some none
    else none

-- `[\w\s]*?` and the tail: the shortest extension behind which the tail matches.
unfoldable pub match_base : Text → Text → Option (Text × Option Text)
unfolding match_tail
match_base taken [] = some (taken, none)
match_base taken (c ∷ s) = elim (match_tail (c ∷ s)) [
  | some params ↦ some (taken, params)
  | none ↦ elim (is_word c || is_space c) [ true ↦ match_base (taken ++ c ∷ []) s | false ↦ none ]
]

-- The whole match: `group(1)` and `group(2)`.
unfoldable pub match_type : Text → Option (Text × Option Text)
unfolding match_base
match_type [] = none
match_type (c ∷ s) = if is_word c then match_base (c ∷ []) s else none

-- `re.findall(r"'([^']*)'", params)`, outside a pair of quotes and inside one.
unfoldable pub find_quoted : Option Text → Text → List Text
find_quoted inside [] = []
find_quoted none (c ∷ s) = elim (c == b'\'') [
  | true ↦ find_quoted (some []) s
  | false ↦ find_quoted none s
]
find_quoted (some value) (c ∷ s) = elim (c == b'\'') [
  | true ↦ value ∷ find_quoted none s
  | false ↦ find_quoted (some (value ++ c ∷ [])) s
]

-- A name of letters, digits, underscores and spaces.
abbrev pub IsNameChar : ℕ → Type 0
IsNameChar c = (is_word c || c == 32) ≡ true

abbrev pub IsName : Text → Type 0
IsName [] = ⊥
IsName (c ∷ s) = (is_word c ≡ true) × All IsNameChar s

abbrev pub NoNewline : Text → Type 0
NoNewline = All (λ c. c ≢ newline)

-- A text that closes a bracket behind other characters does not end at once.
at_end-append : (c d : ℕ) (s t : Text) → at_end (c ∷ (s ++ d ∷ t)) ≡ false
unfolding at_end
at_end-append c d [] t = refl
at_end-append c d (e ∷ s) t = refl

at_end-name : (c : ℕ) (s : Text) → IsNameChar c → at_end (c ∷ s) ≡ false
unfolding at_end
at_end-name c [] h = ground arith
at_end-name c (d ∷ s) h = refl

at_end-bracket : (s : Text) → at_end (s ++ b')' ∷ []) ≡ false
at_end-bracket [] = unfold at_end in refl
at_end-bracket (c ∷ s) = at_end-append c b')' s []

match_params_step :
    (taken : Text) (c : ℕ) (s : Text)
    → c ≢ newline
    → at_end s ≡ false
    → match_params taken (c ∷ s) ≡ match_params (taken ++ c ∷ []) s
unfolding match_params
match_params_step taken c s h e = ground (arith, e)

match_params-append :
    (taken p : Text)
    → is_nil taken ≡ false
    → NoNewline p
    → match_params taken (p ++ b')' ∷ []) ≡ some (taken ++ p)
match_params-append taken [] n h = unfold match_params at_end in ground (arith, n, append-nil taken)
match_params-append taken (c ∷ p) n (hc, hp) =
    match_params_step taken c (p ++ b')' ∷ []) hc (at_end-bracket p)
    ∙ match_params-append (taken ++ c ∷ []) p (is_nil-append taken) hp
    ∙ ap some (append_assoc taken (c ∷ []) p)
  where
    is_nil-append : (t : Text) → is_nil (t ++ c ∷ []) ≡ false
    is_nil-append [] = refl
    is_nil-append (d ∷ t) = refl

match_tail-params :
    (p : Text) → p ≢ [] → NoNewline p → match_tail (b'(' ∷ (p ++ b')' ∷ [])) ≡ some (some p)
unfolding match_tail
match_tail-params [] n h = absurd (n refl)
match_tail-params (c ∷ p) n (hc, hp) =
    ap (λ m. elim m [ none ↦ none | some q ↦ some (some q) ])
      (match_params_step [] c (p ++ b')' ∷ []) hc (at_end-bracket p)
        ∙ match_params-append (c ∷ []) p refl hp)

-- Inside a name the tail does not match, and the base goes on.
match_base_step :
    (taken : Text) (c : ℕ) (s : Text)
    → IsNameChar c
    → match_base taken (c ∷ s) ≡ match_base (taken ++ c ∷ []) s
unfolding match_base match_tail
match_base_step taken c s h = ground (arith, at_end-name c s h)

match_base_hit :
    (taken : Text) (c : ℕ) (s : Text) (params : Option Text)
    → match_tail (c ∷ s) ≡ some params
    → match_base taken (c ∷ s) ≡ some (taken, params)
unfolding match_base
match_base_hit taken c s params e = rw (e, match_base)

match_base-params :
    (taken s p : Text)
    → All IsNameChar s
    → p ≢ []
    → NoNewline p
    → match_base taken (s ++ b'(' ∷ (p ++ b')' ∷ [])) ≡ some (taken ++ s, some p)
match_base-params taken [] p h n k =
    match_base_hit taken b'(' (p ++ b')' ∷ []) (some p) (match_tail-params p n k)
    ∙ ap (λ t. some (t, some p)) (sym (append-nil taken))
match_base-params taken (c ∷ s) p (hc, hs) n k =
    match_base_step taken c _ hc
    ∙ match_base-params (taken ++ c ∷ []) s p hs n k
    ∙ ap (λ t. some (t, some p)) (append_assoc taken (c ∷ []) s)

match_base-name : (taken s : Text) → All IsNameChar s → match_base taken s ≡ some (taken ++ s, none)
match_base-name taken [] h = unfold match_base in rw append-nil
match_base-name taken (c ∷ s) (hc, hs) =
    match_base_step taken c s hc
    ∙ match_base-name (taken ++ c ∷ []) s hs
    ∙ ap (λ t. some (t, none)) (append_assoc taken (c ∷ []) s)

-- A name alone, and a name with parameters in brackets.
pub match_type-name : (name : Text) → IsName name → match_type name ≡ some (name, none)
unfolding match_type
match_type-name [] h = absurd h
match_type-name (c ∷ s) (hc, hs) = rw (hc, match_base-name (c ∷ []) s hs)

pub match_type-params :
    (name p : Text)
    → IsName name
    → p ≢ []
    → NoNewline p
    → match_type (name ++ b'(' ∷ (p ++ b')' ∷ [])) ≡ some (name, some p)
unfolding match_type
match_type-params [] p h n k = absurd h
match_type-params (c ∷ s) p (hc, hs) n k = rw (hc, match_base-params (c ∷ []) s p hs n k)
