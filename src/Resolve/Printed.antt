-- ===== src/Resolve/Printed.antt =====
-- Type strings as the server prints them, and what the parts of `_resolve_type` in
-- sqlalchemy_cubrid/dialect.py make of their names and parameters.
use sqlalchemy_cubrid.Prelude.{
  digit-NotSpace, NotSpace, ◌==◌, ◌||◌, ◌&&◌, is_word, Bool-cases, ℕ, ◌≡◌, ◌≢◌, refl, sym, ap, ◌∙◌,
  subst, inl, inr, Bool, true, false, none, some, List, [], ◌∷◌, ◌++◌, map, append_assoc,
  append-nil, arith, Text, codes, text_eq, text_eq_iff, one_of, split, join, strip, strip-eq, upper,
  All, pos, parse_int, parse_int-show_nat, show_nat, show_nat-All, IsDigit, All-map, All-append,
  Lacks, split_from-append, split_from-Lacks, ok, ◌>>=◌,
}
use sqlalchemy_cubrid.Resolve.{num, sized_bases, parse_parts, type_args}
use sqlalchemy_cubrid.Resolve.Pattern.{IsNameChar, find_quoted, IsName, NoNewline, newline}

-- A property of every listed text holds of a text that the list contains.
pub All-one_of :
    (P : Text → Type 0) (names : List Text) (name : Text)
    → All P names
    → one_of name names ≡ true
    → P name
unfolding one_of
All-one_of P [] name h k = cc
All-one_of P (n ∷ names) name (hn, h) k = elim (Bool-cases (text_eq name n)) [
  | inl e ↦ subst P (sym ((text_eq_iff name n).0 e)) hn
  | inr ne ↦ All-one_of P names name h (rw ne at k)
]

abbrev pub all_name_chars : Text → Bool
all_name_chars [] = true
all_name_chars (c ∷ s) = (is_word c || c == 32) && all_name_chars s

abbrev pub is_name : Text → Bool
is_name [] = false
is_name (c ∷ s) = is_word c && all_name_chars s

pub all_name_chars_sound : (s : Text) → all_name_chars s ≡ true → All IsNameChar s
all_name_chars_sound [] h = tt
all_name_chars_sound (c ∷ s) h = ground (arith, all_name_chars_sound s)

-- The test decides names.
pub is_name_sound : (s : Text) → is_name s ≡ true → IsName s
is_name_sound [] h = cc
is_name_sound (c ∷ s) h = ground (arith, all_name_chars_sound s)

-- A printed type: a name, and parameters in brackets.
abbrev pub with_params : Text → Text → Text
with_params name params = name ++ b'(' ∷ (params ++ b')' ∷ [])

-- What the five sized names have in common.
abbrev pub IsSized : Text → Type 0
IsSized name =
    (is_name name ≡ true)
    × (upper (strip name) ≡ name)
    × ((p : Text) → type_args name (some p) ≡ (do n ← parse_int p; ok (num n ∷ [])))

pub sized_bases-IsSized : All IsSized sized_bases
unfolding upper strip type_args
sized_bases-IsSized = (
  (refl, refl, λ p. refl),
  (
    (refl, refl, λ p. refl),
    ((refl, refl, λ p. refl), ((refl, refl, λ p. refl), ((refl, refl, λ p. refl), tt))),
  ),
)

pub digits-NoNewline : (n : ℕ) → NoNewline (show_nat n)
digits-NoNewline n =
    All-map IsDigit (λ d. d ≢ newline) (λ d k. omega arith) (show_nat n) (show_nat-All n)

-- "p,s"
abbrev pub pair_text : ℕ → ℕ → Text
pair_text p s = show_nat p ++ b',' ∷ show_nat s

pub append-ne-nil : (s t : Text) (c : ℕ) → s ++ c ∷ t ≢ []
append-ne-nil [] t c h = cc
append-ne-nil (d ∷ s) t c h = cc

pub pair_text-ne-nil : (p s : ℕ) → pair_text p s ≢ []
pair_text-ne-nil p s = append-ne-nil (show_nat p) (show_nat s) b','

pub pair_text-NoNewline : (p s : ℕ) → NoNewline (pair_text p s)
pair_text-NoNewline p s =
    All-append (λ d. d ≢ newline) (show_nat p) (b',' ∷ show_nat s) (digits-NoNewline p)
      (omega arith, digits-NoNewline s)

pub digits-Lacks : (n : ℕ) → Lacks b',' (show_nat n)
digits-Lacks n = All-map IsDigit (λ d. d ≢ b',') (λ d k. omega arith) (show_nat n) (show_nat-All n)

pub split-pair_text : (p s : ℕ) → split b',' (pair_text p s) ≡ show_nat p ∷ show_nat s ∷ []
unfolding split
split-pair_text p s =
    split_from-append b',' [] (show_nat p) (show_nat s) (digits-Lacks p)
    ∙ ap (λ t. show_nat p ∷ t) (split_from-Lacks b',' [] (show_nat s) (digits-Lacks s))

pub strip-show_nat : (n : ℕ) → strip (show_nat n) ≡ show_nat n
strip-show_nat n =
    strip-eq (show_nat n) (All-map IsDigit NotSpace digit-NotSpace (show_nat n) (show_nat-All n))

pub parse_parts-pair :
    (p s : ℕ) → parse_parts (show_nat p ∷ show_nat s ∷ []) ≡ ok (pos p ∷ pos s ∷ [])
unfolding parse_parts
parse_parts-pair p s =
    rw (strip-show_nat p, strip-show_nat s, parse_int-show_nat p, parse_int-show_nat s)

pub numeric_args :
    (base : Text) (p s : ℕ)
    → type_args base (some (pair_text p s))
      ≡ (do ns ← parse_parts (split b',' (pair_text p s)); ok (map num ns))
    → type_args base (some (pair_text p s)) ≡ ok (num (pos p) ∷ num (pos s) ∷ [])
numeric_args base p s e = e ∙ rw (split-pair_text p s, parse_parts-pair p s)

-- A value between quotes, and values separated by commas, as ENUM prints them.
abbrev pub quoted : Text → Text
quoted v = b'\'' ∷ (v ++ b'\'' ∷ [])

abbrev pub enum_text : List Text → Text
enum_text vs = join (codes ",") (map quoted vs)

pub find_quoted-inside :
    (taken v rest : Text)
    → Lacks b'\'' v
    → find_quoted (some taken) (v ++ b'\'' ∷ rest) ≡ (taken ++ v) ∷ find_quoted none rest
unfolding find_quoted
find_quoted-inside taken [] rest h = ap (λ t. t ∷ find_quoted none rest) (sym (append-nil taken))
find_quoted-inside taken (c ∷ v) rest (hc, hv) =
    ground (arith, find_quoted-inside (taken ++ c ∷ []) v rest hv, append_assoc taken (c ∷ []) v)

pub find_quoted-quoted :
    (v rest : Text)
    → Lacks b'\'' v
    → find_quoted none (quoted v ++ rest) ≡ v ∷ find_quoted none rest
unfolding find_quoted
find_quoted-quoted v rest h = rw (append_assoc v (b'\'' ∷ []) rest) (find_quoted-inside [] v rest h)

pub find_quoted-enum_text :
    (vs : List Text) → All (Lacks b'\'') vs → find_quoted none (enum_text vs) ≡ vs
unfolding find_quoted join
find_quoted-enum_text [] h = refl
find_quoted-enum_text (v ∷ []) (hv, _) =
    ap (find_quoted none) (sym (append-nil (quoted v))) ∙ find_quoted-quoted v [] hv
find_quoted-enum_text (v ∷ w ∷ vs) (hv, h) =
    find_quoted-quoted v (b',' ∷ enum_text (w ∷ vs)) hv
    ∙ ap (λ t. v ∷ t) (find_quoted-enum_text (w ∷ vs) h)

pub quoted-NoNewline : (v : Text) → NoNewline v → NoNewline (quoted v)
quoted-NoNewline v h = (omega arith, All-append (λ d. d ≢ newline) v (b'\'' ∷ []) h (omega arith))

pub enum_text-NoNewline : (vs : List Text) → All NoNewline vs → NoNewline (enum_text vs)
unfolding join
enum_text-NoNewline [] h = tt
enum_text-NoNewline (v ∷ []) (hv, _) = quoted-NoNewline v hv
enum_text-NoNewline (v ∷ w ∷ vs) (hv, h) =
    All-append (λ d. d ≢ newline) (quoted v) (b',' ∷ enum_text (w ∷ vs)) (quoted-NoNewline v hv)
      (omega arith, enum_text-NoNewline (w ∷ vs) h)

pub enum_text-ne-nil : (v : Text) (vs : List Text) → enum_text (v ∷ vs) ≢ []
unfolding join
enum_text-ne-nil v [] h = cc
enum_text-ne-nil v (w ∷ vs) h = cc
