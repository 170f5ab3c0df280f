-- ===== src/Reflect/ForeignKeys/Columns.antt =====
-- The columns of a foreign key, as `get_foreign_keys` of sqlalchemy_cubrid/dialect.py takes them apart.
use sqlalchemy_cubrid.Reflect.ForeignKeys.{
  is_bracket, lstrip_brackets, rstrip_brackets, strip_brackets, column_names,
}
use sqlalchemy_cubrid.Reflect.ForeignKeys.Printed.{bracketed, columns_text, IsColumns}
use sqlalchemy_cubrid.Prelude.{
  ℕ, ◌≡◌, ◌≢◌, refl, ap, ap₂, ◌∙◌, false, List, [], ◌∷◌, ◌++◌, map, Text, codes, join, split,
  split_from, split_from-append, split_from-Lacks, strip, lstrip, rstrip, All, All-append, All-map,
  Lacks, is_space, arith,
}

-- A column's name has none of the characters that stand round it.
abbrev pub IsColumnChar : ℕ → Type 0
IsColumnChar c = (c ≢ b',') × (c ≢ b')') × (is_bracket c ≡ false)

abbrev pub IsColumn : Text → Type 0
IsColumn = All IsColumnChar

-- At least one column.
abbrev pub AreColumns : List Text → Type 0
AreColumns [] = ⊥
AreColumns (c ∷ cs) = All IsColumn (c ∷ cs)

bracketed-Lacks : (d : ℕ) (c : Text) → d ≢ b'[' → d ≢ b']' → Lacks d c → Lacks d (bracketed c)
bracketed-Lacks d c p q h = (omega arith, All-append _ c (b']' ∷ []) h (omega arith, tt))

IsColumn-Lacks_comma : (c : Text) → IsColumn c → Lacks b',' c
IsColumn-Lacks_comma c h = All-map _ _ (λ d k. k.0) c h

IsColumn-Lacks_close : (c : Text) → IsColumn c → Lacks b')' c
IsColumn-Lacks_close c h = All-map _ _ (λ d k. k.1) c h

abbrev spaced : Text → Text
spaced c = b' ' ∷ bracketed c

split-columns_text :
    (cur c : Text) (cs : List Text)
    → All IsColumn (c ∷ cs)
    → split_from b',' cur (columns_text (c ∷ cs)) ≡ (cur ++ bracketed c) ∷ map spaced cs
unfolding join split_from
split-columns_text cur c [] (hc, hs) =
    split_from-Lacks b',' cur (bracketed c)
      (bracketed-Lacks b',' c (omega arith) (omega arith) (IsColumn-Lacks_comma c hc))
split-columns_text cur c (d ∷ cs) (hc, hs) =
    split_from-append b',' cur (bracketed c) (b' ' ∷ columns_text (d ∷ cs))
      (bracketed-Lacks b',' c (omega arith) (omega arith) (IsColumn-Lacks_comma c hc))
    ∙ ap (λ ts. (cur ++ bracketed c) ∷ ts) (split-columns_text (codes " ") d cs hs)

rstrip-cons : (c : ℕ) (s : Text) (d : ℕ) (t : Text) → rstrip s ≡ d ∷ t → rstrip (c ∷ s) ≡ c ∷ d ∷ t
unfolding rstrip
rstrip-cons c s d t h = rw (h, rstrip) refl

rstrip-end : (s : Text) (d : ℕ) → is_space d ≡ false → rstrip (s ++ d ∷ []) ≡ s ++ d ∷ []
unfolding rstrip
rstrip-end [] d h = rw h refl
rstrip-end (c ∷ []) d h = rstrip-cons c (d ∷ []) d [] (rstrip-end [] d h)
rstrip-end (c ∷ e ∷ s) d h =
    rstrip-cons c (e ∷ (s ++ d ∷ [])) e (s ++ d ∷ []) (rstrip-end (e ∷ s) d h)

strip-bracketed : (c : Text) → strip (bracketed c) ≡ bracketed c
unfolding strip lstrip
strip-bracketed c = rstrip-end (b'[' ∷ c) b']' refl

strip-spaced : (c : Text) → strip (spaced c) ≡ bracketed c
unfolding strip lstrip
strip-spaced c = rstrip-end (b'[' ∷ c) b']' refl

rstrip_brackets-cons :
    (c : ℕ) (s : Text) (d : ℕ) (t : Text)
    → rstrip_brackets s ≡ d ∷ t
    → rstrip_brackets (c ∷ s) ≡ c ∷ d ∷ t
unfolding rstrip_brackets
rstrip_brackets-cons c s d t h = rw (h, rstrip_brackets) refl

rstrip_brackets-end : (c : Text) → IsColumn c → rstrip_brackets (c ++ b']' ∷ []) ≡ c
unfolding rstrip_brackets
rstrip_brackets-end [] h = refl
rstrip_brackets-end (d ∷ []) (hd, hc) = rw (hd.2) refl
rstrip_brackets-end (d ∷ e ∷ c) (hd, hc) =
    rstrip_brackets-cons d (e ∷ (c ++ b']' ∷ [])) e c (rstrip_brackets-end (e ∷ c) hc)

strip_brackets-bracketed : (c : Text) → IsColumn c → strip_brackets (bracketed c) ≡ c
unfolding strip_brackets lstrip_brackets
strip_brackets-bracketed [] h = unfold rstrip_brackets in refl
strip_brackets-bracketed (d ∷ c) (hd, hc) =
    rw (hd.2, lstrip_brackets) (rstrip_brackets-end (d ∷ c) (hd, hc))

names-spaced :
    (cs : List Text) → All IsColumn cs → map (λ c. strip_brackets (strip c)) (map spaced cs) ≡ cs
names-spaced [] h = refl
names-spaced (c ∷ cs) (hc, hs) =
    ap₂ (λ d ds. d ∷ ds) (ap strip_brackets (strip-spaced c) ∙ strip_brackets-bracketed c hc)
      (names-spaced cs hs)

-- The columns in brackets, separated by commas, give the columns.
pub column_names-columns_text :
    (cs : List Text) → AreColumns cs → column_names (columns_text cs) ≡ cs
unfolding column_names split
column_names-columns_text [] h = absurd h
column_names-columns_text (c ∷ cs) (hc, hs) =
    ap (map (λ t. strip_brackets (strip t))) (split-columns_text [] c cs (hc, hs))
    ∙ ap₂ (λ d ds. d ∷ ds) (ap strip_brackets (strip-bracketed c) ∙ strip_brackets-bracketed c hc)
        (names-spaced cs hs)

columns_text-Lacks :
    (c : Text) (cs : List Text) → All IsColumn (c ∷ cs) → Lacks b')' (columns_text (c ∷ cs))
unfolding join
columns_text-Lacks c [] (hc, hs) =
    bracketed-Lacks b')' c (omega arith) (omega arith) (IsColumn-Lacks_close c hc)
columns_text-Lacks c (d ∷ cs) (hc, hs) =
    All-append _ (bracketed c) _
      (bracketed-Lacks b')' c (omega arith) (omega arith) (IsColumn-Lacks_close c hc))
      (omega arith, (omega arith, columns_text-Lacks d cs hs))

pub columns_text-IsColumns : (cs : List Text) → AreColumns cs → IsColumns (columns_text cs)
unfolding join
columns_text-IsColumns [] h = absurd h
columns_text-IsColumns (c ∷ []) h = (λ e. cc, columns_text-Lacks c [] h)
columns_text-IsColumns (c ∷ d ∷ cs) h = (λ e. cc, columns_text-Lacks c (d ∷ cs) h)
