-- ===== src/Reflect/ForeignKeys/ReadBack.antt =====
-- Foreign keys read back from SHOW CREATE TABLE by `get_foreign_keys` of
-- sqlalchemy_cubrid/dialect.py.
use sqlalchemy_cubrid.Regex.{Captures, match}
use sqlalchemy_cubrid.Regex.Steps.{Stops}
use sqlalchemy_cubrid.Reflect.ForeignKeys.{fk_pattern, find_all}
use sqlalchemy_cubrid.Reflect.ForeignKeys.Printed.{
  Action, PrintedKey, columns_text, on_text, actions_text, table_text, referred_text, key_text,
  key_captures, IsMatchable,
}
use sqlalchemy_cubrid.Reflect.ForeignKeys.Match.{match-key_text}
use sqlalchemy_cubrid.Prelude.{
  drop, ℕ, zero, ◌-◌, ◌≡◌, refl, ap, ◌∙◌, false, Option, none, some, List, [], ◌∷◌, ◌++◌, map,
  append_assoc, Text, codes, All, length, length-append, is_space, arith,
}

-- No match begins in the text, whatever follows it.
abbrev pub IsQuiet : Text → Type 0
IsQuiet [] = Unit
IsQuiet (c ∷ s) = ((rest : Text) → match fk_pattern (c ∷ (s ++ rest)) ≡ none) × IsQuiet s

pub find_all-IsQuiet : (s rest : Text) → IsQuiet s → find_all zero (s ++ rest) ≡ find_all zero rest
unfolding find_all
find_all-IsQuiet [] rest h = refl
find_all-IsQuiet (c ∷ s) rest (hc, hs) = rw (hc rest, find_all) (find_all-IsQuiet s rest hs)

find_all-skip : (w rest : Text) → find_all (length w) (w ++ rest) ≡ find_all zero rest
unfolding find_all
find_all-skip [] rest = refl
find_all-skip (c ∷ w) rest = find_all-skip w rest

on_text-append :
    (event : Text) (o : Option Action) (r s : Text)
    → on_text event o (r ++ s) ≡ on_text event o r ++ s
on_text-append event none r s = refl
on_text-append event (some a) r s = simp (append_assoc)

table_text-append :
    (owner : Option Text) (table r s : Text)
    → table_text owner table (r ++ s) ≡ table_text owner table r ++ s
table_text-append none table r s = simp (append_assoc)
table_text-append (some owner) table r s = simp (append_assoc)

actions_text-append :
    (d u : Option Action) (r s : Text) → actions_text d u (r ++ s) ≡ actions_text d u r ++ s
actions_text-append d u r s =
    ap (on_text (codes "DELETE") d) (on_text-append (codes "UPDATE") u r s)
    ∙ on_text-append (codes "DELETE") d (on_text (codes "UPDATE") u r) s

referred_text-append :
    (columns r s : Text) → referred_text columns (r ++ s) ≡ referred_text columns r ++ s
referred_text-append columns r s = simp (append_assoc)

-- The text of a key up to the name of the table.
abbrev head_text : PrintedKey → Text → Text
head_text f t =
    codes "CONSTRAINT ["
    ++ (f.name
        ++ (codes "] FOREIGN KEY (" ++ (columns_text f.columns ++ (codes ") REFERENCES [" ++ t))))

head_text-append : (f : PrintedKey) (r s : Text) → head_text f (r ++ s) ≡ head_text f r ++ s
head_text-append f r s = simp (append_assoc)

key_text-append : (f : PrintedKey) (r s : Text) → key_text f (r ++ s) ≡ key_text f r ++ s
key_text-append f r s =
    ap (λ t. head_text f (table_text f.owner f.table (referred_text (columns_text f.referred) t)))
      (actions_text-append f.on_delete f.on_update r s)
    ∙ (ap (λ t. head_text f (table_text f.owner f.table t))
          (referred_text-append (columns_text f.referred) (actions_text f.on_delete f.on_update r)
            s)
        ∙ (ap (head_text f) (table_text-append f.owner f.table _ s) ∙ head_text-append f _ s))

-- The text of a key behind its first letter.
abbrev key_tail : PrintedKey → Text
key_tail f = drop 1 (key_text f [])

key_tail-append : (f : PrintedKey) (rest : Text) → drop 1 (key_text f rest) ≡ key_tail f ++ rest
key_tail-append f rest = ap (drop 1) (key_text-append f [] rest)

length-sub : (w rest : Text) → length (w ++ rest) - length rest ≡ length w
length-sub w rest = omega (arith, length-append w rest)

find_all_hit :
    (c : ℕ) (s : Text) (caps : Captures) (rest : Text)
    → match fk_pattern (c ∷ s) ≡ some (caps, rest)
    → find_all zero (c ∷ s) ≡ caps ∷ find_all (length s - length rest) s
unfolding find_all
find_all_hit c s caps rest h = rw (h, find_all) refl

-- A key is one match, and the search goes on behind it.
find_all-key_text :
    (f : PrintedKey) (rest : Text)
    → IsMatchable f
    → Stops is_space rest
    → find_all zero (key_text f rest) ≡ key_captures f ∷ find_all zero rest
find_all-key_text f rest m st =
    find_all_hit b'C' (drop 1 (key_text f rest)) (key_captures f) rest (match-key_text f rest m st)
    ∙ (ap (λ caps. key_captures f ∷ caps)
        (ap (λ s. find_all (length s - length rest) s) (key_tail-append f rest)
          ∙ (ap (λ n. find_all n (key_tail f ++ rest)) (length-sub (key_tail f) rest)
              ∙ find_all-skip (key_tail f) rest)))

-- Keys, each with the text that stands behind it.
abbrev pub ddl_text : List (PrintedKey × Text) → Text
ddl_text [] = []
ddl_text ((f, gap) ∷ keys) = key_text f (gap ++ ddl_text keys)

-- A gap ends a key, and no match begins in it.
abbrev pub IsGap : Text → Type 0
IsGap [] = ⊥
IsGap (c ∷ s) = (is_space c ≡ false) × IsQuiet (c ∷ s)

pub find_all-ddl_text :
    (keys : List (PrintedKey × Text))
    → All (λ k. IsMatchable k.0 × IsGap k.1) keys
    → find_all zero (ddl_text keys) ≡ map (λ k. key_captures k.0) keys
find_all-ddl_text [] h = unfold find_all in refl
find_all-ddl_text ((f, []) ∷ keys) ((m, g), hs) = absurd g
find_all-ddl_text ((f, c ∷ gap) ∷ keys) ((m, (st, q)), hs) =
    find_all-key_text f (c ∷ (gap ++ ddl_text keys)) m st
    ∙ ap (λ caps. key_captures f ∷ caps)
        (find_all-IsQuiet (c ∷ gap) (ddl_text keys) q ∙ find_all-ddl_text keys hs)
