-- ===== src/Reserved/Spelling.antt =====
-- The spelling of the reserved words of sqlalchemy_cubrid/base.py.
use sqlalchemy_cubrid.Reserved.{reserved_words}
use sqlalchemy_cubrid.Prelude.{
  to_lower, ap₂, inr, text_eq_iff, ◌==◌, inl, is_digit, Bool-cases, ◌&&◌, ◌||◌, ℕ, ◌≡◌, refl, Bool,
  true, false, List, [], ◌∷◌, Text, lower, text_eq, one_of, is_lower, arith,
}

-- A small letter, a digit or an underscore.
abbrev pub is_word_char : ℕ → Bool
is_word_char c = is_lower c || is_digit c || c == b'_'

unfoldable pub are_word_chars : Text → Bool
are_word_chars [] = true
are_word_chars (c ∷ s) = is_word_char c && are_word_chars s

-- A word begins with a small letter.
unfoldable pub is_plain_word : Text → Bool
unfolding are_word_chars
is_plain_word [] = false
is_plain_word (c ∷ s) = is_lower c && are_word_chars s

unfoldable pub are_plain_words : List Text → Bool
unfolding is_plain_word
are_plain_words [] = true
are_plain_words (w ∷ ws) = is_plain_word w && are_plain_words ws

reserved_words_plain : are_plain_words reserved_words ≡ true
unfolding are_plain_words is_plain_word are_word_chars
reserved_words_plain = refl

plain_of_list :
    (w : Text) (ws : List Text)
    → are_plain_words ws ≡ true
    → one_of w ws ≡ true
    → is_plain_word w ≡ true
unfolding are_plain_words one_of
plain_of_list w [] h m = cc
plain_of_list w (v ∷ ws) h m = elim (Bool-cases (text_eq w v)) [
  | inl e ↦ rw ((text_eq_iff w v).0 e) (ground arith)
  | inr n ↦ plain_of_list w ws (ground arith) (ground arith)
]

to_lower-word_char : (c : ℕ) → is_word_char c ≡ true → to_lower c ≡ c
unfolding to_lower
to_lower-word_char c h = ground arith

lower-word_chars : (s : Text) → are_word_chars s ≡ true → lower s ≡ s
unfolding are_word_chars lower
lower-word_chars [] h = refl
lower-word_chars (c ∷ s) h =
    ap₂ (λ d t. d ∷ t) (to_lower-word_char c (ground (arith, h)))
      (lower-word_chars s (ground (arith, h)))

lower-plain_word : (s : Text) → is_plain_word s ≡ true → lower s ≡ s
unfolding is_plain_word
lower-plain_word [] h = cc
lower-plain_word (c ∷ s) h = lower-word_chars (c ∷ s) (ground (arith, are_word_chars, h))

-- A word of the list is spelt in small letters, digits and underscores, a letter first: the lower-case
-- form under which a name is looked up meets it, and it reads as a regular identifier, so that only
-- the list can tell that it needs quotes.
pub reserved_words-lower :
    (w : Text) → one_of w reserved_words ≡ true → (lower w ≡ w) × (is_plain_word w ≡ true)
reserved_words-lower w m =
    let h = plain_of_list w reserved_words reserved_words_plain m in (lower-plain_word w h, h)
