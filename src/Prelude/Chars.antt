-- ===== src/Prelude/Chars.antt =====
-- Character classes of `str` and `re`, on the ASCII range: a code point above 127 is in no class and
-- has no other case. `strip`, `upper` and `lower` of a text.
use Prim.Native.Nat.{ℕ, ◌+◌, ◌-◌}
use mathlib.Core.Path.{◌≡◌, refl, ap, ◌∙◌}
use mathlib.Core.Bool.{Bool, false, ◌&&◌, ◌||◌}
use mathlib.Core.List.{[], ◌∷◌, map}
use native.Mathlib.Omega.{arith}
use sqlalchemy_cubrid.Prelude.Tests.{leb, ◌==◌, if◌then◌else◌}
use sqlalchemy_cubrid.Prelude.Lists.{All}
use sqlalchemy_cubrid.Prelude.Strings.{Text}

-- `\d`
abbrev pub is_digit : ℕ → Bool
is_digit c = leb b'0' c && leb c b'9'

abbrev pub is_upper : ℕ → Bool
is_upper c = leb b'A' c && leb c b'Z'

abbrev pub is_lower : ℕ → Bool
is_lower c = leb b'a' c && leb c b'z'

-- `\w`
abbrev pub is_word : ℕ → Bool
is_word c = is_digit c || is_upper c || is_lower c || c == b'_'

-- `\s`
abbrev pub is_space : ℕ → Bool
is_space c = leb 9 c && leb c 13 || leb 28 c && leb c 32

unfoldable pub to_upper : ℕ → ℕ
to_upper c = if is_lower c then c - 32 else c

unfoldable pub to_lower : ℕ → ℕ
to_lower c = if is_upper c then c + 32 else c

-- `s.upper()`
unfoldable pub upper : Text → Text
unfolding to_upper
upper s = map to_upper s

-- `s.lower()`
unfoldable pub lower : Text → Text
unfolding to_lower
lower s = map to_lower s

-- `s.lstrip()`
unfoldable pub lstrip : Text → Text
lstrip [] = []
lstrip (c ∷ s) = let rest = lstrip s in if is_space c then rest else c ∷ s

-- `s.rstrip()`
unfoldable pub rstrip : Text → Text
rstrip [] = []
rstrip (c ∷ s) = elim (rstrip s) [ [] ↦ if is_space c then [] else c ∷ [] | d ∷ t ↦ c ∷ d ∷ t ]

-- `s.strip()`
unfoldable pub strip : Text → Text
unfolding lstrip rstrip
strip s = rstrip (lstrip s)

abbrev pub NotSpace : ℕ → Type 0
NotSpace c = is_space c ≡ false

rstrip-eq : (s : Text) → All NotSpace s → rstrip s ≡ s
unfolding rstrip
rstrip-eq [] h = refl
rstrip-eq (c ∷ s) (hc, hs) = ground (arith, rstrip-eq s hs)

lstrip-eq : (s : Text) → All NotSpace s → lstrip s ≡ s
unfolding lstrip
lstrip-eq [] h = refl
lstrip-eq (c ∷ s) (hc, hs) = ground arith

-- A text with no white space is its own `strip`.
pub strip-eq : (s : Text) → All NotSpace s → strip s ≡ s
strip-eq s h = unfold strip in ap rstrip (lstrip-eq s h) ∙ rstrip-eq s h

pub to_upper_idem : (c : ℕ) → to_upper (to_upper c) ≡ to_upper c
unfolding to_upper
to_upper_idem c = ground arith

pub upper_idem : (s : Text) → upper (upper s) ≡ upper s
unfolding upper
upper_idem [] = refl
upper_idem (c ∷ s) = cc (to_upper_idem c, upper_idem s)
