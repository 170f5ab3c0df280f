-- ===== src/Collection/Utf8.antt =====
-- `data.decode("utf-8", errors="replace")`, the standard library's decoder that
-- sqlalchemy_cubrid/types.py calls on each element: an ill-formed sequence becomes U+FFFD, and the
-- byte that broke it is read again as the start of the next one.
use sqlalchemy_cubrid.Prelude.{
  All-append, inr, ltb→lt, inl, Bool-cases, ℕ_discrete, ◌≢◌, All, arith, ℕ, zero, suc, ◌+◌, ◌-◌,
  ◌*◌, ◌/◌, ◌%◌, ◌≤◌, ◌<◌, ◌≡◌, refl, ap, ◌⊎◌, ◌∙◌, ◌&&◌, List, [], ◌∷◌, ◌++◌, Text, leb, ltb, ◌==◌,
  if◌then◌else◌,
}

-- What a first byte announces: a character, `need` bytes more of which the next lies in a range, or
-- nothing.
pub data Lead : Type 0 where
  char : ℕ → Lead
  more : ℕ → ℕ → ℕ → ℕ → Lead
  bad : Lead

lead : ℕ → Lead
lead c =
    if ltb c 0x80
    then char c
    else if ltb c 0xc2
    then bad
    else if ltb c 0xe0
    then more 0 0x80 0xbf (c - 0xc0)
    else if c == 0xe0
    then more 1 0xa0 0xbf 0
    else if c == 0xed
    then more 1 0x80 0x9f 13
    else if ltb c 0xf0
    then more 1 0x80 0xbf (c - 0xe0)
    else if c == 0xf0
    then more 2 0x90 0xbf 0
    else if c == 0xf4
    then more 2 0x80 0x8f 4
    else if ltb c 0xf4
    then more 2 0x80 0xbf (c - 0xf0)
    else bad

abbrev pub replacement : ℕ
replacement = 0xfffd

-- Either between two characters, or inside one: bytes needed after the next one, the range of the
-- next one, and the bits so far.
pub data Pending : Type 0 where
  idle : Pending
  inside : ℕ → ℕ → ℕ → ℕ → Pending

emitted : Lead → Text
emitted (char c) = c ∷ []
emitted (more n lo hi a) = []
emitted bad = replacement ∷ []

entered : Lead → Pending
entered (char c) = idle
entered (more n lo hi a) = inside n lo hi a
entered bad = idle

-- The characters that one byte completes, and the state that it leaves.
step : Pending → ℕ → Text × Pending
unfolding lead emitted entered
step idle c = (emitted (lead c), entered (lead c))
step (inside n lo hi a) c =
    if leb lo c && leb c hi
    then elim n [
      | zero ↦ ((a * 64 + (c - 0x80)) ∷ [], idle)
      | suc m ↦ ([], inside m 0x80 0xbf (a * 64 + (c - 0x80)))
    ]
    else (replacement ∷ emitted (lead c), entered (lead c))

decode_from : Pending → List ℕ → Text
unfolding step
decode_from idle [] = []
decode_from (inside n lo hi a) [] = replacement ∷ []
decode_from p (c ∷ s) = (step p c).0 ++ decode_from (step p c).1 s

unfoldable pub decode : List ℕ → Text
unfolding decode_from
decode s = decode_from idle s

-- The encoder of the standard.
unfoldable pub encode_char : ℕ → List ℕ
encode_char c =
    if ltb c 0x80
    then c ∷ []
    else if ltb c 0x800
    then (0xc0 + c / 64) ∷ (0x80 + c % 64) ∷ []
    else if ltb c 0x10000
    then (0xe0 + c / 4096) ∷ (0x80 + c / 64 % 64) ∷ (0x80 + c % 64) ∷ []
    else (0xf0 + c / 262144) ∷ (0x80 + c / 4096 % 64) ∷ (0x80 + c / 64 % 64) ∷ (0x80 + c % 64) ∷ []

unfoldable pub encode : Text → List ℕ
unfolding encode_char
encode [] = []
encode (c ∷ s) = encode_char c ++ encode s

-- A Unicode scalar value: a code point that is no surrogate.
abbrev pub IsScalar : ℕ → Type 0
IsScalar c = (c < 0xd800) ⊎ ((0xe000 ≤ c) × (c < 0x110000))

-- One continuation byte inside a character, the last one and an earlier one.
last_byte :
    (lo hi a b : ℕ) (s : List ℕ)
    → lo ≤ b
    → b ≤ hi
    → decode_from (inside 0 lo hi a) (b ∷ s) ≡ (a * 64 + (b - 0x80)) ∷ decode_from idle s
unfolding decode_from
last_byte lo hi a b s h k = ground arith

inner_byte :
    (n lo hi a b : ℕ) (s : List ℕ)
    → lo ≤ b
    → b ≤ hi
    → decode_from (inside (suc n) lo hi a) (b ∷ s)
      ≡ decode_from (inside n 0x80 0xbf (a * 64 + (b - 0x80))) s
unfolding decode_from
inner_byte n lo hi a b s h k = ground arith

first_byte :
    (n lo hi a b : ℕ) (s : List ℕ)
    → lead b ≡ more n lo hi a
    → decode_from idle (b ∷ s) ≡ decode_from (inside n lo hi a) s
unfolding decode_from
first_byte n lo hi a b s e = rw e

two_bytes :
    (c : ℕ) (s : List ℕ)
    → 0x80 ≤ c
    → c < 0x800
    → decode_from idle ((0xc0 + c / 64) ∷ (0x80 + c % 64) ∷ s) ≡ c ∷ decode_from idle s
two_bytes c s h k =
    first_byte 0 0x80 0xbf (c / 64) (0xc0 + c / 64) _ (unfold lead in ground arith)
    ∙ last_byte 0x80 0xbf (c / 64) (0x80 + c % 64) s (omega arith) (omega arith)
    ∙ ap (λ d. d ∷ decode_from idle s) {y = c} (omega arith)

-- The second byte's range and the bits so far, for the first byte of three.
three_bytes :
    (lo hi q c : ℕ) (s : List ℕ)
    → lead (0xe0 + c / 4096) ≡ more 1 lo hi q
    → q ≡ c / 4096
    → lo ≤ 0x80 + c / 64 % 64
    → 0x80 + c / 64 % 64 ≤ hi
    → decode_from idle ((0xe0 + c / 4096) ∷ (0x80 + c / 64 % 64) ∷ (0x80 + c % 64) ∷ s)
      ≡ c ∷ decode_from idle s
three_bytes lo hi q c s e eq h k =
    first_byte 1 lo hi q _ _ e
    ∙ inner_byte 0 lo hi q (0x80 + c / 64 % 64) _ h k
    ∙ last_byte 0x80 0xbf _ (0x80 + c % 64) s (omega arith) (omega arith)
    ∙ ap (λ d. d ∷ decode_from idle s) {y = c} (omega arith)

four_bytes :
    (lo hi q c : ℕ) (s : List ℕ)
    → lead (0xf0 + c / 262144) ≡ more 2 lo hi q
    → q ≡ c / 262144
    → lo ≤ 0x80 + c / 4096 % 64
    → 0x80 + c / 4096 % 64 ≤ hi
    → decode_from idle
        ((0xf0 + c / 262144) ∷ (0x80 + c / 4096 % 64) ∷ (0x80 + c / 64 % 64) ∷ (0x80 + c % 64) ∷ s)
      ≡ c ∷ decode_from idle s
four_bytes lo hi q c s e eq h k =
    first_byte 2 lo hi q _ _ e
    ∙ inner_byte 1 lo hi q (0x80 + c / 4096 % 64) _ h k
    ∙ inner_byte 0 0x80 0xbf _ (0x80 + c / 64 % 64) _ (omega arith) (omega arith)
    ∙ last_byte 0x80 0xbf _ (0x80 + c % 64) s (omega arith) (omega arith)
    ∙ ap (λ d. d ∷ decode_from idle s) {y = c} (omega arith)

-- What `lead` says of the first byte of three and of four, by its value.
lead_e0 : (b : ℕ) → b ≡ 0xe0 → lead b ≡ more 1 0xa0 0xbf 0
unfolding lead
lead_e0 b h = ground arith

lead_ed : (b : ℕ) → b ≡ 0xed → lead b ≡ more 1 0x80 0x9f 13
unfolding lead
lead_ed b h = ground arith

lead_three : (b : ℕ) → 0xe0 < b → b < 0xf0 → b ≢ 0xed → lead b ≡ more 1 0x80 0xbf (b - 0xe0)
unfolding lead
lead_three b h k n = ground arith

lead_f0 : (b : ℕ) → b ≡ 0xf0 → lead b ≡ more 2 0x90 0xbf 0
unfolding lead
lead_f0 b h = ground arith

lead_f4 : (b : ℕ) → b ≡ 0xf4 → lead b ≡ more 2 0x80 0x8f 4
unfolding lead
lead_f4 b h = ground arith

lead_four : (b : ℕ) → 0xf0 < b → b < 0xf4 → lead b ≡ more 2 0x80 0xbf (b - 0xf0)
unfolding lead
lead_four b h k = ground arith

three_bytes-IsScalar :
    (c : ℕ) (s : List ℕ)
    → IsScalar c
    → 0x800 ≤ c
    → c < 0x10000
    → decode_from idle ((0xe0 + c / 4096) ∷ (0x80 + c / 64 % 64) ∷ (0x80 + c % 64) ∷ s)
      ≡ c ∷ decode_from idle s
three_bytes-IsScalar c s i h k = elim (ℕ_discrete (c / 4096) 0) [
  | yes e ↦
      three_bytes 0xa0 0xbf 0 c s (lead_e0 _ (omega arith)) (omega arith) (omega arith)
        (omega arith)
  | no n ↦ elim (ℕ_discrete (c / 4096) 13) [
    | yes e ↦
        three_bytes 0x80 0x9f 13 c s (lead_ed _ (omega arith)) (omega arith) (omega arith)
          (omega arith)
    | no m ↦
        three_bytes 0x80 0xbf _ c s (lead_three _ (omega arith) (omega arith) (omega arith))
          (omega arith) (omega arith) (omega arith)
  ]
]

four_bytes-IsScalar :
    (c : ℕ) (s : List ℕ)
    → 0x10000 ≤ c
    → c < 0x110000
    → decode_from idle
        ((0xf0 + c / 262144) ∷ (0x80 + c / 4096 % 64) ∷ (0x80 + c / 64 % 64) ∷ (0x80 + c % 64) ∷ s)
      ≡ c ∷ decode_from idle s
four_bytes-IsScalar c s h k = elim (ℕ_discrete (c / 262144) 0) [
  | yes e ↦
      four_bytes 0x90 0xbf 0 c s (lead_f0 _ (omega arith)) (omega arith) (omega arith) (omega arith)
  | no n ↦ elim (ℕ_discrete (c / 262144) 4) [
    | yes e ↦
        four_bytes 0x80 0x8f 4 c s (lead_f4 _ (omega arith)) (omega arith) (omega arith)
          (omega arith)
    | no m ↦
        four_bytes 0x80 0xbf _ c s (lead_four _ (omega arith) (omega arith)) (omega arith)
          (omega arith) (omega arith)
  ]
]

one_byte : (c : ℕ) (s : List ℕ) → c < 0x80 → decode_from idle (c ∷ s) ≡ c ∷ decode_from idle s
unfolding decode_from
one_byte c s h = ground arith

decode_from-encode_char :
    (c : ℕ) (s : List ℕ)
    → IsScalar c
    → decode_from idle (encode_char c ++ s) ≡ c ∷ decode_from idle s
unfolding encode_char
decode_from-encode_char c s h = elim (Bool-cases (ltb c 0x80)) [
  | inl e ↦ rw e (one_byte c s (ltb→lt c _ e))
  | inr n ↦ rw n (elim (Bool-cases (ltb c 0x800)) [
    | inl e ↦ rw e (two_bytes c s (ground arith) (ltb→lt c _ e))
    | inr m ↦ rw m (elim (Bool-cases (ltb c 0x10000)) [
      | inl e ↦ rw e (three_bytes-IsScalar c s h (ground arith) (ltb→lt c _ e))
      | inr l ↦ rw l (four_bytes-IsScalar c s (ground arith) (ground arith))
    ])
  ])
]

decode_from-encode : (s : Text) → All IsScalar s → decode_from idle (encode s) ≡ s
unfolding encode decode_from
decode_from-encode [] h = refl
decode_from-encode (c ∷ s) (hc, hs) =
    decode_from-encode_char c (encode s) hc ∙ ap (λ t. c ∷ t) (decode_from-encode s hs)

-- Decoding undoes the standard's encoding, for every text of Unicode scalar values.
pub decode-encode : (s : Text) → All IsScalar s → decode (encode s) ≡ s
unfolding decode
decode-encode s h = decode_from-encode s h

pub decode_nil : decode [] ≡ []
unfolding decode
decode_nil = refl

encode_char-IsByte : (c : ℕ) → IsScalar c → All (λ b. b < 0x100) (encode_char c)
unfolding encode_char
encode_char-IsByte c h = ground arith

-- The encoding consists of bytes.
pub encode-IsByte : (s : Text) → All IsScalar s → All (λ b. b < 0x100) (encode s)
unfolding encode
encode-IsByte [] h = tt
encode-IsByte (c ∷ s) (hc, hs) =
    All-append _ (encode_char c) (encode s) (encode_char-IsByte c hc) (encode-IsByte s hs)
