-- ===== src/Collection/Wire/Encode.antt =====
-- The wire format that the docstring of `_parse_collection_bytes` describes, written as an encoder,
-- and that the parser reads it back.
use sqlalchemy_cubrid.Collection.Utf8
use sqlalchemy_cubrid.Collection.Wire.{Bytes, parse_bytes}
use sqlalchemy_cubrid.Collection.Wire.Suffix.{read_suffix, count_at, parse_bytes-eq}
use sqlalchemy_cubrid.Prelude.{
  ◌==◌, ap₂, ltb_of_ge, length-append, append_assoc, ◌^◌, lt→ltb, ℕ, zero, suc, ◌+◌, ◌-◌, ◌/◌, ◌%◌,
  ◌<◌, ◌≡◌, refl, sym, ap, ◌∙◌, Bool, true, false, some, List, [], ◌∷◌, ◌++◌, map, arith, Text, ok,
  length, All, All-append, take, drop, ltb, if◌then◌else◌, take-append_length, drop-append_length,
}

-- Four bytes, the lowest first.
unfoldable pub le32 : ℕ → Bytes
le32 n = n % 0x100 ∷ n / 0x100 % 0x100 ∷ n / 0x10000 % 0x100 ∷ n / 0x1000000 % 0x100 ∷ []

-- A size byte that counts the terminator, the content, the terminator, and three bytes of padding
-- between elements. The flag tells whether the last element has its terminator.
unfoldable pub encode_elements : Bool → List Bytes → Bytes
encode_elements t [] = []
encode_elements t (x ∷ []) = suc (length x) ∷ x ++ (if t then 0 ∷ [] else [])
encode_elements t (x ∷ y ∷ xs) = suc (length x) ∷ x ++ 0 ∷ 0 ∷ 0 ∷ 0 ∷ encode_elements t (y ∷ xs)

unfoldable pub encode_collection : ℕ → Bool → List Bytes → Bytes
unfolding le32 encode_elements
encode_collection tag t xs = le32 tag ++ (le32 (length xs) ++ encode_elements t xs)

abbrev pub IsByte : ℕ → Type 0
IsByte b = b < 0x100

le32-IsByte : (n : ℕ) → All IsByte (le32 n)
unfolding le32
le32-IsByte n = omega arith

-- The content of one element is read as it was written, and the rest of the input stays.
read_content :
    (n : ℕ) (x rest : Bytes)
    → n ≡ length x
    → (if ltb 1 (suc n) then Utf8.decode (take (suc n - 1) (x ++ rest)) else []) ≡ Utf8.decode x
read_content zero [] rest e = sym Utf8.decode_nil
read_content (suc n) [] rest e = absurd (omega arith)
read_content zero (b ∷ x) rest e = absurd (omega arith)
read_content (suc n) (b ∷ x) rest e = rw (lt→ltb 1 (suc (suc n)) (omega arith)) (
    ap Utf8.decode (
      ap (λ k. take k ((b ∷ x) ++ rest)) {y = length (b ∷ x)} (omega arith)
      ∙ take-append_length (b ∷ x) rest))

drop_content :
    (k : ℕ) (x pad rest : Bytes) → k ≡ length x + length pad → drop k (x ++ (pad ++ rest)) ≡ rest
drop_content k x pad rest e =
    ap (drop k) (sym (append_assoc x pad rest))
    ∙ ap (λ j. drop j ((x ++ pad) ++ rest)) {y = length (x ++ pad)}
        (omega (arith, length-append x pad))
    ∙ drop-append_length (x ++ pad) rest

-- An element that is not the last one has padding.
padding : (n : ℕ) → if◌then◌else◌ {A = ℕ} (suc n == 0) 0 3 ≡ 3
padding n = ground arith

read_suffix-encode_elements :
    (t : Bool) (xs : List Bytes)
    → read_suffix (length xs) (encode_elements t xs) ≡ map Utf8.decode xs
unfolding read_suffix encode_elements
read_suffix-encode_elements t [] = refl
read_suffix-encode_elements t (x ∷ []) = ap (λ d. d ∷ []) (read_content (length x) x _ refl)
read_suffix-encode_elements t (x ∷ y ∷ xs) = rw (padding (length xs)) (
    ap₂ (λ d ds. d ∷ ds) (read_content (length x) x _ refl)
      (ap (read_suffix (length (y ∷ xs)))
          (drop_content (suc (length x) + 3) x (0 ∷ 0 ∷ 0 ∷ 0 ∷ []) _ (omega arith))
        ∙ read_suffix-encode_elements t (y ∷ xs)))

-- The bytes of an encoder that keeps the size within one byte.
encode_elements-IsByte :
    (t : Bool) (xs : List Bytes)
    → All (λ x. All IsByte x × (length x < 0xff)) xs
    → All IsByte (encode_elements t xs)
unfolding encode_elements
encode_elements-IsByte t [] h = tt
encode_elements-IsByte true (x ∷ []) ((bx, sx), _) =
    (omega arith, All-append IsByte x _ bx (omega arith))
encode_elements-IsByte false (x ∷ []) ((bx, sx), _) = (omega arith, All-append IsByte x _ bx tt)
encode_elements-IsByte t (x ∷ y ∷ xs) ((bx, sx), h) = (
  omega arith,
  All-append IsByte x _ bx (
      All-append IsByte (0 ∷ 0 ∷ 0 ∷ 0 ∷ []) _ (omega arith) (encode_elements-IsByte t (y ∷ xs) h)),
)

count_at-le32 : (n : ℕ) (rest : Bytes) → n < 2 ^ 32 → count_at (le32 n ++ rest) ≡ n
unfolding count_at le32
count_at-le32 n rest h = omega arith

parse_bytes-encode_collection :
    (tag : ℕ) (t : Bool) (xs : List Bytes)
    → length xs < 2 ^ 32
    → parse_bytes (encode_collection tag t xs) ≡ ok (some (map Utf8.decode xs))
unfolding encode_collection
parse_bytes-encode_collection tag t xs h =
    parse_bytes-eq (encode_collection tag t xs)
    ∙ rw
        (
          ltb_of_ge (length (encode_collection tag t xs)) 8 (omega arith),
          count_at-le32 (length xs) (encode_elements t xs) h,
        )
        (ap (λ ds. ok (some ds)) (read_suffix-encode_elements t xs))

-- A text whose encoding, with its terminator, fits the size byte.
abbrev pub Fits : Text → Type 0
Fits s = All Utf8.IsScalar s × (length (Utf8.encode s) < 0xff)

map-decode-encode : (ss : List Text) → All Fits ss → map Utf8.decode (map Utf8.encode ss) ≡ ss
map-decode-encode [] h = refl
map-decode-encode (s ∷ ss) ((c, _), h) =
    ap₂ (λ d ds. d ∷ ds) (Utf8.decode-encode s c) (map-decode-encode ss h)

map-encode-Fits :
    (ss : List Text)
    → All Fits ss
    → All (λ x. All IsByte x × (length x < 0xff)) (map Utf8.encode ss)
map-encode-Fits [] h = tt
map-encode-Fits (s ∷ ss) ((c, n), h) = ((Utf8.encode-IsByte s c, n), map-encode-Fits ss h)

length-map : {A B : Type 0} (f : A → B) (xs : List A) → length (map f xs) ≡ length xs
length-map f [] = refl
length-map f (x ∷ xs) = ap suc (length-map f xs)

encode_collection-IsByte :
    (tag : ℕ) (t : Bool) (xs : List Bytes)
    → All (λ x. All IsByte x × (length x < 0xff)) xs
    → All IsByte (encode_collection tag t xs)
unfolding encode_collection
encode_collection-IsByte tag t xs h =
    All-append IsByte (le32 tag) (le32 (length xs) ++ encode_elements t xs) (le32-IsByte tag) (
      All-append IsByte (le32 (length xs)) (encode_elements t xs) (le32-IsByte (length xs))
        (encode_elements-IsByte t xs h))

-- Texts of Unicode scalar values whose encodings fit the size byte, fewer than 2^32 of them, have a
-- wire form that consists of bytes and that `_parse_collection_bytes` reads back, for every type tag
-- and whether or not the last element has its terminator.
pub parse_bytes-encode :
    (tag : ℕ) (t : Bool) (ss : List Text)
    → All Fits ss
    → length ss < 2 ^ 32
    → All IsByte (encode_collection tag t (map Utf8.encode ss))
      × (parse_bytes (encode_collection tag t (map Utf8.encode ss)) ≡ ok (some ss))
parse_bytes-encode tag t ss h n = (
  encode_collection-IsByte tag t _ (map-encode-Fits ss h),
  parse_bytes-encode_collection tag t (map Utf8.encode ss)
        (omega (arith, length-map Utf8.encode ss))
      ∙ ap (λ ds. ok (some ds)) (map-decode-encode ss h),
)
