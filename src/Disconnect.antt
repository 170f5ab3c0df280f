-- ===== src/Disconnect.antt =====
-- `is_disconnect` of sqlalchemy_cubrid/dialect.py.
use sqlalchemy_cubrid.Prelude.{
  ap₂, starts_with, ◌++◌, ==_iff, ap, ◌∙◌, Bool-cases, ◌≡◌, refl, ◌↔◌, ◌⊎◌, inl, inr, Bool, true,
  false, ◌&&◌, ◌||◌, Option, none, some, List, [], ◌∷◌, arith, Text, codes, contains, lower, ℤ, pos,
  negsuc, ◌==◌, if◌then◌else◌,
}

-- An argument of an exception: a number, or anything else.
pub data Argument : Type 0 where
  int : ℤ → Argument
  object : Argument

-- An exception: whether it is an instance of the driver's two classes, its `str`, and its `args`.
pub record Exc : Type 0 where
  pub is_interface_error : Bool
  pub is_operational_error : Bool
  pub message : Text
  pub args : List Argument

abbrev pub mentions : Exc → Text → Bool
mentions e word = contains (lower e.message) word

-- `e.args[0]` if it is a number.
unfoldable pub error_code : Exc → Option ℤ
error_code e = elim e.args [ [] ↦ none | a ∷ _ ↦ elim a [ int n ↦ some n | object ↦ none ] ]

-- -4 (communication error), -11 (handle is closed), -21003 (connection refused).
unfoldable pub is_disconnect_code : Option ℤ → Bool
is_disconnect_code none = false
is_disconnect_code (some (pos n)) = false
is_disconnect_code (some (negsuc n)) = n == 3 || n == 10 || n == 21002

unfoldable pub is_disconnect : Exc → Bool
unfolding error_code is_disconnect_code
is_disconnect e =
    if e.is_interface_error && (mentions e (codes "closed") || mentions e (codes "connection"))
    then true
    else if e.is_operational_error
        && (mentions e (codes "communication") || mentions e (codes "connection"))
    then true
    else is_disconnect_code (error_code e)

-- The `str` of the exception has the word in it, in any letter case.
abbrev pub Says : Exc → Text → Type 0
Says e word = (before after : Text) × (lower e.message ≡ before ++ (word ++ after))

-- The first of the arguments is the number.
abbrev pub HasCode : Exc → ℤ → Type 0
HasCode e code = (others : List Argument) × (e.args ≡ int code ∷ others)

-- The reasons to give a connection up.
pub data Reason (e : Exc) : Type 0 where
  interface_closed : e.is_interface_error ≡ true → Says e (codes "closed") → Reason e
  interface_connection : e.is_interface_error ≡ true → Says e (codes "connection") → Reason e
  operational_communication :
      e.is_operational_error ≡ true → Says e (codes "communication") → Reason e
  operational_connection : e.is_operational_error ≡ true → Says e (codes "connection") → Reason e
  code_communication : HasCode e (negsuc 3) → Reason e
  code_handle_closed : HasCode e (negsuc 10) → Reason e
  code_refused : HasCode e (negsuc 21002) → Reason e

starts_with-append : (p t : Text) → starts_with (p ++ t) p ≡ true
unfolding starts_with
starts_with-append [] t = refl
starts_with-append (c ∷ p) t = ground (arith, starts_with-append p t)

starts_with_sound : (s p : Text) → starts_with s p ≡ true → (t : Text) × (s ≡ p ++ t)
unfolding starts_with
starts_with_sound s [] h = (s, refl)
starts_with_sound [] (d ∷ p) h = cc
starts_with_sound (c ∷ s) (d ∷ p) h =
    let (t, e) = starts_with_sound s p (ground (arith, h)) in
    (t, ap₂ (λ x xs. x ∷ xs) (ground (arith, h)) e)

contains_complete : (before word after : Text) → contains (before ++ (word ++ after)) word ≡ true
unfolding contains
contains_complete [] [] [] = unfold starts_with in refl
contains_complete [] [] (c ∷ after) = unfold starts_with in refl
contains_complete [] (c ∷ word) after = rw (starts_with-append (c ∷ word) after) refl
contains_complete (c ∷ before) word after = ground (arith, contains_complete before word after)

contains_sound :
    (s word : Text)
    → contains s word ≡ true
    → (before after : Text) × (s ≡ before ++ (word ++ after))
unfolding contains
contains_sound [] word h = let (t, e) = starts_with_sound [] word h in ([], t, e)
contains_sound (c ∷ s) word h = elim (Bool-cases (starts_with (c ∷ s) word)) [
  | inl e ↦ let (t, p) = starts_with_sound (c ∷ s) word e in ([], t, p)
  | inr n ↦
      let (before, after, p) = contains_sound s word (rw n at h) in
      (c ∷ before, after, ap (λ t. c ∷ t) p)
]

Says-mentions : (e : Exc) (word : Text) → mentions e word ≡ true → Says e word
Says-mentions e word h = contains_sound (lower e.message) word h

mentions-Says : (e : Exc) (word : Text) → Says e word → mentions e word ≡ true
mentions-Says e word (before, after, p) = rw p (contains_complete before word after)

first_code :
    (args : List Argument) (code : ℤ)
    → (elim args [ [] ↦ none | a ∷ _ ↦ elim a [ int n ↦ some n | object ↦ none ] ]) ≡ some code
    → (others : List Argument) × (args ≡ int code ∷ others)
first_code [] code h = cc
first_code (int n ∷ others) code h = (others, ap (λ m. int m ∷ others) (some_value n code h))
  where
    some_value : (m n : ℤ) → some m ≡ some n → m ≡ n
    some_value m n h = cc
first_code (object ∷ others) code h = cc

HasCode-error_code : (e : Exc) (code : ℤ) → error_code e ≡ some code → HasCode e code
unfolding error_code
HasCode-error_code e code h = first_code e.args code h

error_code-HasCode : (e : Exc) (code : ℤ) → HasCode e code → error_code e ≡ some code
unfolding error_code
error_code-HasCode e code (others, p) = rw p refl

disconnect_code_sound :
    (e : Exc) (o : Option ℤ) → error_code e ≡ o → is_disconnect_code o ≡ true → Reason e
unfolding is_disconnect_code
disconnect_code_sound e none p h = cc
disconnect_code_sound e (some (pos n)) p h = cc
disconnect_code_sound e (some (negsuc n)) p h = elim (Bool-cases (n == 3)) [
  | inl q ↦
      code_communication (HasCode-error_code e _ (p ∙ ap (λ m. some (negsuc m)) ((==_iff n 3).0 q)))
  | inr q ↦ elim (Bool-cases (n == 10)) [
    | inl t ↦
        code_handle_closed
          (HasCode-error_code e _ (p ∙ ap (λ m. some (negsuc m)) ((==_iff n 10).0 t)))
    | inr t ↦ code_refused (HasCode-error_code e _ (p ∙ ap (λ m. some (negsuc m)) (ground arith)))
  ]
]

both : (a b : Bool) → (a && b) ≡ true → (a ≡ true) × (b ≡ true)
both a b h = ground arith

one_of_two : (a b : Bool) → (a || b) ≡ true → (a ≡ true) ⊎ (b ≡ true)
one_of_two true b h = inl refl
one_of_two false b h = inr h

interface_sound :
    (e : Exc)
    → (e.is_interface_error && (mentions e (codes "closed") || mentions e (codes "connection")))
      ≡ true
    → Reason e
interface_sound e h =
    let (i, m) = both _ (mentions e (codes "closed") || mentions e (codes "connection")) h in
    elim (one_of_two (mentions e (codes "closed")) _ m) [
      | inl c ↦ interface_closed i (Says-mentions e (codes "closed") c)
      | inr c ↦ interface_connection i (Says-mentions e (codes "connection") c)
    ]

operational_sound :
    (e : Exc)
    → (e.is_operational_error
        && (mentions e (codes "communication") || mentions e (codes "connection")))
      ≡ true
    → Reason e
operational_sound e h =
    let (i, m) = both _ (mentions e (codes "communication") || mentions e (codes "connection")) h in
    elim (one_of_two (mentions e (codes "communication")) _ m) [
      | inl c ↦ operational_communication i (Says-mentions e (codes "communication") c)
      | inr c ↦ operational_connection i (Says-mentions e (codes "connection") c)
    ]

is_disconnect_sound : (e : Exc) → is_disconnect e ≡ true → Reason e
unfolding is_disconnect
is_disconnect_sound e h =
    elim (Bool-cases
      (e.is_interface_error && (mentions e (codes "closed") || mentions e (codes "connection")))) [
        | inl a ↦ interface_sound e a
        | inr a ↦
            elim (Bool-cases (
              e.is_operational_error
              && (mentions e (codes "communication") || mentions e (codes "connection")))) [
                | inl b ↦ operational_sound e b
                | inr b ↦ disconnect_code_sound e (error_code e) refl (rw (a, b) at h)
              ]
      ]

is_disconnect_complete : (e : Exc) → Reason e → is_disconnect e ≡ true
unfolding is_disconnect
is_disconnect_complete e (interface_closed i m) =
    ground (arith, i, mentions-Says e (codes "closed") m)
is_disconnect_complete e (interface_connection i m) =
    ground (arith, i, mentions-Says e (codes "connection") m)
is_disconnect_complete e (operational_communication i m) =
    ground (arith, i, mentions-Says e (codes "communication") m)
is_disconnect_complete e (operational_connection i m) =
    ground (arith, i, mentions-Says e (codes "connection") m)
is_disconnect_complete e (code_communication p) = ground (arith, error_code-HasCode e (negsuc 3) p)
is_disconnect_complete e (code_handle_closed p) = ground (arith, error_code-HasCode e (negsuc 10) p)
is_disconnect_complete e (code_refused p) = ground (arith, error_code-HasCode e (negsuc 21002) p)

-- A connection is given up exactly for one of these reasons: the driver's two exception classes with
-- the words that they look for, in any letter case, or the three error codes in any class.
pub is_disconnect_iff : (e : Exc) → (is_disconnect e ≡ true) ↔ Reason e
is_disconnect_iff e = (is_disconnect_sound e, is_disconnect_complete e)
