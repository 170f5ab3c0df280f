-- ===== src/Isolation/Laws.antt =====
-- What the isolation methods of sqlalchemy_cubrid/dialect.py do to a connection.
use sqlalchemy_cubrid.Isolation.{
  map, code_in, Connection, Driver, autocommit_level, isolation_level_map, isolation_code,
  isolation_level_values, tracks_autocommit, isolation_statement, change_level, set_isolation_level,
  do_ping,
}
use sqlalchemy_cubrid.Prelude.{
  Option-cases, append-nil, sym, ap, text_eq_iff, ◌∙◌, ◌&&◌, text_eq_comm, one_of, Bool-cases, ℕ,
  ◌+◌, ◌≡◌, refl, ◌⊎◌, inl, inr, Bool, true, false, Option, none, some, List, [], ◌∷◌, ◌++◌, arith,
  Text, text_eq, ok, err, Error, value_error, database_error, if◌then◌else◌,
}

-- The connection's autocommit mode is the one that the tracked level says.
abbrev pub IsConsistent : Connection → Type 0
IsConsistent c = tracks_autocommit c ≡ c.autocommit

-- What a call that raised leaves too: outside AUTOCOMMIT the autocommit mode is off.
abbrev pub IsSafe : Connection → Type 0
IsSafe c = tracks_autocommit c ≡ false → c.autocommit ≡ false

pub IsConsistent-IsSafe : (c : Connection) → IsConsistent c → IsSafe c
IsConsistent-IsSafe c v n = sym v ∙ n

abbrev is_some {ℓ} : {A : Type ℓ} → Option A → Bool
is_some none = false
is_some (some a) = true

code_in-listed :
    (level : Text) (m : List (ℕ × Text))
    → is_some (code_in level m) ≡ one_of level (map (λ e. e.1) m)
unfolding code_in one_of
code_in-listed level [] = refl
code_in-listed level ((k, name) ∷ m) =
    ground (arith, text_eq_comm level name, code_in-listed level m)

-- A level other than AUTOCOMMIT has a code exactly if it is listed.
isolation_code-listed :
    (level : Text)
    → text_eq level autocommit_level ≡ false
    → is_some (isolation_code level) ≡ one_of level isolation_level_values
unfolding isolation_code isolation_level_values one_of
isolation_code-listed level h = code_in-listed level isolation_level_map ∙ rw h

-- The codes that a level stands for, at most one.
unfoldable pub code_list : Text → List ℕ
code_list level = elim (isolation_code level) [ none ↦ [] | some k ↦ k ∷ [] ]

-- The state that a successful `set_isolation_level` leaves.
abbrev pub after_set : Text → Connection → Connection
after_set level c = record c {
  autocommit = text_eq level autocommit_level;
  sa_isolation_level = some level;
  executed = c.executed ++ map isolation_statement (code_list level);
}

unlisted-ne-autocommit :
    (level : Text)
    → one_of level isolation_level_values ≡ false
    → text_eq level autocommit_level ≡ false
unfolding one_of isolation_level_values
unlisted-ne-autocommit level h = ground arith

-- What becomes of a connection whose level is changed.
abbrev pub changed : Text → ℕ → Connection → Connection
changed level k c = record c {
  executed = c.executed ++ isolation_statement k ∷ [];
  sa_isolation_level = some level;
}

abbrev opened : Connection → Connection
opened c = record c { cursors = c.cursors + 1 }

-- "Restore transactional mode if switching from AUTOCOMMIT".
abbrev pub left_autocommit : Connection → Connection
left_autocommit c = if tracks_autocommit c then record c { autocommit = false } else c

changed-after_set :
    (level : Text) (k : ℕ) (c : Connection)
    → isolation_code level ≡ some k
    → text_eq level autocommit_level ≡ false
    → IsSafe c
    → changed level k (left_autocommit c) ≡ after_set level c
unfolding code_list
changed-after_set level k c found n v = elim (Bool-cases (tracks_autocommit c)) [
  | inl t ↦ ground (arith, found)
  | inr f ↦ ground (arith, found, v f)
]

module _ (d : Driver) where
  -- The outcome of the part for transactional levels, on every branch.
  change_level_lem :
      (level : Text) (k : ℕ) (c : Connection)
      → change_level d level (some k) c ≡ (
          if d.gives_cursor c && d.accepts (opened c) (isolation_statement k)
          then (ok tt, changed level k c)
          else (err database_error, c))
  unfolding change_level
  change_level_lem level k c = ground arith

  -- `set_isolation_level` in one formula, for a transactional level.
  set_isolation_level_lem :
      (level : Text) (c : Connection)
      → text_eq level autocommit_level ≡ false
      → set_isolation_level d level c
        ≡ change_level d level (isolation_code level) (left_autocommit c)
  unfolding set_isolation_level
  set_isolation_level_lem level c h = rw h

  unlisted-none :
      (level : Text) → one_of level isolation_level_values ≡ false → isolation_code level ≡ none
  unlisted-none level h =
      ground (arith, isolation_code-listed level, unlisted-ne-autocommit level h)

  set_autocommit :
      (c : Connection)
      → set_isolation_level d autocommit_level c ≡ (ok tt, after_set autocommit_level c)
  unfolding set_isolation_level code_list text_eq
  set_autocommit c =
      ap
        (λ x. (
          ok tt,
          record c { autocommit = true; sa_isolation_level = some autocommit_level; executed = x },
        ))
        (sym (append-nil c.executed))

  -- A driver that gives cursors and accepts statements sets every listed level on a connection
  -- that is safe (consistent, or left by a call that raised): the call returns, and all that changes is that autocommit is on exactly for
  -- AUTOCOMMIT, the level is tracked, and the server got the level's statement (none for AUTOCOMMIT).
  pub set_isolation_level_total :
      (level : Text) (c : Connection)
      → ((c' : Connection) → d.gives_cursor c' ≡ true)
      → ((c' : Connection) (sql : Text) → d.accepts c' sql ≡ true)
      → one_of level isolation_level_values ≡ true
      → IsSafe c
      → set_isolation_level d level c ≡ (ok tt, after_set level c)
  set_isolation_level_total level c gives accepts listed v =
      elim (Bool-cases (text_eq level autocommit_level)) [
        | inl e ↦ rw ((text_eq_iff level autocommit_level).0 e) (set_autocommit c)
        | inr n ↦ elim (Option-cases (isolation_code level)) [
          | inl none_found ↦ ground (arith, isolation_code-listed level n)
          | inr (k, found) ↦
              set_isolation_level_lem level c n
              ∙ rw found (
                  change_level_lem level k (left_autocommit c)
                  ∙ rw
                      (
                        gives (left_autocommit c),
                        accepts (opened (left_autocommit c)) (isolation_statement k),
                      )
                      (ap (λ s. (ok tt, s)) (changed-after_set level k c found n v)))
        ]
      ]

  -- A level that is not listed is refused with `ValueError`, whatever the driver does.
  pub set_isolation_level_unlisted :
      (level : Text) (c : Connection)
      → one_of level isolation_level_values ≡ false
      → set_isolation_level d level c ≡ (err value_error, left_autocommit c)
  set_isolation_level_unlisted level c h =
      set_isolation_level_lem level c (unlisted-ne-autocommit level h)
      ∙ rw (unlisted-none level h) (unfold change_level in refl)

  -- On every branch, whatever the driver does, either the call returns and the connection is the one
  -- that was asked for (`after_set`, on a safe connection), or it raises and only the autocommit
  -- mode may have changed, to off where AUTOCOMMIT is tracked.
  pub set_isolation_level_outcomes :
      (level : Text) (c : Connection)
      → IsSafe c
      → (set_isolation_level d level c ≡ (ok tt, after_set level c))
        ⊎ ((e : Error) × (set_isolation_level d level c ≡ (err e, left_autocommit c)))
  set_isolation_level_outcomes level c v = elim (Bool-cases (text_eq level autocommit_level)) [
    | inl e ↦ inl (rw ((text_eq_iff level autocommit_level).0 e) (set_autocommit c))
    | inr n ↦ elim (Option-cases (isolation_code level)) [
      | inl none_found ↦ inr (
        value_error,
        set_isolation_level_lem level c n ∙ rw none_found (unfold change_level in refl),
      )
      | inr (k, found) ↦
          elim (Bool-cases (
            d.gives_cursor (left_autocommit c)
            && d.accepts (opened (left_autocommit c)) (isolation_statement k))) [
              | inl fine ↦ inl (
                  set_isolation_level_lem level c n
                  ∙ rw found (
                      change_level_lem level k (left_autocommit c)
                      ∙ rw fine (ap (λ s. (ok tt, s)) (changed-after_set level k c found n v))))
              | inr fails ↦ inr (
                database_error,
                set_isolation_level_lem level c n
                    ∙ rw found (change_level_lem level k (left_autocommit c) ∙ rw fails),
              )
            ]
    ]
  ]

  -- No method leaves a cursor open, on any branch.
  pub cursors_closed :
      (level : Text) (c : Connection)
      → IsSafe c
      → ((set_isolation_level d level c).1.cursors ≡ c.cursors)
        × ((do_ping d c).1.cursors ≡ c.cursors)
  unfolding do_ping
  cursors_closed level c v = (ground (arith, set_isolation_level_outcomes level c v), ground arith)

  -- A call that raises on a connection in AUTOCOMMIT leaves autocommit off while AUTOCOMMIT is still
  -- the tracked level.
  pub failed_set_inconsistent :
      (level : Text) (c : Connection) (e : Error)
      → IsConsistent c
      → tracks_autocommit c ≡ true
      → (set_isolation_level d level c).0 ≡ err e
      → ¬ IsConsistent (set_isolation_level d level c).1
  unfolding tracks_autocommit
  failed_set_inconsistent level c e v t h =
      ground (arith, set_isolation_level_outcomes level c (IsConsistent-IsSafe c v))
