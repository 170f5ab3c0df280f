-- ===== src/Isolation/Recovery.antt =====
-- The life of a connection in sqlalchemy_cubrid/dialect.py when any call may raise: a connection that
-- fails in one use and is used again, and its way back to a good state.
use sqlalchemy_cubrid.Prelude.Action.{Action}
use sqlalchemy_cubrid.Isolation.{
  Connection, Driver, isolation_level_values, get_isolation_level, on_connect, tracks_autocommit,
  set_isolation_level, do_ping, default_isolation_level, reset_isolation_level,
}
use sqlalchemy_cubrid.Isolation.Laws.{
  IsConsistent-IsSafe, IsConsistent, IsSafe, after_set, left_autocommit, set_isolation_level_total,
  set_isolation_level_outcomes,
}
use sqlalchemy_cubrid.Isolation.Reach.{do_ping-keeps}
use sqlalchemy_cubrid.Prelude.{
  Option, none, some, [], ◌∷◌, text_eq, subst, ◌≡◌, refl, ap, sym, ◌∙◌, inl, inr, true, Text,
  one_of, ok, Bool-cases,
}

-- The states of a connection through calls and pings with any outcome, each with its own driver.
pub data Life (start : Connection) : Connection → Type 0 where
  opened_anew : Life start (on_connect start)
  called :
      {c : Connection} (d : Driver) (level : Text)
      → Life start c
      → Life start ((set_isolation_level d level c).1)
  pinged : {c : Connection} (d : Driver) → Life start c → Life start ((do_ping d c).1)

left_autocommit-IsSafe : (c : Connection) → IsSafe c → IsSafe (left_autocommit c)
left_autocommit-IsSafe c s = elim (Bool-cases (tracks_autocommit c)) [
  | inl t ↦ rw t (λ n. refl)
  | inr f ↦ rw f s
]

after_set-IsConsistent : (level : Text) (c : Connection) → IsConsistent (after_set level c)
unfolding tracks_autocommit
after_set-IsConsistent level c = refl

set-IsSafe :
    (d : Driver) (level : Text) (c : Connection)
    → IsSafe c
    → IsSafe ((set_isolation_level d level c).1)
set-IsSafe d level c s = elim (set_isolation_level_outcomes d level c s) [
  | inl e ↦
      subst (λ r. IsSafe (r.1)) (sym e)
        (IsConsistent-IsSafe (after_set level c) (after_set-IsConsistent level c))
  | inr (x, e) ↦ subst (λ r. IsSafe (r.1)) (sym e) (left_autocommit-IsSafe c s)
]

same_safety :
    (c c' : Connection)
    → c'.autocommit ≡ c.autocommit
    → c'.sa_isolation_level ≡ c.sa_isolation_level
    → IsSafe c
    → IsSafe c'
unfolding tracks_autocommit
same_safety c c' p q s n =
    p ∙ s (sym (ap (λ l. tracks_autocommit (record c { sa_isolation_level = l })) q) ∙ n)

pub Life-IsSafe : (start c : Connection) → Life start c → IsSafe c
unfolding on_connect
Life-IsSafe start c opened_anew = λ n. refl
Life-IsSafe start c (called {c = b} d level r) = set-IsSafe d level b (Life-IsSafe start b r)
Life-IsSafe start c (pinged {c = b} d r) =
    let (p, q) = do_ping-keeps d b in same_safety b ((do_ping d b).1) p q (Life-IsSafe start b r)

-- Whatever calls and pings a connection has been through since `on_connect`, those that raised
-- included, a driver that gives cursors and accepts statements can set every listed level: the call
-- returns, the server gets the level's statement (none for AUTOCOMMIT), `get_isolation_level` then
-- reports the level, and the autocommit mode is that of the level again.
pub set_isolation_level-recovers :
    (start c : Connection) (d : Driver) (level : Text)
    → Life start c
    → ((c' : Connection) → d.gives_cursor c' ≡ true)
    → ((c' : Connection) (sql : Text) → d.accepts c' sql ≡ true)
    → one_of level isolation_level_values ≡ true
    → (set_isolation_level d level c ≡ (ok tt, after_set level c))
      × (get_isolation_level (set_isolation_level d level c).1 ≡ level)
      × IsConsistent (set_isolation_level d level c).1
unfolding get_isolation_level
set_isolation_level-recovers start c d level r gives accepts listed =
    let e = set_isolation_level_total d level c gives accepts listed (Life-IsSafe start c r) in
    (
      e,
      ap (λ p. get_isolation_level (p.1)) e,
      subst (λ p. IsConsistent (p.1)) (sym e) (after_set-IsConsistent level c),
    )

-- The level that a connection is reset to: that of the engine, else the dialect's default.
abbrev pub reset_level : Option Text → Text
reset_level none = default_isolation_level
reset_level (some level) = level

reset-set_isolation_level :
    (d : Driver) (assert_and_set : Text → Action Connection Unit) (engine : Option Text)
    → ((level : Text)
        → one_of level isolation_level_values ≡ true
        → assert_and_set level ≡ set_isolation_level d level)
    → one_of (reset_level engine) isolation_level_values ≡ true
    → reset_isolation_level assert_and_set engine default_isolation_level
      ≡ set_isolation_level d (reset_level engine)
unfolding reset_isolation_level one_of isolation_level_values text_eq
reset-set_isolation_level d assert_and_set none asserted listed = asserted _ listed
reset-set_isolation_level d assert_and_set (some []) asserted listed = cc
reset-set_isolation_level d assert_and_set (some (c ∷ level)) asserted listed = asserted _ listed

-- Returned to the pool after any such life, a connection is reset to the engine's level, or to the
-- dialect's default, whatever level it was left in and whether or not a call had failed, when the driver
-- accepts and SQLAlchemy's check lets listed levels through to `set_isolation_level`.
pub reset_isolation_level-recovers :
    (start c : Connection) (d : Driver) (assert_and_set : Text → Action Connection Unit)
    (engine : Option Text)
    → Life start c
    → ((c' : Connection) → d.gives_cursor c' ≡ true)
    → ((c' : Connection) (sql : Text) → d.accepts c' sql ≡ true)
    → ((level : Text)
        → one_of level isolation_level_values ≡ true
        → assert_and_set level ≡ set_isolation_level d level)
    → one_of (reset_level engine) isolation_level_values ≡ true
    → (reset_isolation_level assert_and_set engine default_isolation_level c
        ≡ (ok tt, after_set (reset_level engine) c))
      × (get_isolation_level (after_set (reset_level engine) c) ≡ reset_level engine)
      × IsConsistent (after_set (reset_level engine) c)
unfolding get_isolation_level
reset_isolation_level-recovers start c d assert_and_set engine r gives accepts asserted listed = (
  ap (λ f. f c) (reset-set_isolation_level d assert_and_set engine asserted listed)
      ∙ set_isolation_level_total d (reset_level engine) c gives accepts listed
          (Life-IsSafe start c r),
  refl,
  after_set-IsConsistent (reset_level engine) c,
)
