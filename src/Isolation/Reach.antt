-- ===== src/Isolation/Reach.antt =====
-- The life of a connection in sqlalchemy_cubrid/dialect.py: the steps that the dialect takes on it, and
-- what holds in every state that they reach.
use sqlalchemy_cubrid.Isolation.{
  Connection, Driver, isolation_level_values, get_isolation_level, on_connect, tracks_autocommit,
  set_isolation_level, do_ping,
}
use sqlalchemy_cubrid.Isolation.Laws.{
  IsConsistent, IsConsistent-IsSafe, after_set, left_autocommit, set_isolation_level_unlisted,
  set_isolation_level_outcomes, cursors_closed,
}
use sqlalchemy_cubrid.Prelude.{
  text_eq, subst, ◌≡◌, refl, ap, sym, ◌∙◌, ◌⊎◌, inl, inr, true, false, [], arith, Text, text_eq,
  one_of, ok, Bool-cases,
}

-- A call that returned, a call that raised outside AUTOCOMMIT, and a ping with any outcome. The
-- driver may differ from step to step.
pub data Step : Connection → Connection → Type 0 where
  set_level :
      (d : Driver) (level : Text) (c : Connection)
      → (set_isolation_level d level c).0 ≡ ok tt
      → Step c ((set_isolation_level d level c).1)
  set_fails :
      (d : Driver) (level : Text) (c : Connection)
      → tracks_autocommit c ≡ false
      → Step c ((set_isolation_level d level c).1)
  ping : (d : Driver) (c : Connection) → Step c ((do_ping d c).1)

pub data Reach (start : Connection) : Connection → Type 0 where
  connected : Reach start (on_connect start)
  next : {c c' : Connection} → Reach start c → Step c c' → Reach start c'

-- The tracked level is the mode that the connection is in, and one of the listed levels.
abbrev pub IsTracked : Connection → Type 0
IsTracked c = IsConsistent c × (one_of (get_isolation_level c) isolation_level_values ≡ true)

after_set-IsTracked :
    (level : Text) (c : Connection)
    → one_of level isolation_level_values ≡ true
    → IsTracked (after_set level c)
unfolding tracks_autocommit get_isolation_level
after_set-IsTracked level c h = (refl, h)

ok_listed :
    (d : Driver) (level : Text) (c : Connection)
    → (set_isolation_level d level c).0 ≡ ok tt
    → one_of level isolation_level_values ≡ true
ok_listed d level c h = elim (Bool-cases (one_of level isolation_level_values)) [
  | inl e ↦ e
  | inr n ↦ cc (ap (λ r. r.0) (set_isolation_level_unlisted d level c n), h)
]

left_autocommit-IsTracked :
    (c : Connection) → tracks_autocommit c ≡ false → IsTracked c → IsTracked (left_autocommit c)
left_autocommit-IsTracked c n t = rw n t

set-IsTracked :
    (d : Driver) (level : Text) (c : Connection)
    → ((set_isolation_level d level c).0 ≡ ok tt) ⊎ (tracks_autocommit c ≡ false)
    → IsTracked c
    → IsTracked ((set_isolation_level d level c).1)
set-IsTracked d level c h t =
    elim (set_isolation_level_outcomes d level c (IsConsistent-IsSafe c (t.0))) [
      | inl e ↦
          subst (λ r. IsTracked (r.1)) (sym e)
            (after_set-IsTracked level c (ok_listed d level c (ap (λ r. r.0) e)))
      | inr (x, e) ↦ elim h [
        | inl k ↦ cc (ap (λ r. r.0) e, k)
        | inr n ↦ subst (λ r. IsTracked (r.1)) (sym e) (left_autocommit-IsTracked c n t)
      ]
    ]

same_tracking :
    (c c' : Connection)
    → c'.autocommit ≡ c.autocommit
    → c'.sa_isolation_level ≡ c.sa_isolation_level
    → IsTracked c
    → IsTracked c'
unfolding tracks_autocommit get_isolation_level
same_tracking c c' p q t =
    subst (λ a. IsTracked (record c { autocommit = a; sa_isolation_level = c'.sa_isolation_level }))
      (sym p) (subst (λ l. IsTracked (record c { sa_isolation_level = l })) (sym q) t)

pub do_ping-keeps :
    (d : Driver) (c : Connection)
    → ((do_ping d c).1.autocommit ≡ c.autocommit)
      × ((do_ping d c).1.sa_isolation_level ≡ c.sa_isolation_level)
unfolding do_ping
do_ping-keeps d c = ground arith

ping-IsTracked : (d : Driver) (c : Connection) → IsTracked c → IsTracked ((do_ping d c).1)
ping-IsTracked d c t = let (p, q) = do_ping-keeps d c in same_tracking c ((do_ping d c).1) p q t

-- After `on_connect`, through any calls of `set_isolation_level` that return, or that raise outside
-- AUTOCOMMIT, and any pings, with drivers that fail or not: the autocommit mode is that of the level
-- that `get_isolation_level` reports, which is a listed one, and no cursor is left open.
pub Reach-IsTracked :
    (start c : Connection) → Reach start c → IsTracked c × (c.cursors ≡ start.cursors)
unfolding on_connect tracks_autocommit get_isolation_level text_eq one_of isolation_level_values
Reach-IsTracked start c connected = ((refl, refl), refl)
Reach-IsTracked start c (next r (set_level d level b h)) =
    let (t, k) = Reach-IsTracked start b r in
    (
      set-IsTracked d level b (inl h) t,
      (cursors_closed d level b (IsConsistent-IsSafe b (t.0))).0 ∙ k,
    )
Reach-IsTracked start c (next r (set_fails d level b n)) =
    let (t, k) = Reach-IsTracked start b r in
    (
      set-IsTracked d level b (inr n) t,
      (cursors_closed d level b (IsConsistent-IsSafe b (t.0))).0 ∙ k,
    )
Reach-IsTracked start c (next r (ping d b)) =
    let (t, k) = Reach-IsTracked start b r in
    (ping-IsTracked d b t, (cursors_closed d [] b (IsConsistent-IsSafe b (t.0))).1 ∙ k)
