-- ===== src/Prelude/Split.antt =====
-- What `split` makes of parts that lack the separator.
use mathlib.Core.Path.{◌≡◌, sym, ap}
use mathlib.Core.Logic.{◌≢◌}
use mathlib.Core.List.{[], ◌∷◌, ◌++◌, append-nil, append_assoc}
use Prim.Native.Nat.{ℕ}
use native.Mathlib.Omega.{arith}
use sqlalchemy_cubrid.Prelude.Tests.{==_refl}
use sqlalchemy_cubrid.Prelude.Lists.{All}
use sqlalchemy_cubrid.Prelude.Strings.{Text, split_from}

abbrev pub Lacks : ℕ → Text → Type 0
Lacks sep = All (λ c. c ≢ sep)

module _ (sep : ℕ) where
  pub split_from-Lacks : (cur s : Text) → Lacks sep s → split_from sep cur s ≡ (cur ++ s) ∷ []
  unfolding split_from
  split_from-Lacks cur [] h = ap (λ t. t ∷ []) (sym (append-nil cur))
  split_from-Lacks cur (c ∷ s) (hc, hs) =
      ground (arith, split_from-Lacks (cur ++ c ∷ []) s hs, append_assoc cur (c ∷ []) s)

  pub split_from-append :
      (cur p rest : Text)
      → Lacks sep p
      → split_from sep cur (p ++ sep ∷ rest) ≡ (cur ++ p) ∷ split_from sep [] rest
  unfolding split_from
  split_from-append cur [] rest h = ground (arith, ==_refl sep, append-nil cur)
  split_from-append cur (c ∷ p) rest (hc, hp) =
      ground (arith, split_from-append (cur ++ c ∷ []) p rest hp, append_assoc cur (c ∷ []) p)
