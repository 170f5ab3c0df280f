-- ===== src/Reflect/ForeignKeys/Actions.antt =====
-- The match of `fk_pattern` in `get_foreign_keys` of sqlalchemy_cubrid/dialect.py with the actions of a
-- foreign key.
use sqlalchemy_cubrid.Regex.{or_else, Regex, group, seqs, Captures, Rest, run, before}
use sqlalchemy_cubrid.Regex.Steps.{Stops, AllIn, run_star-append, before-append}
use sqlalchemy_cubrid.Reflect.ForeignKeys.{action_pattern, on_pattern}
use sqlalchemy_cubrid.Prelude.{
  ℕ, ◌≡◌, refl, ap, ◌∙◌, not, ◌==◌, Option, none, some, [], ◌∷◌, ◌++◌, Text, codes, All-map, Lacks,
  is_space, to_lower, arith,
}
use sqlalchemy_cubrid.Reflect.ForeignKeys.Printed.{
  Action, cascade, set_null, no_action, restrict, action_text, on_text, actions_text,
  action_captures,
}

pub Lacks-AllIn : (d : ℕ) (s : Text) → Lacks d s → AllIn (λ c. not (c == d)) s
Lacks-AllIn d s h = All-map _ _ (λ c k. ground arith) s h

run-action_pattern :
    (k : Rest) (caps : Captures) (a : Action) (rest : Text) {out : Captures × Text}
    → k caps rest ≡ some out
    → run action_pattern k caps (action_text a ++ rest) ≡ some out
unfolding run to_lower
run-action_pattern k caps cascade rest e = rw e refl
run-action_pattern k caps set_null rest e = rw e refl
run-action_pattern k caps no_action rest e = rw e refl
run-action_pattern k caps restrict rest e = rw e refl

run-group_action :
    (n : ℕ) (k : Rest) (caps : Captures) (a : Action) (rest : Text) {out : Captures × Text}
    → k ((n, action_text a) ∷ caps) rest ≡ some out
    → run (group n action_pattern) k caps (action_text a ++ rest) ≡ some out
unfolding run
run-group_action n k caps a rest e =
    run-action_pattern (λ caps' r. k ((n, before (action_text a ++ rest) r) ∷ caps') r) caps a rest
      (ap (λ t. k ((n, t) ∷ caps) rest) (before-append (action_text a) rest) ∙ e)

action_text-Stops : (a : Action) (rest : Text) → Stops is_space (action_text a ++ rest)
action_text-Stops cascade rest = refl
action_text-Stops set_null rest = refl
action_text-Stops no_action rest = refl
action_text-Stops restrict rest = refl

run-on_delete :
    (n : ℕ) (k : Rest) (caps : Captures) (a : Action) (rest : Text) {out : Captures × Text}
    → k ((n, action_text a) ∷ caps) rest ≡ some out
    → run (on_pattern (codes "DELETE") n) k caps (on_text (codes "DELETE") (some a) rest) ≡ some out
unfolding run to_lower
run-on_delete n k caps a rest e =
    ap (λ o. or_else o (k caps (on_text (codes "DELETE") (some a) rest)))
      (run_star-append is_space (run (group n action_pattern) k) caps [] (action_text a ++ rest) tt
        (action_text-Stops a rest) (run-group_action n k caps a rest e))

run-on_update :
    (n : ℕ) (k : Rest) (caps : Captures) (a : Action) (rest : Text) {out : Captures × Text}
    → k ((n, action_text a) ∷ caps) rest ≡ some out
    → run (on_pattern (codes "UPDATE") n) k caps (on_text (codes "UPDATE") (some a) rest) ≡ some out
unfolding run to_lower
run-on_update n k caps a rest e =
    ap (λ o. or_else o (k caps (on_text (codes "UPDATE") (some a) rest)))
      (run_star-append is_space (run (group n action_pattern) k) caps [] (action_text a ++ rest) tt
        (action_text-Stops a rest) (run-group_action n k caps a rest e))

-- No action is read where no white space follows.
run-on_absent :
    (event : Text) (n : ℕ) (k : Rest) (caps : Captures) (rest : Text)
    → Stops is_space rest
    → run (on_pattern event n) k caps rest ≡ k caps rest
unfolding run
run-on_absent event n k caps [] h = refl
run-on_absent event n k caps (c ∷ rest) h = rw h refl

abbrev pub on_patterns : Regex
on_patterns = seqs (on_pattern (codes "DELETE") 5 ∷ on_pattern (codes "UPDATE") 6 ∷ [])

-- `ON UPDATE` is not read as `ON DELETE`.
run-on_update_only :
    (n : ℕ) (k : Rest) (caps : Captures) (a : Action) (rest : Text)
    → run (on_pattern (codes "DELETE") n) k caps (on_text (codes "UPDATE") (some a) rest)
      ≡ k caps (on_text (codes "UPDATE") (some a) rest)
unfolding run to_lower
run-on_update_only n k caps a rest = refl

run-update_part :
    (k : Rest) (caps : Captures) (u : Option Action) (rest : Text) {out : Captures × Text}
    → Stops is_space rest
    → k (action_captures 6 u caps) rest ≡ some out
    → run (on_pattern (codes "UPDATE") 6) k caps (on_text (codes "UPDATE") u rest) ≡ some out
run-update_part k caps none rest h e = run-on_absent (codes "UPDATE") 6 k caps rest h ∙ e
run-update_part k caps (some a) rest h e = run-on_update 6 k caps a rest e

pub run-on_patterns :
    (k : Rest) (caps : Captures) (d u : Option Action) (rest : Text) {out : Captures × Text}
    → Stops is_space rest
    → k (action_captures 6 u (action_captures 5 d caps)) rest ≡ some out
    → run on_patterns k caps (actions_text d u rest) ≡ some out
unfolding run
run-on_patterns k caps none none rest h e =
    run-on_absent (codes "DELETE") 5 (run (on_pattern (codes "UPDATE") 6) k) caps rest h
    ∙ run-update_part k caps none rest h e
run-on_patterns k caps none (some a) rest h e =
    run-on_update_only 5 (run (on_pattern (codes "UPDATE") 6) k) caps a rest
    ∙ run-update_part k caps (some a) rest h e
run-on_patterns k caps (some a) u rest h e =
    run-on_delete 5 (run (on_pattern (codes "UPDATE") 6) k) caps a (on_text (codes "UPDATE") u rest)
      (run-update_part k ((5, action_text a) ∷ caps) u rest h e)
