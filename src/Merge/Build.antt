-- ===== src/Merge/Build.antt =====
-- What a chain of calls of the builder in sqlalchemy_cubrid/merge.py leaves.
use sqlalchemy_cubrid.Merge.{
  Merge, Call, using, on, when_matched_then_update, when_matched_then_delete,
  when_not_matched_then_insert, merge, apply_call, run, visit_cubrid_merge,
}
use sqlalchemy_cubrid.Prelude.{
  is_some, inr, inl, arith, ◌||◌, Option-cases, ◌∙◌, ◌≡◌, refl, Bool, true, false, ◌&&◌, Option,
  none, some, List, [], ◌∷◌, Text,
}

module _ {E : Type 0} where
  -- The last value that a call gives, or the first one.
  unfoldable pub last_of : {A : Type 0} → (Call E → Option A) → A → List (Call E) → A
  last_of pick a [] = a
  last_of pick a (c ∷ cs) = last_of pick (elim (pick c) [ none ↦ a | some b ↦ b ]) cs

  -- What each call gives.
  abbrev pub source_of : Call E → Option (Option E)
  source_of (using s) = some (some s)
  source_of _ = none

  abbrev pub on_of : Call E → Option (Option E)
  on_of (on c) = some (some c)
  on_of _ = none

  abbrev pub update_of : Call E → Option (Option (List (E × E)))
  update_of (when_matched_then_update vs c) = some (some vs)
  update_of _ = none

  abbrev pub update_condition_of : Call E → Option (Option E)
  update_condition_of (when_matched_then_update vs c) = some c
  update_condition_of _ = none

  abbrev pub delete_of : Call E → Option Bool
  delete_of (when_matched_then_delete c) = some true
  delete_of _ = none

  abbrev pub delete_condition_of : Call E → Option (Option E)
  delete_condition_of (when_matched_then_delete c) = some c
  delete_condition_of _ = none

  abbrev pub insert_of : Call E → Option (Option (List (E × E)))
  insert_of (when_not_matched_then_insert vs c) = some (some vs)
  insert_of _ = none

  abbrev pub insert_condition_of : Call E → Option (Option E)
  insert_condition_of (when_not_matched_then_insert vs c) = some c
  insert_condition_of _ = none

  -- Each field from the last call that sets it.
  abbrev pub last_calls : Merge E → List (Call E) → Merge E
  last_calls m cs = record {
    target = m.target;
    source = last_of source_of m.source cs;
    on_condition = last_of on_of m.on_condition cs;
    update_values = last_of update_of m.update_values cs;
    update_condition = last_of update_condition_of m.update_condition cs;
    delete = last_of delete_of m.delete cs;
    delete_condition = last_of delete_condition_of m.delete_condition cs;
    insert_values = last_of insert_of m.insert_values cs;
    insert_condition = last_of insert_condition_of m.insert_condition cs;
  }

  -- A chain of calls leaves, field by field, what the last call that sets the field gave: a repeated
  -- call replaces the earlier one, its condition included, calls for different clauses do not
  -- disturb each other, and the order of the chain does not matter between them.
  pub run-eq : (m : Merge E) (cs : List (Call E)) → run m cs ≡ last_calls m cs
  unfolding run last_of
  run-eq m [] = refl
  run-eq m (using s ∷ cs) = run-eq (apply_call m (using s)) cs
  run-eq m (on c ∷ cs) = run-eq (apply_call m (on c)) cs
  run-eq m (when_matched_then_update vs c ∷ cs) =
      run-eq (apply_call m (when_matched_then_update vs c)) cs
  run-eq m (when_matched_then_delete c ∷ cs) = run-eq (apply_call m (when_matched_then_delete c)) cs
  run-eq m (when_not_matched_then_insert vs c ∷ cs) =
      run-eq (apply_call m (when_not_matched_then_insert vs c)) cs

  -- Some call gives the value.
  abbrev pub calls : {A : Type 0} → (Call E → Option A) → List (Call E) → Bool
  calls pick [] = false
  calls pick (c ∷ cs) = is_some (pick c) || calls pick cs

  last_source-given :
      (o : Option E) (cs : List (Call E))
      → is_some (last_of source_of o cs) ≡ (is_some o || calls source_of cs)
  unfolding last_of
  last_source-given o [] = ground arith
  last_source-given o (using s ∷ cs) = last_source-given (some s) cs ∙ ground arith
  last_source-given o (on c ∷ cs) = last_source-given o cs
  last_source-given o (when_matched_then_update vs c ∷ cs) = last_source-given o cs
  last_source-given o (when_matched_then_delete c ∷ cs) = last_source-given o cs
  last_source-given o (when_not_matched_then_insert vs c ∷ cs) = last_source-given o cs

  last_on-given :
      (o : Option E) (cs : List (Call E))
      → is_some (last_of on_of o cs) ≡ (is_some o || calls on_of cs)
  unfolding last_of
  last_on-given o [] = ground arith
  last_on-given o (on c ∷ cs) = last_on-given (some c) cs ∙ ground arith
  last_on-given o (using s ∷ cs) = last_on-given o cs
  last_on-given o (when_matched_then_update vs c ∷ cs) = last_on-given o cs
  last_on-given o (when_matched_then_delete c ∷ cs) = last_on-given o cs
  last_on-given o (when_not_matched_then_insert vs c ∷ cs) = last_on-given o cs

  module _ (process as_from : E → Text) where
    visit-given :
        (m : Merge E)
        → is_some (visit_cubrid_merge process as_from m)
          ≡ (is_some m.source && is_some m.on_condition)
    unfolding visit_cubrid_merge
    visit-given m = elim (Option-cases m.source) [
      | inl e ↦ rw (e, visit_cubrid_merge) refl
      | inr (s, e) ↦ elim (Option-cases m.on_condition) [
        | inl f ↦ rw (e, visit_cubrid_merge) (rw f refl)
        | inr (c, f) ↦ rw (e, visit_cubrid_merge) (rw f refl)
      ]
    ]

    -- A built statement renders exactly when the chain of calls has a `using` and an `on`, in any
    -- order and with any other calls.
    pub visit_cubrid_merge-run :
        (t : E) (cs : List (Call E))
        → is_some (visit_cubrid_merge process as_from (run (merge t) cs))
          ≡ (calls source_of cs && calls on_of cs)
    unfolding merge
    visit_cubrid_merge-run t cs = rw (run-eq (merge t) cs) (
        visit-given (last_calls (merge t) cs)
        ∙ rw (last_source-given none cs, last_on-given none cs) refl)
