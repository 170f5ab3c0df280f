-- ===== src/Trace/Query.antt =====
-- `trace_query` of sqlalchemy_cubrid/trace.py, for any server.
use sqlalchemy_cubrid.Prelude.{
  text_eq, inl, inr, Bool-cases, ◌&&◌, ◌⊎◌, Result, Bool, true, false, List, [], ◌∷◌, ◌++◌, ◌≡◌,
  refl, ap, ◌∙◌, Text, ok, err, database_error, append_assoc,
}
use sqlalchemy_cubrid.Trace.{
  Server, Session, check_output, row_text, trace_on, trace_off, show_trace, trace_query,
}
use sqlalchemy_cubrid.Trace.Laws.{
  switched, tracing, tracing-append, tracing-trace_on, tracing-trace_off, Takes,
}

module _ (v : Server) where
  three :
      (l : List Text) (on sql : Text)
      → ((l ++ on ∷ []) ++ sql ∷ []) ++ show_trace ∷ [] ≡ l ++ on ∷ sql ∷ show_trace ∷ []
  three l on sql = simp append_assoc

  trace_query_lem :
      (sql output format : Text) (s : Session)
      → check_output output ≡ ok format
      → let l1 = s.log ++ trace_on format ∷ [] in
        let l2 = l1 ++ sql ∷ [] in
        let l3 = l2 ++ show_trace ∷ [] in
        let shown = s.log ++ trace_on format ∷ sql ∷ show_trace ∷ [] in
        v.accepts s.log (trace_on format) ≡ true
        → v.accepts l1 sql ≡ true
        → v.accepts l2 show_trace ≡ true
        → v.accepts l3 trace_off ≡ true
        → trace_query v sql output s
          ≡ (ok (row_text (v.trace_row shown)), record s { log = shown ++ trace_off ∷ [] })
  unfolding trace_query
  trace_query_lem sql output format s f h i j k =
      rw (f, trace_query) (rw (h, i, j, k))
      ∙ ap (λ l. (ok (row_text (v.trace_row l)), record s { log = l ++ trace_off ∷ [] }))
          (three s.log (trace_on format) sql)

  same_log :
      (l : List Text) (r : Result Text) (s : Session) (q : Result Text × Session) (b : Bool)
      → q ≡ (r, record s { log = l })
      → tracing l ≡ b
      → (q.0 ≡ r) × (q.1.log ≡ l) × (tracing q.1.log ≡ b)
  same_log l r s q b e t = (ap (λ p. p.0) e, ap (λ p. p.1.log) e, ap (λ p. tracing p.1.log) e ∙ t)

  -- When the server takes every statement, `trace_query` sends the four statements in order, returns
  -- what SHOW TRACE gave right behind the traced statement, and leaves the server not tracing.
  pub trace_query_total :
      (sql output format : Text) (s : Session)
      → check_output output ≡ ok format
      → ((t : Text) → Takes v t)
      → let shown = s.log ++ trace_on format ∷ sql ∷ show_trace ∷ [] in
        let q = trace_query v sql output s in
        (q ≡ (ok (row_text (v.trace_row shown)), record s { log = shown ++ trace_off ∷ [] }))
        × (tracing q.1.log ≡ false)
  trace_query_total sql output format s f h =
      let e = trace_query_lem sql output format s f (h _ _) (h _ _) (h _ _) (h _ _) in
      (e, ap (λ p. tracing p.1.log) e ∙ tracing-trace_off _)

  -- Whether the server takes, one behind the other, a statement, SHOW TRACE and SET TRACE OFF.
  abbrev pub takes_rest : Text → List Text → Bool
  takes_rest sql log =
      v.accepts log sql
      && (v.accepts (log ++ sql ∷ []) show_trace
          && v.accepts ((log ++ sql ∷ []) ++ show_trace ∷ []) trace_off)

  -- Once the server has taken SET TRACE ON: if it takes the rest too, `trace_query` returns what SHOW
  -- TRACE gave, has sent its four statements in order, and the server does not trace; if it refuses any,
  -- the call raises the server's error and the server goes on tracing. The traced statement is itself
  -- no SET TRACE.
  pub trace_query_outcomes :
      (sql output format : Text) (s : Session)
      → check_output output ≡ ok format
      → v.accepts s.log (trace_on format) ≡ true
      → ((b : Bool) → switched b sql ≡ b)
      → let shown = s.log ++ trace_on format ∷ sql ∷ show_trace ∷ [] in
        let q = trace_query v sql output s in
        let taken = takes_rest sql (s.log ++ trace_on format ∷ []) in
        ((taken ≡ true)
          × (q.0 ≡ ok (row_text (v.trace_row shown)))
          × (q.1.log ≡ shown ++ trace_off ∷ [])
          × (tracing q.1.log ≡ false))
        ⊎ ((taken ≡ false) × (q.0 ≡ err database_error) × (tracing q.1.log ≡ true))
  unfolding trace_query
  trace_query_outcomes sql output format s f on neutral =
      let l1 = s.log ++ trace_on format ∷ [] in
      let l2 = l1 ++ sql ∷ [] in
      let l3 = l2 ++ show_trace ∷ [] in
      let t1 = tracing-trace_on s.log format in
      let t2 = tracing-append l1 sql ∙ (neutral (tracing l1) ∙ t1) in
      elim (Bool-cases (v.accepts l1 sql)) [
        | inr r ↦ inr (refused l1 (rw (f, trace_query) (rw (on, r))) t1 (rw r refl))
        | inl a ↦ elim (Bool-cases (v.accepts l2 show_trace)) [
          | inr r ↦ inr (refused l2 (rw (f, trace_query) (rw (on, a, r))) t2 (rw (a, r) refl))
          | inl b ↦ elim (Bool-cases (v.accepts l3 trace_off)) [
            | inr r ↦ inr (
                refused l3 (rw (f, trace_query) (rw (on, a, b, r)))
                  (tracing-append l2 show_trace
                    ∙ (ap (λ b. switched b show_trace) t2 ∙ unfold switched text_eq in refl))
                  (rw (a, b, r) refl))
            | inl c ↦ inl (returned a b c)
          ]
        ]
      ]
    where
      refused :
          (l : List Text)
          → trace_query v sql output s ≡ (err database_error, record s { log = l })
          → tracing l ≡ true
          → takes_rest sql (s.log ++ trace_on format ∷ []) ≡ false
          → (takes_rest sql (s.log ++ trace_on format ∷ []) ≡ false)
            × ((trace_query v sql output s).0 ≡ err database_error)
            × (tracing (trace_query v sql output s).1.log ≡ true)
      refused l e t n = let (r, _, on) = same_log l _ s _ true e t in (n, r, on)

      returned :
          let l1 = s.log ++ trace_on format ∷ [] in
          let l2 = l1 ++ sql ∷ [] in
          let l3 = l2 ++ show_trace ∷ [] in
          let shown = s.log ++ trace_on format ∷ sql ∷ show_trace ∷ [] in
          let q = trace_query v sql output s in
          v.accepts l1 sql ≡ true
          → v.accepts l2 show_trace ≡ true
          → v.accepts l3 trace_off ≡ true
          → (takes_rest sql l1 ≡ true)
            × (q.0 ≡ ok (row_text (v.trace_row shown)))
            × (q.1.log ≡ shown ++ trace_off ∷ [])
            × (tracing q.1.log ≡ false)
      returned a b c =
          let e = trace_query_lem sql output format s f on a b c in
          let (r, l, t) = same_log _ _ s _ false e (tracing-trace_off _) in
          (rw (a, b, c) refl, r, l, t)
