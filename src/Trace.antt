-- ===== src/Trace.antt =====
-- sqlalchemy_cubrid/trace.py: `trace_query` and the class `QueryTracer`, on a connection whose server
-- is a parameter. The proofs are in the modules below this one.
pub mod Laws
pub mod Query
pub mod Reach
use sqlalchemy_cubrid.Prelude.{
  Bool, true, false, Option, none, some, List, [], ◌∷◌, ◌++◌, Text, codes, upper, one_of, Result,
  ok, err, value_error, database_error, if◌then◌else◌,
}
use sqlalchemy_cubrid.Prelude.Action.{Action, pure, throw, modify, gets, ◌>>=◌, ◌>>◌}

-- What the server decides, by the statements so far: whether it takes the next one, and what the
-- row of SHOW TRACE holds.
pub record Server : Type 0 where
  pub accepts : List Text → Text → Bool
  pub trace_row : List Text → Option Text

-- The connection, by the statements that the server took, and the tracer's `_active`.
pub record Session : Type 0 where
  pub log : List Text
  pub active : Bool

-- `output.upper()` if it is one of the formats, which both entry points check first.
unfoldable pub check_output : Text → Result Text
unfolding one_of upper
check_output output =
    if one_of (upper output) (codes "TEXT" ∷ codes "JSON" ∷ [])
    then ok (upper output)
    else err value_error

-- `row[0] if row else ""`
abbrev pub row_text : Option Text → Text
row_text none = []
row_text (some row) = row

abbrev pub trace_on : Text → Text
trace_on output = codes "SET TRACE ON OUTPUT " ++ output

abbrev pub trace_off : Text
trace_off = codes "SET TRACE OFF"

abbrev pub show_trace : Text
show_trace = codes "SHOW TRACE"

module _ (v : Server) where
  -- `connection.execute(text(sql))`
  unfoldable pub execute : Text → Action Session Unit
  execute sql s =
      if v.accepts s.log sql
      then (ok tt, record s { log = s.log ++ sql ∷ [] })
      else (err database_error, s)

  -- SHOW TRACE and `fetchone`.
  unfoldable pub fetch_trace : Action Session Text
  unfolding execute
  fetch_trace = do execute show_trace; gets (λ s. row_text (v.trace_row s.log))

  -- `QueryTracer.start`, with the format that the constructor stored.
  unfoldable pub start : Text → Action Session Unit
  unfolding execute
  start output = do execute (trace_on output); modify (λ s. record s { active = true })

  -- `QueryTracer.stop`
  unfoldable pub stop : Action Session Text
  unfolding fetch_trace execute
  stop s = elim s.active [
    | false ↦ (ok [], s)
    | true ↦
        (do
          trace_output ← fetch_trace
          execute trace_off
          modify (λ s. record s { active = false })
          pure trace_output)
          s
  ]

  -- `with QueryTracer(…) as tracer: body`: `__exit__` stops the tracer and lets the exception of the
  -- body pass; an exception of its own replaces it.
  unfoldable pub with_tracer : {A : Type 0} → Text → Action Session A → Action Session A
  unfolding start stop
  with_tracer output body = do
    start output
    λ s.
        let (r, s') = body s in let (q, s'') = stop s' in (elim q [ ok _ ↦ r | err e ↦ err e ], s'')

  -- `trace_query`; the statement's result is that of `execute`.
  unfoldable pub trace_query : Text → Text → Action Session Text
  unfolding check_output fetch_trace execute
  trace_query sql output = elim (check_output output) [
    | err e ↦ throw e
    | ok format ↦ do
      execute (trace_on format)
      execute sql
      trace_output ← fetch_trace
      execute trace_off
      pure trace_output
  ]
