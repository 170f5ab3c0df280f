-- ===== src/Trace/Laws.antt =====
-- What the tracers of sqlalchemy_cubrid/trace.py send and leave behind.
use mathlib.Core.List.{foldl, foldl-append}
use sqlalchemy_cubrid.Prelude.{
  Bool, true, false, List, [], ◌∷◌, ◌++◌, ◌≡◌, refl, ap, ◌∙◌, arith, Text, codes, starts_with,
  text_eq, ok, if◌then◌else◌,
}
use sqlalchemy_cubrid.Prelude.Action.{Action}
use sqlalchemy_cubrid.Trace.{
  Server, Session, row_text, trace_on, trace_off, show_trace, start, stop, with_tracer,
}

-- The server's own view: whether the last SET TRACE among the statements switched tracing on.
unfoldable pub switched : Bool → Text → Bool
unfolding starts_with
switched b sql =
    if starts_with sql (codes "SET TRACE ON")
    then true
    else if text_eq sql trace_off
    then false
    else b

unfoldable pub tracing : List Text → Bool
unfolding switched
tracing log = foldl switched false log

pub tracing-append :
    (log : List Text) (sql : Text) → tracing (log ++ sql ∷ []) ≡ switched (tracing log) sql
unfolding tracing
tracing-append log sql = foldl-append switched false log (sql ∷ [])

pub tracing-trace_on :
    (log : List Text) (output : Text) → tracing (log ++ trace_on output ∷ []) ≡ true
tracing-trace_on log output = tracing-append log (trace_on output) ∙ unfold switched in refl

pub tracing-trace_off : (log : List Text) → tracing (log ++ trace_off ∷ []) ≡ false
tracing-trace_off log = tracing-append log trace_off ∙ unfold switched text_eq in refl

-- The session behind `start`, and behind a `stop` that reaches its end.
abbrev pub started : Text → Session → Session
started output s = record s { log = s.log ++ trace_on output ∷ []; active = true }

abbrev pub stopped : Session → Session
stopped s = record s { log = (s.log ++ show_trace ∷ []) ++ trace_off ∷ []; active = false }

module _ (v : Server) where
  -- The server takes a statement whenever it comes.
  abbrev pub Takes : Text → Type 0
  Takes sql = (log : List Text) → v.accepts log sql ≡ true

  start_lem :
      (output : Text) (s : Session)
      → Takes (trace_on output)
      → start v output s ≡ (ok tt, started output s)
  unfolding start
  start_lem output s h = rw (h s.log)

  stop_lem :
      (s : Session)
      → s.active ≡ true
      → Takes show_trace
      → Takes trace_off
      → stop v s ≡ (ok (row_text (v.trace_row (s.log ++ show_trace ∷ []))), stopped s)
  unfolding stop
  stop_lem s a h k = ground (arith, h s.log, k (s.log ++ show_trace ∷ []))

  -- A tracer that is not active sends nothing; and so `stop` after a `stop` that returned does nothing.
  pub stop_idem :
      (s : Session) (out : Text)
      → (stop v s).0 ≡ ok out
      → stop v (stop v s).1 ≡ (ok [], (stop v s).1)
  unfolding stop
  stop_idem s out h = ground arith

  with_tracer_lem :
      {A : Type 0} (output : Text) (body : Action Session A) (s : Session)
      → Takes (trace_on output)
      → Takes show_trace
      → Takes trace_off
      → ((t : Session) → (body t).1.active ≡ t.active)
      → with_tracer v output body s
        ≡ ((body (started output s)).0, stopped (body (started output s)).1)
  unfolding with_tracer
  with_tracer_lem output body s h k l keeps =
      rw (start_lem output s h, stop_lem (body (started output s)).1 (keeps (started output s)) k l)

  -- Behind a `with` block the tracer is inactive and the server does not trace, whether the body
  -- returned or raised, and the block has the body's outcome; this needs a server that takes the
  -- tracer's three statements and a body that leaves `_active` alone.
  pub with_tracer_off :
      {A : Type 0} (output : Text) (body : Action Session A) (s : Session)
      → Takes (trace_on output)
      → Takes show_trace
      → Takes trace_off
      → ((t : Session) → (body t).1.active ≡ t.active)
      → ((with_tracer v output body s).0 ≡ (body (started output s)).0)
        × ((with_tracer v output body s).1.active ≡ false)
        × (tracing (with_tracer v output body s).1.log ≡ false)
  with_tracer_off output body s h k l keeps =
      let e = with_tracer_lem output body s h k l keeps in
      (ap (λ p. p.0) e, ap (λ p. p.1.active) e, ap (λ p. tracing p.1.log) e ∙ tracing-trace_off _)
