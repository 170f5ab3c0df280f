-- ===== src/Trace/Reach.antt =====
-- The life of a `QueryTracer` of sqlalchemy_cubrid/trace.py on a connection that is used meanwhile: any
-- calls in any order, with a server that refuses statements as it likes.
use sqlalchemy_cubrid.Prelude.{
  ◌≡◌, refl, sym, ◌∙◌, false, List, [], ◌∷◌, ◌++◌, Text, starts_with, text_eq, codes, arith,
}
use sqlalchemy_cubrid.Trace.{Server, Session, trace_off, show_trace, execute, start, stop}
use sqlalchemy_cubrid.Trace.Laws.{
  switched, tracing, tracing-append, tracing-trace_on, tracing-trace_off,
}

-- A statement that does not switch tracing.
abbrev pub IsQuery : Text → Type 0
IsQuery sql = (starts_with sql (codes "SET TRACE ON") ≡ false) × (text_eq sql trace_off ≡ false)

-- The states of the connection and the tracer: a new tracer, and then calls of `start` and `stop` and
-- statements of the application, each with its own server and any outcome.
pub data Life : Session → Type 0 where
  created : (log : List Text) → tracing log ≡ false → Life (record { log = log; active = false })
  after_start : {s : Session} (v : Server) (output : Text) → Life s → Life ((start v output s).1)
  after_stop : {s : Session} (v : Server) → Life s → Life ((stop v s).1)
  after_query :
      {s : Session} (v : Server) (sql : Text) → IsQuery sql → Life s → Life ((execute v sql s).1)

abbrev Agrees : Session → Type 0
Agrees s = s.active ≡ tracing s.log

start-Agrees : (v : Server) (output : Text) (s : Session) → Agrees s → Agrees ((start v output s).1)
unfolding start
start-Agrees v output s h = ground (arith, tracing-trace_on s.log output)

tracing-IsQuery :
    (log : List Text) (sql : Text) → IsQuery sql → tracing (log ++ sql ∷ []) ≡ tracing log
tracing-IsQuery log sql (p, q) = tracing-append log sql ∙ unfold switched in rw (p, q) refl

execute-Agrees :
    (v : Server) (sql : Text) (s : Session) → IsQuery sql → Agrees s → Agrees ((execute v sql s).1)
unfolding execute
execute-Agrees v sql s q h = ground (arith, tracing-IsQuery s.log sql q)

show_trace-IsQuery : IsQuery show_trace
unfolding starts_with text_eq
show_trace-IsQuery = (refl, refl)

stop-Agrees : (v : Server) (s : Session) → Agrees s → Agrees ((stop v s).1)
unfolding stop
stop-Agrees v s h = ground (
  arith,
  tracing-IsQuery s.log show_trace show_trace-IsQuery,
  tracing-trace_off (s.log ++ show_trace ∷ []),
)

-- Whatever calls of `start` and `stop` and whatever other statements there were, in any order, and
-- whichever of them the server refused: the tracer's `_active` says whether the server traces.
pub Life-tracing : (s : Session) → Life s → s.active ≡ tracing s.log
Life-tracing s (created log h) = sym h
Life-tracing s (after_start {s = t} v output r) = start-Agrees v output t (Life-tracing t r)
Life-tracing s (after_stop {s = t} v r) = stop-Agrees v t (Life-tracing t r)
Life-tracing s (after_query {s = t} v sql q r) = execute-Agrees v sql t q (Life-tracing t r)
