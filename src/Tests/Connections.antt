-- ===== src/Tests/Connections.antt =====
-- sqlalchemy_cubrid/dialect.py's isolation and version functions, and sqlalchemy_cubrid/trace.py, at
-- concrete connections.
use sqlalchemy_cubrid.Prelude.{
  Bool, show_nat, one_of, not, ap, ◌≡◌, refl, ◌⊎◌, true, false, none, some, [], ◌∷◌, ◌++◌, arith,
  codes, ok, err, Error, value_error, database_error, text_eq, length, starts_with,
}
use sqlalchemy_cubrid.Prelude.Action.{Action}
use sqlalchemy_cubrid.Isolation.{
  isolation_statement, isolation_level_values, isolation_code, Connection, Driver,
  set_isolation_level, reset_isolation_level, default_isolation_level, get_isolation_level, do_ping,
  tracks_autocommit,
}
use sqlalchemy_cubrid.Isolation.{change_level, on_connect}
use sqlalchemy_cubrid.Isolation.Reach.{
  Reach, connected, next, set_level, set_fails, ping, IsTracked, Reach-IsTracked,
}
use sqlalchemy_cubrid.Isolation.Recovery.{
  called, opened_anew, set_isolation_level-recovers, reset_isolation_level-recovers,
}
use sqlalchemy_cubrid.Isolation.Laws.{
  code_list, IsConsistent, IsSafe, IsConsistent-IsSafe, after_set, left_autocommit,
  set_isolation_level_total, set_isolation_level_unlisted, set_isolation_level_outcomes,
  cursors_closed, failed_set_inconsistent,
}
use sqlalchemy_cubrid.Version.{
  server_version_info, tuple_ge, serial_attr_column, sequence_names_statement,
}
use sqlalchemy_cubrid.Version.Laws.{
  print_version, server_version_info-print, serial_attr_column_mono, sequence_names_statement-eq,
}
use sqlalchemy_cubrid.Trace.{
  Server, Session, trace_on, show_trace, start, check_output, row_text, stop, with_tracer,
  trace_query, trace_off,
}
use sqlalchemy_cubrid.Trace
use sqlalchemy_cubrid.Trace.Reach.{Life, Life-tracing}
use sqlalchemy_cubrid.Trace.Query.{takes_rest, trace_query_total, trace_query_outcomes}
use sqlalchemy_cubrid.Trace.Laws.{switched, tracing, stop_idem, with_tracer_off}

abbrev willing : Driver
willing = record { gives_cursor = λ c. true; accepts = λ c sql. true }

-- In AUTOCOMMIT, on a connection that has set it.
abbrev auto : Connection
auto = record {
  autocommit = true;
  sa_isolation_level = some (codes "AUTOCOMMIT");
  executed = [];
  cursors = 0;
}

auto-IsConsistent : IsConsistent auto
unfolding tracks_autocommit text_eq
auto-IsConsistent = refl

auto-IsSafe : IsSafe auto
auto-IsSafe = IsConsistent-IsSafe auto auto-IsConsistent

-- Refuses every statement.
abbrev refusing : Driver
refusing = record { gives_cursor = λ c. true; accepts = λ c sql. false }

-- A connection that was in AUTOCOMMIT when a change of its level was refused.
abbrev failed_once : Connection
failed_once =
    (set_isolation_level refusing (codes "SERIALIZABLE")
      (set_isolation_level willing (codes "AUTOCOMMIT") (on_connect auto)).1).1

set_isolation_level-recovers_example :
    (set_isolation_level willing (codes "AUTOCOMMIT") failed_once
      ≡ (ok tt, after_set (codes "AUTOCOMMIT") failed_once))
    × (get_isolation_level (set_isolation_level willing (codes "AUTOCOMMIT") failed_once).1
        ≡ codes "AUTOCOMMIT")
    × IsConsistent (set_isolation_level willing (codes "AUTOCOMMIT") failed_once).1
set_isolation_level-recovers_example =
    set_isolation_level-recovers auto failed_once willing (codes "AUTOCOMMIT")
      (called refusing (codes "SERIALIZABLE") (called willing (codes "AUTOCOMMIT") opened_anew))
      (λ c. refl) (λ c sql. refl) (unfold one_of isolation_level_values text_eq in refl)

reset_isolation_level-recovers_example :
    (reset_isolation_level (set_isolation_level willing) none default_isolation_level failed_once
      ≡ (ok tt, after_set default_isolation_level failed_once))
    × (get_isolation_level (after_set default_isolation_level failed_once)
        ≡ default_isolation_level)
    × IsConsistent (after_set default_isolation_level failed_once)
reset_isolation_level-recovers_example =
    reset_isolation_level-recovers auto failed_once willing (set_isolation_level willing) none
      (called refusing (codes "SERIALIZABLE") (called willing (codes "AUTOCOMMIT") opened_anew))
      (λ c. refl) (λ c sql. refl) (λ level listed. refl)
      (unfold one_of isolation_level_values text_eq default_isolation_level in refl)

auto-tracks_autocommit : tracks_autocommit auto ≡ true
unfolding tracks_autocommit text_eq
auto-tracks_autocommit = refl

set_isolation_level_total_example :
    set_isolation_level willing (codes "SERIALIZABLE") auto
    ≡ (ok tt, after_set (codes "SERIALIZABLE") auto)
set_isolation_level_total_example =
    set_isolation_level_total willing (codes "SERIALIZABLE") auto (λ c. refl) (λ c sql. refl)
      (unfold one_of isolation_level_values text_eq in refl) auto-IsSafe

-- The isolation level codes of CUBRID in the statement.
serializable_statement :
    (after_set (codes "SERIALIZABLE") auto).executed
    ≡ codes "SET TRANSACTION ISOLATION LEVEL 6" ∷ []
unfolding code_list isolation_code isolation_statement text_eq show_nat
serializable_statement = refl

unknown_unlisted : one_of (codes "READ UNCOMMITTED") isolation_level_values ≡ false
unfolding one_of isolation_level_values text_eq
unknown_unlisted = refl

set_isolation_level_unlisted_example :
    set_isolation_level willing (codes "READ UNCOMMITTED") auto
    ≡ (err value_error, left_autocommit auto)
set_isolation_level_unlisted_example =
    set_isolation_level_unlisted willing (codes "READ UNCOMMITTED") auto unknown_unlisted

set_isolation_level_outcomes_example :
    (set_isolation_level willing (codes "SERIALIZABLE") auto
      ≡ (ok tt, after_set (codes "SERIALIZABLE") auto))
    ⊎ ((e : Error) × (set_isolation_level willing (codes "SERIALIZABLE") auto
          ≡ (err e, left_autocommit auto)))
set_isolation_level_outcomes_example =
    set_isolation_level_outcomes willing (codes "SERIALIZABLE") auto auto-IsSafe

cursors_closed_example :
    ((set_isolation_level willing (codes "SERIALIZABLE") auto).1.cursors ≡ 0)
    × ((do_ping willing auto).1.cursors ≡ 0)
cursors_closed_example = cursors_closed willing (codes "SERIALIZABLE") auto auto-IsSafe

failed_set_inconsistent_example :
    ¬ IsConsistent (set_isolation_level willing (codes "READ UNCOMMITTED") auto).1
failed_set_inconsistent_example =
    failed_set_inconsistent willing (codes "READ UNCOMMITTED") auto value_error auto-IsConsistent
      auto-tracks_autocommit (ap (λ p. p.0) set_isolation_level_unlisted_example)

server_version_info-print_example :
    server_version_info (print_version (11 ∷ 4 ∷ 0 ∷ []) (codes "-beta")) ≡ 11 ∷ 4 ∷ 0 ∷ []
server_version_info-print_example =
    server_version_info-print 11 (4 ∷ 0 ∷ []) (codes "-beta") (refl, omega arith)

version_string : server_version_info (codes "11.4.0.1234") ≡ 11 ∷ 4 ∷ 0 ∷ 1234 ∷ []
unfolding server_version_info
version_string = refl

version_unreadable : server_version_info (codes "unknown") ≡ 0 ∷ []
unfolding server_version_info
version_unreadable = refl

serial_attr_column_mono_example : serial_attr_column (12 ∷ []) ≡ codes "attr_name"
serial_attr_column_mono_example =
    serial_attr_column_mono (11 ∷ 4 ∷ []) (12 ∷ []) (unfold tuple_ge in refl)
      (unfold serial_attr_column in refl)

sequence_names_statement-eq_example :
    sequence_names_statement (10 ∷ 2 ∷ [])
    ≡ ok (
        codes "SELECT name FROM db_serial WHERE "
        ++ (serial_attr_column (10 ∷ 2 ∷ []) ++ codes " IS NULL ORDER BY name"))
sequence_names_statement-eq_example = sequence_names_statement-eq (10 ∷ 2 ∷ [])

-- A server that takes everything, and gives the number of statements as its trace.
abbrev eager : Server
eager = record { accepts = λ log sql. true; trace_row = λ log. some (length log ∷ []) }

-- A server that takes nothing but the tracer's own statements.
abbrev strict : Server
strict = record { accepts = λ log sql. not (text_eq sql (codes "BAD")); trace_row = λ log. none }

abbrev fresh : Session
fresh = record { log = []; active = false }

stop_idem_example : stop eager (stop eager fresh).1 ≡ (ok [], (stop eager fresh).1)
stop_idem_example = stop_idem eager fresh [] (unfold stop in refl)

-- A body that raises.
abbrev failing : Action Session Unit
failing s = (err value_error, s)

with_tracer_off_example :
    ((with_tracer eager (codes "JSON") failing fresh).0 ≡ err value_error)
    × ((with_tracer eager (codes "JSON") failing fresh).1.active ≡ false)
    × (tracing (with_tracer eager (codes "JSON") failing fresh).1.log ≡ false)
with_tracer_off_example =
    with_tracer_off eager (codes "JSON") failing fresh (λ l. refl) (λ l. refl) (λ l. refl)
      (λ t. refl)

json_output : check_output (codes "json") ≡ ok (codes "JSON")
unfolding check_output text_eq
json_output = refl

trace_query_total_example :
    (trace_query eager (codes "SELECT 1") (codes "json") fresh ≡ (
      ok (row_text (some (3 ∷ []))),
      record fresh {
        log = trace_on (codes "JSON") ∷ codes "SELECT 1" ∷ show_trace ∷ codes "SET TRACE OFF" ∷ [];
      },
    ))
    × (tracing (trace_query eager (codes "SELECT 1") (codes "json") fresh).1.log ≡ false)
trace_query_total_example =
    trace_query_total eager (codes "SELECT 1") (codes "json") (codes "JSON") fresh json_output
      (λ t l. refl)

neutral : (b : Bool) → switched b (codes "BAD") ≡ b
unfolding switched text_eq
neutral b = refl

trace_query_outcomes_example :
    let shown = trace_on (codes "JSON") ∷ codes "BAD" ∷ show_trace ∷ [] in
    let q = trace_query strict (codes "BAD") (codes "json") fresh in
    let taken = takes_rest strict (codes "BAD") (trace_on (codes "JSON") ∷ []) in
    ((taken ≡ true)
      × (q.0 ≡ ok (row_text (strict.trace_row shown)))
      × (q.1.log ≡ shown ++ trace_off ∷ [])
      × (tracing q.1.log ≡ false))
    ⊎ ((taken ≡ false) × (q.0 ≡ err database_error) × (tracing q.1.log ≡ true))
trace_query_outcomes_example =
    trace_query_outcomes strict (codes "BAD") (codes "json") (codes "JSON") fresh json_output
      (unfold text_eq in refl) neutral

-- Connected, then AUTOCOMMIT, SERIALIZABLE, an unknown level, and a ping that fails.
abbrev unwilling : Driver
unwilling = record { gives_cursor = λ c. true; accepts = λ c sql. false }

abbrev in_autocommit : Connection
in_autocommit = (set_isolation_level willing (codes "AUTOCOMMIT") (on_connect auto)).1

abbrev in_serializable : Connection
in_serializable = (set_isolation_level willing (codes "SERIALIZABLE") in_autocommit).1

abbrev pinged : Connection
pinged = (do_ping unwilling ((set_isolation_level willing (codes "CHAOS") in_serializable).1)).1

pinged-Reach : Reach auto pinged
unfolding set_isolation_level change_level isolation_code text_eq on_connect tracks_autocommit
pinged-Reach =
    next
      (next
        (next (next connected (set_level willing (codes "AUTOCOMMIT") (on_connect auto) refl))
          (set_level willing (codes "SERIALIZABLE") in_autocommit refl))
        (set_fails willing (codes "CHAOS") in_serializable refl))
      (ping unwilling ((set_isolation_level willing (codes "CHAOS") in_serializable).1))

Reach-IsTracked_example : IsTracked pinged × (pinged.cursors ≡ 0)
Reach-IsTracked_example = Reach-IsTracked auto pinged pinged-Reach

-- A server that takes everything but SHOW TRACE.
abbrev mute : Server
mute = record { accepts = λ log sql. not (text_eq sql show_trace); trace_row = λ log. none }

abbrev fresh_tracer : Session
fresh_tracer = record { log = []; active = false }

-- Started, asked to stop in vain, and in use meanwhile.
abbrev still_tracing : Session
still_tracing =
    (Trace.execute mute (codes "SELECT 1")
      (stop mute (start mute (codes "TEXT") fresh_tracer).1).1).1

Life-tracing_example : still_tracing.active ≡ tracing still_tracing.log
Life-tracing_example = Life-tracing still_tracing (
    Life.after_query mute (codes "SELECT 1") (unfold text_eq starts_with in (refl, refl)) (
      Life.after_stop mute
        (Life.after_start mute (codes "TEXT") (Life.created [] (unfold tracing in refl)))))
