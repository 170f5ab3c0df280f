-- ===== src/Reserved/Late.antt =====
-- The words from p to z of `RESERVED_WORDS` in sqlalchemy_cubrid/base.py.
use sqlalchemy_cubrid.Prelude.{List, [], ◌∷◌, Text, codes}

abbrev pub words_p_to_z : List Text
words_p_to_z =
    codes "parameters"
    ∷ codes "partial"
    ∷ codes "partition"
    ∷ codes "pendant"
    ∷ codes "position"
    ∷ codes "precision"
    ∷ codes "preorder"
    ∷ codes "prepare"
    ∷ codes "preserve"
    ∷ codes "primary"
    ∷ codes "prior"
    ∷ codes "private"
    ∷ codes "privileges"
    ∷ codes "procedure"
    ∷ codes "protected"
    ∷ codes "proxy"
    ∷ codes "query"
    ∷ codes "read"
    ∷ codes "real"
    ∷ codes "recursive"
    ∷ codes "ref"
    ∷ codes "references"
    ∷ codes "referencing"
    ∷ codes "regexp"
    ∷ codes "register"
    ∷ codes "relative"
    ∷ codes "rename"
    ∷ codes "replace"
    ∷ codes "resignal"
    ∷ codes "restrict"
    ∷ codes "return"
    ∷ codes "returns"
    ∷ codes "revoke"
    ∷ codes "right"
    ∷ codes "rlike"
    ∷ codes "role"
    ∷ codes "rollback"
    ∷ codes "rollup"
    ∷ codes "routine"
    ∷ codes "row"
    ∷ codes "rownum"
    ∷ codes "rows"
    ∷ codes "savepoint"
    ∷ codes "schema"
    ∷ codes "scope"
    ∷ codes "scope___"
    ∷ codes "scroll"
    ∷ codes "search"
    ∷ codes "second"
    ∷ codes "second_millisecond"
    ∷ codes "section"
    ∷ codes "select"
    ∷ codes "sensitive"
    ∷ codes "sequence"
    ∷ codes "sequence_of"
    ∷ codes "serial"
    ∷ codes "serializable"
    ∷ codes "server"
    ∷ codes "session"
    ∷ codes "session_user"
    ∷ codes "set"
    ∷ codes "set_of"
    ∷ codes "seteq"
    ∷ codes "setneq"
    ∷ codes "shared"
    ∷ codes "short"
    ∷ codes "siblings"
    ∷ codes "signal"
    ∷ codes "similar"
    ∷ codes "size"
    ∷ codes "smallint"
    ∷ codes "some"
    ∷ codes "sql"
    ∷ codes "sqlcode"
    ∷ codes "sqlerror"
    ∷ codes "sqlexception"
    ∷ codes "sqlstate"
    ∷ codes "sqlwarning"
    ∷ codes "statistics"
    ∷ codes "string"
    ∷ codes "structure"
    ∷ codes "subclass"
    ∷ codes "subset"
    ∷ codes "subseteq"
    ∷ codes "substring"
    ∷ codes "sum"
    ∷ codes "superclass"
    ∷ codes "superset"
    ∷ codes "superseteq"
    ∷ codes "sys_connect_by_path"
    ∷ codes "sys_date"
    ∷ codes "sys_datetime"
    ∷ codes "sys_time"
    ∷ codes "sys_timestamp"
    ∷ codes "sys_user"
    ∷ codes "sysdate"
    ∷ codes "sysdatetime"
    ∷ codes "system_user"
    ∷ codes "systime"
    ∷ codes "systimestamp"
    ∷ codes "table"
    ∷ codes "temporary"
    ∷ codes "test"
    ∷ codes "then"
    ∷ codes "there"
    ∷ codes "time"
    ∷ codes "timestamp"
    ∷ codes "timestampltz"
    ∷ codes "timestamptz"
    ∷ codes "timezone_hour"
    ∷ codes "timezone_minute"
    ∷ codes "to"
    ∷ codes "trailing"
    ∷ codes "transaction"
    ∷ codes "translate"
    ∷ codes "translation"
    ∷ codes "trigger"
    ∷ codes "trim"
    ∷ codes "true"
    ∷ codes "truncate"
    ∷ codes "type"
    ∷ codes "under"
    ∷ codes "union"
    ∷ codes "unique"
    ∷ codes "unknown"
    ∷ codes "update"
    ∷ codes "upper"
    ∷ codes "usage"
    ∷ codes "use"
    ∷ codes "user"
    ∷ codes "using"
    ∷ codes "utime"
    ∷ codes "vacuum"
    ∷ codes "value"
    ∷ codes "values"
    ∷ codes "varchar"
    ∷ codes "variable"
    ∷ codes "varying"
    ∷ codes "vclass"
    ∷ codes "view"
    ∷ codes "virtual"
    ∷ codes "visible"
    ∷ codes "wait"
    ∷ codes "when"
    ∷ codes "whenever"
    ∷ codes "where"
    ∷ codes "while"
    ∷ codes "with"
    ∷ codes "without"
    ∷ codes "work"
    ∷ codes "write"
    ∷ codes "xor"
    ∷ codes "year"
    ∷ codes "year_month"
    ∷ codes "zone"
    ∷ []
