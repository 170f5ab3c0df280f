-- ===== src/Reserved/Early.antt =====
-- The words from a to d of `RESERVED_WORDS` in sqlalchemy_cubrid/base.py.
use sqlalchemy_cubrid.Prelude.{List, [], ◌∷◌, Text, codes}

abbrev pub words_a_to_d : List Text
words_a_to_d =
    codes "absolute"
    ∷ codes "action"
    ∷ codes "add"
    ∷ codes "add_months"
    ∷ codes "after"
    ∷ codes "alias"
    ∷ codes "all"
    ∷ codes "allocate"
    ∷ codes "alter"
    ∷ codes "and"
    ∷ codes "any"
    ∷ codes "are"
    ∷ codes "as"
    ∷ codes "asc"
    ∷ codes "assertion"
    ∷ codes "async"
    ∷ codes "at"
    ∷ codes "attach"
    ∷ codes "attribute"
    ∷ codes "avg"
    ∷ codes "before"
    ∷ codes "begin"
    ∷ codes "between"
    ∷ codes "bigint"
    ∷ codes "binary"
    ∷ codes "bit"
    ∷ codes "bit_length"
    ∷ codes "blob"
    ∷ codes "boolean"
    ∷ codes "both"
    ∷ codes "breadth"
    ∷ codes "by"
    ∷ codes "call"
    ∷ codes "cascade"
    ∷ codes "cascaded"
    ∷ codes "case"
    ∷ codes "cast"
    ∷ codes "catalog"
    ∷ codes "change"
    ∷ codes "char"
    ∷ codes "character"
    ∷ codes "check"
    ∷ codes "class"
    ∷ codes "classes"
    ∷ codes "clob"
    ∷ codes "close"
    ∷ codes "cluster"
    ∷ codes "coalesce"
    ∷ codes "collate"
    ∷ codes "collation"
    ∷ codes "column"
    ∷ codes "commit"
    ∷ codes "completion"
    ∷ codes "connect"
    ∷ codes "connect_by_iscycle"
    ∷ codes "connect_by_isleaf"
    ∷ codes "connect_by_root"
    ∷ codes "connection"
    ∷ codes "constraint"
    ∷ codes "constraints"
    ∷ codes "continue"
    ∷ codes "convert"
    ∷ codes "corresponding"
    ∷ codes "count"
    ∷ codes "create"
    ∷ codes "cross"
    ∷ codes "current"
    ∷ codes "current_date"
    ∷ codes "current_datetime"
    ∷ codes "current_time"
    ∷ codes "current_timestamp"
    ∷ codes "current_user"
    ∷ codes "cursor"
    ∷ codes "cycle"
    ∷ codes "data"
    ∷ codes "data_type"
    ∷ codes "data_type___"
    ∷ codes "database"
    ∷ codes "date"
    ∷ codes "datetime"
    ∷ codes "datetimeltz"
    ∷ codes "datetimetz"
    ∷ codes "day"
    ∷ codes "day_hour"
    ∷ codes "day_millisecond"
    ∷ codes "day_minute"
    ∷ codes "day_second"
    ∷ codes "dblink"
    ∷ codes "deallocate"
    ∷ codes "dec"
    ∷ codes "decimal"
    ∷ codes "declare"
    ∷ codes "default"
    ∷ codes "deferrable"
    ∷ codes "deferred"
    ∷ codes "delete"
    ∷ codes "depth"
    ∷ codes "desc"
    ∷ codes "describe"
    ∷ codes "descriptor"
    ∷ codes "diagnostics"
    ∷ codes "dictionary"
    ∷ codes "difference"
    ∷ codes "disconnect"
    ∷ codes "distinct"
    ∷ codes "distinctrow"
    ∷ codes "div"
    ∷ codes "do"
    ∷ codes "domain"
    ∷ codes "double"
    ∷ codes "drop"
    ∷ codes "duplicate"
    ∷ []
