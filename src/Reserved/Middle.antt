-- ===== src/Reserved/Middle.antt =====
-- The words from e to o of `RESERVED_WORDS` in sqlalchemy_cubrid/base.py.
use sqlalchemy_cubrid.Prelude.{List, [], ◌∷◌, Text, codes}

abbrev pub words_e_to_o : List Text
words_e_to_o =
    codes "each"
    ∷ codes "else"
    ∷ codes "elseif"
    ∷ codes "end"
    ∷ codes "enum"
    ∷ codes "equals"
    ∷ codes "escape"
    ∷ codes "evaluate"
    ∷ codes "except"
    ∷ codes "exception"
    ∷ codes "exclude"
    ∷ codes "exec"
    ∷ codes "execute"
    ∷ codes "exists"
    ∷ codes "external"
    ∷ codes "extract"
    ∷ codes "false"
    ∷ codes "fetch"
    ∷ codes "file"
    ∷ codes "first"
    ∷ codes "float"
    ∷ codes "for"
    ∷ codes "foreign"
    ∷ codes "found"
    ∷ codes "from"
    ∷ codes "full"
    ∷ codes "function"
    ∷ codes "general"
    ∷ codes "get"
    ∷ codes "global"
    ∷ codes "go"
    ∷ codes "goto"
    ∷ codes "grant"
    ∷ codes "group"
    ∷ codes "having"
    ∷ codes "hour"
    ∷ codes "hour_millisecond"
    ∷ codes "hour_minute"
    ∷ codes "hour_second"
    ∷ codes "identity"
    ∷ codes "if"
    ∷ codes "ignore"
    ∷ codes "immediate"
    ∷ codes "in"
    ∷ codes "index"
    ∷ codes "indicator"
    ∷ codes "inherit"
    ∷ codes "initially"
    ∷ codes "inner"
    ∷ codes "inout"
    ∷ codes "input"
    ∷ codes "insert"
    ∷ codes "int"
    ∷ codes "integer"
    ∷ codes "intersect"
    ∷ codes "intersection"
    ∷ codes "interval"
    ∷ codes "into"
    ∷ codes "is"
    ∷ codes "isolation"
    ∷ codes "join"
    ∷ codes "json"
    ∷ codes "key"
    ∷ codes "language"
    ∷ codes "last"
    ∷ codes "ldb"
    ∷ codes "leading"
    ∷ codes "leave"
    ∷ codes "left"
    ∷ codes "less"
    ∷ codes "level"
    ∷ codes "like"
    ∷ codes "limit"
    ∷ codes "list"
    ∷ codes "local"
    ∷ codes "local_transaction_id"
    ∷ codes "localtime"
    ∷ codes "localtimestamp"
    ∷ codes "loop"
    ∷ codes "lower"
    ∷ codes "match"
    ∷ codes "max"
    ∷ codes "merge"
    ∷ codes "method"
    ∷ codes "millisecond"
    ∷ codes "min"
    ∷ codes "minute"
    ∷ codes "minute_millisecond"
    ∷ codes "minute_second"
    ∷ codes "mod"
    ∷ codes "modify"
    ∷ codes "module"
    ∷ codes "monetary"
    ∷ codes "month"
    ∷ codes "multiset"
    ∷ codes "multiset_of"
    ∷ codes "na"
    ∷ codes "names"
    ∷ codes "national"
    ∷ codes "natural"
    ∷ codes "nchar"
    ∷ codes "next"
    ∷ codes "no"
    ∷ codes "none"
    ∷ codes "not"
    ∷ codes "null"
    ∷ codes "nullif"
    ∷ codes "numeric"
    ∷ codes "object"
    ∷ codes "octet_length"
    ∷ codes "of"
    ∷ codes "off"
    ∷ codes "oid"
    ∷ codes "on"
    ∷ codes "only"
    ∷ codes "open"
    ∷ codes "operation"
    ∷ codes "operators"
    ∷ codes "optimization"
    ∷ codes "option"
    ∷ codes "or"
    ∷ codes "order"
    ∷ codes "others"
    ∷ codes "out"
    ∷ codes "outer"
    ∷ codes "output"
    ∷ codes "overlaps"
    ∷ []
