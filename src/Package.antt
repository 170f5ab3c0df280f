-- ===== src/Package.antt =====
-- sqlalchemy_cubrid/__init__.py: the names that the package exports, and the dialect's entries in
-- SQLAlchemy's registry.
use sqlalchemy_cubrid.Prelude.{List, [], ◌∷◌, Text, codes}

-- The names that are imported, in the order of the file.
unfoldable pub exports : List Text
exports =
    codes "CreateServer"
    ∷ codes "DbLink"
    ∷ codes "DropServer"
    ∷ codes "Insert"
    ∷ codes "Replace"
    ∷ codes "Truncate"
    ∷ codes "insert"
    ∷ codes "replace"
    ∷ codes "truncate"
    ∷ codes "decode"
    ∷ codes "decr"
    ∷ codes "group_concat"
    ∷ codes "if_"
    ∷ codes "ifnull"
    ∷ codes "incr"
    ∷ codes "nvl"
    ∷ codes "nvl2"
    ∷ codes "HierarchicalSelect"
    ∷ codes "connect_by_iscycle"
    ∷ codes "connect_by_isleaf"
    ∷ codes "connect_by_root"
    ∷ codes "level_col"
    ∷ codes "prior"
    ∷ codes "rownum"
    ∷ codes "sys_connect_by_path"
    ∷ codes "CreateTableUnder"
    ∷ codes "DropTableInheritance"
    ∷ codes "get_inherited_columns"
    ∷ codes "get_sub_classes"
    ∷ codes "get_super_class"
    ∷ codes "Merge"
    ∷ codes "CreateTableDontReuseOID"
    ∷ codes "CubridOID"
    ∷ codes "OIDDeref"
    ∷ codes "deref"
    ∷ codes "HashPartition"
    ∷ codes "ListPartition"
    ∷ codes "PartitionByHash"
    ∷ codes "PartitionByList"
    ∷ codes "PartitionByRange"
    ∷ codes "RangePartition"
    ∷ codes "QueryTracer"
    ∷ codes "trace_query"
    ∷ []

-- The arguments of `registry.register`: the name, and the module and the class that it loads.
unfoldable pub registered : List (Text × Text × Text)
registered =
    (codes "cubrid", codes "sqlalchemy_cubrid.dialect", codes "CubridDialect")
    ∷ (codes "cubrid.pycubrid", codes "sqlalchemy_cubrid.dialect", codes "CubridDialect")
    ∷ []
