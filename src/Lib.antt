-- ===== src/Lib.antt =====
-- sqlalchemy_cubrid: the SQLAlchemy dialect for the CUBRID database.
--
-- The package sits between SQLAlchemy and the driver. SQLAlchemy hands it statements and type objects,
-- which its compilers render; the driver's connections are set up, tested and given up by the dialect;
-- the server's catalog rows and type strings are turned back into SQLAlchemy's objects, and the bytes
-- of collection columns into Python values. Paths are from the root of the repository.
--
-- - Collection (Utf8, Wire, Process): sqlalchemy_cubrid/types.py. `parse_collection_bytes` is
--   `_parse_collection_bytes`, its loop `read_elements` over an offset into the bytes; `process_set`,
--   `process_multiset` and `process_list` are the result processors, `process_bind` the bind processor.
--   Wire/Suffix has the same parser as recursion on the remaining bytes, and Wire/Encode writes the
--   format of the docstring. Process/Sets has a Python `set` as a quotient of lists.
-- - Regex: Python's `re` as far as the package uses it, by backtracking: a pattern is a value of
--   `Regex`, and `match` runs it with a continuation for what remains to be matched.
-- - Resolve (Pattern, Regular): `_resolve_type`, `_type_map` and `_COLLECTION_BASES` of
--   sqlalchemy_cubrid/dialect.py, the two regular expressions as recursive matchers, and
--   `get_col_spec` of sqlalchemy_cubrid/types.py. Printed has the type strings that are read back;
--   Regular has the first expression as a `Regex`.
-- - TypeCompiler: `CubridTypeCompiler` of sqlalchemy_cubrid/compiler.py.
-- - Alembic: sqlalchemy_cubrid/alembic_impl.py.
-- - Isolation: isolation levels, `on_connect` and `do_ping` of sqlalchemy_cubrid/dialect.py, as actions
--   on a DB-API connection (Prelude/Action: a state and a result, with `finally`). Isolation/Reach has
--   the steps in the life of a connection, Isolation/Recovery those in which any call may raise.
-- - Disconnect: `is_disconnect` of sqlalchemy_cubrid/dialect.py.
-- - Version: `_get_server_version_info`, `initialize` and `_serial_attr_column` of the same file.
-- - Reflect (Groups, Constraints, Columns, Cached): `get_pk_constraint`, `get_unique_constraints`,
--   `get_indexes` and `get_columns` of the same file, over the rows of their catalog queries, and
--   `has_index` and `has_sequence` with the inspector's cache. Constraints/Unique has the conditions of
--   two of the queries over one catalog; Columns/Declared has columns whose types the compilers wrote,
--   Columns/Shown is the server whose SHOW COLUMNS is read, Columns/Created takes whole columns from
--   CREATE TABLE over it to `get_columns`.
-- - Reflect/ForeignKeys: `get_foreign_keys` over the text of SHOW CREATE TABLE. `fk_pattern` is its
--   regular expression and `find_all` is `finditer`; Printed has the text of a key, Match its match.
-- - Reflect/Objects: the catalog queries for tables, views, comments, super and sub classes, inherited
--   and OID columns, of sqlalchemy_cubrid/dialect.py and sqlalchemy_cubrid/inheritance.py, at a server
--   that answers a statement and its parameter with rows. Query reads a query out of a
--   statement's text, Served says what a server with a catalog answers to it.
-- - Engine: `create_connect_args` of sqlalchemy_cubrid/dialect.py and `get_lastrowid` of
--   sqlalchemy_cubrid/base.py.
-- - Setup: the class attributes, `__init__`, `construct_arguments` and `do_release_savepoint` of
--   sqlalchemy_cubrid/dialect.py. Recreate takes an index from `get_indexes` to `visit_create_index`.
-- - Functions, Package: sqlalchemy_cubrid/functions.py and sqlalchemy_cubrid/__init__.py.
-- - Requirements: sqlalchemy_cubrid/requirements.py and sqlalchemy_cubrid/provision.py.
-- - Trace: sqlalchemy_cubrid/trace.py, as actions on a session; Reach has a tracer's
--   life, Query what `trace_query` sends to any server.
-- - Dblink: sqlalchemy_cubrid/dblink.py. Sql (Quoted, Groups, Lists) has the readers of literals,
--   names, numbers and brackets that say what the rendered statements mean.
-- - Dml: sqlalchemy_cubrid/dml.py with `visit_insert` and `visit_on_duplicate_key_update` of
--   sqlalchemy_cubrid/compiler.py. Statements has the statements and chains of calls on
--   them, ReadBack reads the clause.
-- - Merge: sqlalchemy_cubrid/merge.py and `visit_cubrid_merge`; a method call of the builder is a
--   constructor of `Call`, and `run` is a chain of calls. ReadBack reads a statement.
-- - Select: LIMIT and OFFSET, FOR UPDATE, set operations, CAST, REGEXP and serials in
--   `CubridCompiler` of sqlalchemy_cubrid/compiler.py; Window reads the clause as a server does.
-- - Hierarchical: sqlalchemy_cubrid/hierarchical.py and its rendering by `CubridCompiler`.
-- - Partition, Inheritance, Oid: sqlalchemy_cubrid/partition.py, sqlalchemy_cubrid/inheritance.py and
--   sqlalchemy_cubrid/oid.py.
-- - Ddl (Columns, Indexes, Serials): column specifications, table options, serials, indexes and
--   comments of `CubridDDLCompiler`. ByVersion has what depends on the version that a server prints.
-- - Reserved (Quote): `RESERVED_WORDS` and the identifier preparer of sqlalchemy_cubrid/base.py.
-- - Prelude: texts as lists of code points, decimal numbers, results with the Python exceptions that
--   occur, dictionaries as lists of entries in the order of insertion.
-- - Tests: each theorem at concrete inputs, and runs of the code.
--
-- Parameters. SQLAlchemy's quoting of names and rendering of expressions are functions into texts;
-- its type constructors are a test of which arguments a class accepts; `DefaultImpl.compare_type` is
-- a relation on types. The driver answers a request for a cursor or a statement with an outcome, and
-- so does the server in Trace and in Reflect/Objects. Where a theorem needs that something is
-- accepted, it says so. SQLAlchemy's `func` (`Func`), its check of a construct's arguments
-- (`Constructs`) and its check that a statement has one clause only are parameters with what
-- SQLAlchemy documents of them. What a server keeps of a column and shows in SHOW COLUMNS is a
-- parameter with what is documented of it (`Server`). Where one reads a statement back, a name is
-- quoted in any way that has a reader (`Quoting`), which double quotes have, always or only where a
-- name needs them, and expressions, columns and tables are those that have one (`Expressions`).
--
-- Bounds and fuel. Numbers are unbounded, as Python's are; Python's limit on the digits of `int` and
-- `str` is not modelled. `show_nat n` recurses on fuel n + 1, which is enough since each digit divides
-- the rest by ten. The other loops recurse on their input, `read_elements` on the announced count.
-- Character classes, `upper`, `lower` and `strip` are those of ASCII.
-- The readers of lists have fuel for each entry. `Regex` matches characters and not code units; the
-- empty match of a pattern under `finditer` does not occur, since `fk_pattern` begins with a word.
--
-- Not modelled: `import_dbapi`, which returns the module of the driver, the attributes that only name
-- classes, and what SQLAlchemy and the driver do themselves.
pub mod Prelude
pub mod Collection
pub mod Isolation
pub mod Sql
pub mod Trace
pub mod Version
pub mod Regex
pub mod Resolve
pub mod Dml
pub mod Disconnect
pub mod Reflect
pub mod Dblink
pub mod Reserved
pub mod TypeCompiler
pub mod Merge
pub mod Alembic
pub mod Ddl
pub mod Engine
pub mod Hierarchical
pub mod Inheritance
pub mod Partition
pub mod Oid
pub mod Select
pub mod Package
pub mod Functions
pub mod Setup
pub mod Requirements
pub mod Tests
