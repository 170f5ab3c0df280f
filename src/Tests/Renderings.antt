-- ===== src/Tests/Renderings.antt =====
-- The statements of partitions, OID tables, sub tables and indexes at concrete constructs with double
-- quotes round names.
use sqlalchemy_cubrid.Sql.Groups.{balanced}
use sqlalchemy_cubrid.Sql.Quoted.{double_quotes, double_quote}
use sqlalchemy_cubrid.Partition.{
  RangePartition, ListPartition, visit_partition_by_range, visit_partition_by_hash,
  visit_partition_by_list,
}
use sqlalchemy_cubrid.Partition.ReadBack.{
  range_scheme, list_scheme, hash_scheme, read_range, read_list, read_hash, read-visit_partition,
}
use sqlalchemy_cubrid.Oid.{
  OidPath, column, deref, visit_oid_deref, CreateTableDontReuseOid,
  visit_create_table_dont_reuse_oid,
}
use sqlalchemy_cubrid.Oid.Laws.{
  path_names, split-visit_oid_deref, visit_create_table_dont_reuse_oid-post_create_table,
}
use sqlalchemy_cubrid.Ddl.Serials.{read_create_serial, read-visit_create_sequence}
use sqlalchemy_cubrid.Ddl.SerialOptions.{switched_off, bound}
use sqlalchemy_cubrid.Ddl.{Sequence, visit_create_sequence, post_create_table}
use sqlalchemy_cubrid.Ddl.Indexes.{
  Index, indexed, visit_create_index, visit_drop_index, read_create_index, read_drop_index,
  read-visit_create_index, visit_set_table_comment, visit_drop_table_comment,
  visit_set_column_comment, visit_drop_column_comment,
}
use sqlalchemy_cubrid.Inheritance.{
  CreateTableUnder, visit_create_table_under, visit_drop_table_inheritance, read_under, read_drop,
  read-visit_create_table_under,
}
use sqlalchemy_cubrid.Tests.Quoting.{sometimes, quote}
use sqlalchemy_cubrid.Prelude.{
  negsuc, ◌≡◌, refl, true, false, none, some, [], ◌∷◌, ◌++◌, Text, codes, join, split, pos, arith,
}

abbrev by_date : RangePartition
by_date = record { name = codes "p2024"; less_than = codes "TO_DAYS('2025-01-01')" }

abbrev last_dates : RangePartition
last_dates = record { name = codes "pmax"; less_than = codes "MAXVALUE" }

abbrev asia : ListPartition
asia = record { name = codes "asia"; values = codes "'kr'" ∷ codes "'jp'" ∷ [] }

read-visit_partition_example :
    (read_range double_quotes 2 (
        visit_partition_by_range double_quote record {
          table_name = codes "orders";
          column = codes "day";
          partitions = by_date ∷ last_dates ∷ [];
        })
      ≡ some (
        codes "orders",
        codes "day",
        range_scheme (
            (codes "p2024", codes "TO_DAYS('2025-01-01')") ∷ (codes "pmax", codes "MAXVALUE") ∷ []),
      ))
    × (read_list double_quotes 2 (
          visit_partition_by_list double_quote
            record { table_name = codes "orders"; column = codes "day"; partitions = asia ∷ [] })
        ≡ some (codes "orders", codes "day", list_scheme ((codes "asia", codes "'kr', 'jp'") ∷ [])))
    × (read_hash double_quotes (
          visit_partition_by_hash double_quote
            record { table_name = codes "orders"; column = codes "day"; partitions = pos 4 })
        ≡ some (codes "orders", codes "day", hash_scheme 4))
unfolding join
read-visit_partition_example =
    read-visit_partition double_quotes (codes "orders") (codes "day") by_date (last_dates ∷ []) asia
      [] 4 1 (unfold balanced in (refl, (refl, tt))) (unfold balanced join in (refl, tt))
      (omega arith) (omega arith)

hash_statement :
    visit_partition_by_hash double_quote
      record { table_name = codes "or\"ders"; column = codes "day"; partitions = pos 4 }
    ≡ codes "ALTER TABLE \"or\"\"ders\" PARTITION BY HASH (\"day\") PARTITIONS 4"
unfolding visit_partition_by_hash double_quote
hash_statement = refl

abbrev head_name : OidPath
head_name = deref (deref (column (codes "dept")) (codes "head")) (codes "name")

split-visit_oid_deref_example :
    split b'.' (visit_oid_deref head_name) ≡ codes "dept" ∷ codes "head" ∷ codes "name" ∷ []
unfolding path_names
split-visit_oid_deref_example = split-visit_oid_deref head_name (
  (omega arith, (omega arith, (omega arith, (omega arith, tt)))),
  (
    (omega arith, (omega arith, (omega arith, (omega arith, tt)))),
    ((omega arith, (omega arith, (omega arith, (omega arith, tt)))), tt),
  ),
)

dept_head : visit_oid_deref head_name ≡ codes "dept.head.name"
unfolding visit_oid_deref
dept_head = refl

abbrev referable : CreateTableDontReuseOid Text
referable = record {
  name = codes "person";
  columns = codes "id INTEGER" ∷ codes "name STRING" ∷ [];
}

visit_create_table_dont_reuse_oid-post_create_table_example :
    visit_create_table_dont_reuse_oid double_quote (λ c. c) (11 ∷ 2 ∷ []) referable
    ≡ codes "CREATE TABLE "
      ++ (double_quote (codes "person")
          ++ (codes " ("
              ++ (join (codes ", ") (codes "id INTEGER" ∷ codes "name STRING" ∷ [])
                  ++ (codes ")" ++ post_create_table true (11 ∷ 2 ∷ []) none))))
visit_create_table_dont_reuse_oid-post_create_table_example =
    visit_create_table_dont_reuse_oid-post_create_table double_quote (λ c. c) (11 ∷ 2 ∷ [])
      referable

referable_statement :
    visit_create_table_dont_reuse_oid double_quote (λ c. c) (11 ∷ 2 ∷ []) referable
    ≡ codes "CREATE TABLE \"person\" (id INTEGER, name STRING) DONT_REUSE_OID"
unfolding visit_create_table_dont_reuse_oid double_quote
referable_statement = refl

abbrev by_name : Index
by_name = record {
  name = codes "ix";
  table = codes "person";
  unique = true;
  reverse = false;
  function = none;
  expressions = codes "name" ∷ codes "LOWER(city)" ∷ [];
  filtered = some (codes "name > 'k'");
}

read-visit_create_index_example :
    (read_create_index double_quotes (visit_create_index double_quote by_name)
      ≡ some record {
        unique = true;
        reverse = false;
        name = codes "ix";
        table = codes "person";
        inner = codes "name, LOWER(city)";
        condition = some (codes "name > 'k'");
      })
    × (read_drop_index double_quotes (visit_drop_index double_quote by_name)
        ≡ some (codes "ix", codes "person"))
unfolding indexed
read-visit_create_index_example =
    read-visit_create_index double_quotes by_name (unfold balanced indexed in refl)

-- An empty comment is the one that dropping leaves.
comments :
    (visit_set_table_comment (codes "t") (codes "''") ≡ visit_drop_table_comment (codes "t"))
    × (visit_set_column_comment (codes "t") (codes "c") (codes "''")
        ≡ visit_drop_column_comment (codes "t") (codes "c"))
unfolding visit_set_table_comment visit_drop_table_comment visit_set_column_comment
    visit_drop_column_comment
comments = (refl, refl)

abbrev student : CreateTableUnder Text
student = record {
  name = codes "student";
  parent_name = codes "person";
  columns = codes "grade NUMERIC(3, 1)" ∷ [];
}

read-visit_create_table_under_example :
    (read_under double_quotes (visit_create_table_under double_quote (λ c. c) student)
      ≡ some (codes "student", codes "person", some (codes "grade NUMERIC(3, 1)")))
    × (read_drop double_quotes (visit_drop_table_inheritance double_quote (codes "student"))
        ≡ some (codes "student", []))
unfolding join
read-visit_create_table_under_example =
    read-visit_create_table_under double_quotes (λ c. c) student (unfold balanced join in refl)

abbrev counter : Sequence
counter = record {
  start = some (pos 10);
  increment = some (negsuc 1);
  minvalue = none;
  nominvalue = true;
  maxvalue = some (pos 99);
  nomaxvalue = false;
  cycle = some false;
  cache = none;
}

read-visit_create_sequence_example :
    read_create_serial sometimes (visit_create_sequence (quote (codes "s")) counter)
    ≡ some (
      codes "s",
      record {
        start = some (pos 10);
        increment = some (negsuc 1);
        min = switched_off;
        max = bound (pos 99);
        cycle = some false;
        cache = none;
      },
    )
read-visit_create_sequence_example = read-visit_create_sequence sometimes (codes "s") counter

counter_statement :
    visit_create_sequence (double_quote (codes "s")) counter
    ≡ codes "CREATE SERIAL \"s\" START WITH 10 INCREMENT BY -2 NOMINVALUE MAXVALUE 99 NOCYCLE"
unfolding visit_create_sequence double_quote
counter_statement = refl
