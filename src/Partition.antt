-- ===== src/Partition.antt =====
-- Partitioning statements of sqlalchemy_cubrid/partition.py; `quote_identifier` of SQLAlchemy is a
-- parameter.
pub mod Parts
pub mod ReadBack
use sqlalchemy_cubrid.Prelude.{ℤ, show_int, List, [], ◌++◌, map, Text, codes, join}

pub record RangePartition : Type 0 where
  pub name : Text
  pub less_than : Text

-- The values are given by their `str`.
pub record ListPartition : Type 0 where
  pub name : Text
  pub values : List Text

-- `PartitionByRange`, `PartitionByHash` and `PartitionByList`, by their partitions or their number.
pub record PartitionBy (P : Type 0) : Type 0 where
  pub table_name : Text
  pub column : Text
  pub partitions : P

module _ (quote_identifier : Text → Text) where
  unfoldable pub range_part : RangePartition → Text
  range_part p =
      codes "PARTITION "
      ++ (quote_identifier p.name ++ (codes " VALUES LESS THAN (" ++ (p.less_than ++ codes ")")))

  -- `visit_partition_by_range`
  unfoldable pub visit_partition_by_range : PartitionBy (List RangePartition) → Text
  unfolding range_part join
  visit_partition_by_range e =
      codes "ALTER TABLE "
      ++ (quote_identifier e.table_name
          ++ (codes " PARTITION BY RANGE ("
              ++ (quote_identifier e.column
                  ++ (codes ") ("
                      ++ (join (codes ", ") (map range_part e.partitions) ++ codes ")")))))

  -- `visit_partition_by_hash`
  unfoldable pub visit_partition_by_hash : PartitionBy ℤ → Text
  unfolding show_int
  visit_partition_by_hash e =
      codes "ALTER TABLE "
      ++ (quote_identifier e.table_name
          ++ (codes " PARTITION BY HASH ("
              ++ (quote_identifier e.column ++ (codes ") PARTITIONS " ++ show_int e.partitions))))

  unfoldable pub list_part : ListPartition → Text
  unfolding join
  list_part p =
      codes "PARTITION "
      ++ (quote_identifier p.name
          ++ (codes " VALUES IN (" ++ (join (codes ", ") p.values ++ codes ")")))

  -- `visit_partition_by_list`
  unfoldable pub visit_partition_by_list : PartitionBy (List ListPartition) → Text
  unfolding list_part join
  visit_partition_by_list e =
      codes "ALTER TABLE "
      ++ (quote_identifier e.table_name
          ++ (codes " PARTITION BY LIST ("
              ++ (quote_identifier e.column
                  ++ (codes ") ("
                      ++ (join (codes ", ") (map list_part e.partitions) ++ codes ")")))))
