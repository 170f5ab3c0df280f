-- ===== src/Reflect.antt =====
-- Reflection in sqlalchemy_cubrid/dialect.py.
pub mod Groups
pub mod Constraints
pub mod Columns
pub mod Cached
pub mod ForeignKeys
pub mod Objects
