-- ===== src/Collection.antt =====
-- sqlalchemy_cubrid/types.py
pub mod Utf8
pub mod Wire
pub mod Process
