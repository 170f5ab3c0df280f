-- ===== src/Tests.antt =====
-- Tests of the models at concrete inputs, and each theorem at an input that meets its conditions.
pub mod Collections
pub mod Connections
pub mod Statements
pub mod Types
pub mod Catalog
pub mod ForeignKeys
pub mod Objects
pub mod Engine
pub mod Renderings
pub mod Queries
pub mod Merges
pub mod Declared
pub mod Indexes
pub mod Columns
pub mod Created
pub mod Quoting
