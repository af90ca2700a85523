-- ===== src/Model.antt =====
-- The rows of the database, one record for each table that the program's core reads and writes
-- (src/coder_manager/models). Identifiers (UUIDs), timestamps and encrypted values are numbers.
mod Rows
mod Resource
unfoldable pub use Rows.*
unfoldable pub use Resource.*
