-- ===== src/Sql/Laws.antt =====
-- How a row is found after each statement, and what the statements do to the rows and their keys.
mod Find
mod Rows
mod Keys
pub use Find.*
pub use Rows.*
pub use Keys.*
