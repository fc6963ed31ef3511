-- ===== src/Database.antt =====
-- cashu-broker/src/db.rs over the schema of cashu-broker/migrations/20250117000001_initial_schema.sql:
-- the three tables that the code uses, in order of insertion, with the schema's constraints. Foreign
-- keys are enforced, as sqlx does by default.
pub mod Rows
mod Columns
pub mod Quotes
pub mod Swaps
pub mod Events
pub mod Consistency
pub mod Statements
pub mod Lookups
pub mod Changes
pub mod Promises
pub mod Store
pub mod Encoding
