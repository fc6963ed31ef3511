-- ===== src/Api.antt =====
-- cashu-broker/src/api.rs: the HTTP handlers over the broker and the database.
pub mod Types
pub mod Handlers
pub mod Reads
mod Calls
pub mod Agreement
pub mod Completion
pub mod Offer
pub mod Invariant
pub mod Behind
pub mod Stuck
pub mod Tasks
pub mod Metrics
pub mod Refusals
pub mod Balances
