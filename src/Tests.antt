-- ===== src/Tests.antt =====
-- Runs of the model at concrete inputs, and the theorems applied to them.
mod Sample
mod Scenario
mod Liquidity
mod Swap
mod Atomic
mod Database
mod Api
mod Tasks
mod Start
mod Behind
mod Encoding
mod Stuck
mod Handlers
mod Race
mod Wire
