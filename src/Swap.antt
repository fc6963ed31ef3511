-- ===== src/Swap.antt =====
-- cashu-broker/src/swap.rs: `SwapCoordinator`, which quotes, prepares and completes swaps.
-- `Coordinator` holds the maps behind its two locks and the liquidity manager that its methods are
-- given. Each method is one action; Tasks has the same methods as steps between their awaits.
pub mod Quote
pub mod Execute
pub mod Lifecycle
pub mod Closing
pub mod Complete
pub mod Completed
pub mod Lock
pub mod Tasks
