-- ===== src/Workers.antt =====
-- internal/worker: the programs that watch the chains for the payments of orders.
pub mod Evm
