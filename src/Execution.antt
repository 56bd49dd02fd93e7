-- ===== src/Execution.antt =====
-- services/execution-service/app: orders to the broker, and the record of them.
pub mod Executor
pub mod Trades
pub mod Reconciliation
pub mod Routes
pub mod Orders
pub mod Consumer
