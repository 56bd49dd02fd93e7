-- ===== src/RiskService.antt =====
-- services/risk-service/app: the gates between a signal and an order.
pub mod Exposure
pub mod Validator
pub mod Consumer
pub mod Handler
pub mod Gates
pub mod Safety
pub mod Positions
pub mod Outcome
