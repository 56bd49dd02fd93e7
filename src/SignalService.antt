-- ===== src/SignalService.antt =====
-- services/signal-service/app: the confluence gates, and the signals that they let through.
pub mod Engine
pub mod Features
pub mod Consumer
