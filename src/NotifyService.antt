-- ===== src/NotifyService.antt =====
-- services/notify-service/app: the life of a signal, recorded and announced.
pub mod Telegram
pub mod Consumer
