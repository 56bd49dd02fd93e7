-- ===== src/DataService.antt =====
-- services/data-service/app: closed bars from MetaTrader 5 to the database and the stream.
pub mod Ingest
pub mod Backfill
