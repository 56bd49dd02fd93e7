-- ===== src/FeatureService.antt =====
-- services/feature-service/app: from stored bars to feature rows.
pub mod Compute
pub mod Consumer
