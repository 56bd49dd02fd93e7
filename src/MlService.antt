-- ===== src/MlService.antt =====
-- services/ml-service/app: the cached outputs of the models.
pub mod Worker
