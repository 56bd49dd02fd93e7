-- ===== src/Gateway.antt =====
-- services/api-gateway/app: the public edge.
pub mod Limiter
pub mod Http
pub mod Auth
pub mod Proxy
pub mod App
