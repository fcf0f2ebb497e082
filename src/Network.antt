-- ===== src/Network.antt =====
-- internal/infrastructure/network: limits at the edge.
pub mod Limiter
