-- ===== src/Config.antt =====
-- internal/config: the words that settings and requests may use, and how settings are merged.
pub mod Effort
