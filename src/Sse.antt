-- ===== src/Sse.antt =====
-- internal/infrastructure/sse: the events of a thread for its readers.
pub mod Events
pub mod Streamer
pub mod Hub
