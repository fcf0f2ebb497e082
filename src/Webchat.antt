-- ===== src/Webchat.antt =====
-- internal/usecase/webchat: the use cases, over the thread store, the lock, the floor and the flags.
pub mod Ports
pub mod Retryable
pub mod Checks
pub mod Turns
