-- ===== src/Jsonl.antt =====
-- internal/infrastructure/repository/jsonl: threads, locks and flags as files.
pub mod Rows
pub mod LineMap
pub mod Disk
pub mod Store
pub mod Lock
pub mod Interrupt
pub mod Floor
