-- ===== src/Tests.antt =====
-- Small worlds, and runs of the code in them.
mod Fixtures
mod Turns
mod Edges
mod Threads
mod Worker
mod Context
mod Readers
mod Options
