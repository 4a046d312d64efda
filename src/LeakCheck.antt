-- ===== src/LeakCheck.antt =====
-- payload_modules/checkers/kedr_leak_check.old: the storage of allocations and bad frees in
-- mbi_ops.c and the replacement functions of payload.c.
pub mod Storage
pub mod Replace
pub mod Remove
pub mod Count
pub mod Pairs
mod Tests
