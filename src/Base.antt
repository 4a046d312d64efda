-- ===== src/Base.antt =====
-- snippets/load_controller_on_boot/kedr_standalone/base.c: the registry of payload modules and of
-- the controller.
pub mod Table
pub mod Registry
pub mod Concat
pub mod Invariant
pub mod Balance
pub mod Session
pub mod Cleanup
mod Tests
