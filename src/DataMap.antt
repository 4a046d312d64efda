-- ===== src/DataMap.antt =====
-- snippets/fs_operation_replacement/data_map.c: a hash table from pointers to pointers.
pub mod Table
pub mod WellFormed
pub mod Laws
pub mod Drain
mod Tests
