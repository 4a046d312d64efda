-- ===== src/Mist.antt =====
-- The template engine snippets/code_generation/mist_gen.simple/src/mist_engine/src: its strings,
-- its growing arrays and its string maps.
pub mod Find
pub mod Names
pub mod Escaped
pub mod Strings
pub mod Keys
pub mod Array
pub mod Map
mod Tests
