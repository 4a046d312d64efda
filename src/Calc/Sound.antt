-- ===== src/Calc/Sound.antt =====
-- One induction over parse_data_parse: the objects that it allocates and frees, the trees that it
-- builds, the text that it reads, and when it can hit a BUG_ON.
pub mod Spec
pub mod Steps
pub mod Operands
pub mod Rounds
