-- ===== src/Calc/Precedence.antt =====
-- The parser reads what Print writes: precedence, grouping and parentheses are those of C.
pub mod Levels
pub mod Equations
pub mod Rules
pub mod Reads
