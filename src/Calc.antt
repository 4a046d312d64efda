-- ===== src/Calc.antt =====
-- snippets/fault_indicator_examples/caller_addresses_list/calculator.c: the evaluator of
-- expressions for fault indicators.
pub mod Essence
pub mod Env
pub mod Lex
pub mod Priority
pub mod Run
pub mod Parse
pub mod Eval
pub mod Tokens
pub mod Sound
pub mod Correct
pub mod Traps
pub mod Names
pub mod Print
pub mod Precedence
pub mod RoundTrip
pub mod MissingColon
mod Tests
