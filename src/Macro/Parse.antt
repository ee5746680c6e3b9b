-- ===== src/Macro/Parse.antt =====
-- The parser of macros/src/syntax.rs.
pub mod Tokens
pub mod Args
pub mod Body
pub mod Items
pub mod Program
pub mod Extract
pub mod Arguments
pub mod Names
pub mod Fuel
