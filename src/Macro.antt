-- ===== src/Macro.antt =====
-- The procedural macro: the files under macros/src/.
pub mod Syn
pub mod Syntax
pub mod Result
pub mod Check
pub mod Analyze
pub mod Parse
pub mod Codegen
pub mod Entry
