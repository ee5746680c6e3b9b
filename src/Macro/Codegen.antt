-- ===== src/Macro/Codegen.antt =====
-- What macros/src/codegen.rs decides about the code that it generates: the resources (Resources,
-- Prelude, Start), the priorities (PostInit) and the sizes and assertions (Sizes).
pub mod Kind
pub mod Resources
pub mod Prelude
pub mod Start
pub mod Exclusive
pub mod Statics
pub mod Late
pub mod PostInit
pub mod Handlers
pub mod Sizes
