-- ===== src/Messages/Analysed.antt =====
-- The layout of an application that the macro has analysed.
pub mod Dispatchers
pub mod Timer
pub mod Build
pub mod Producers
use rtfm.Common.{ℕ, ◌+◌, HashMap, lookup, string_eq, none, some}
use rtfm.Macro.Syntax.{App, Ident}

-- The capacity of a task in the analysis' table.
abbrev pub capacity_in : HashMap Ident ℕ → Ident → ℕ
capacity_in caps t = elim (lookup t caps) [ none ↦ 0 | some c ↦ c ]
