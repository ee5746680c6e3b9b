-- ===== src/Macro/Codegen/Kind.antt =====
-- `Kind` of macros/src/codegen.rs: the contexts for which a prelude is generated.
use rtfm.Common.{Bool, true, false}
use rtfm.Macro.Syntax.{Ident}

pub data Kind : Type 0 where
  exception : Ident → Kind
  idle : Kind
  init : Kind
  interrupt : Ident → Kind
  task : Ident → Kind

unfoldable pub ident : Kind → Ident
ident Kind.init = "init"
ident Kind.idle = "idle"
ident (task name) = name
ident (interrupt name) = name
ident (exception name) = name

unfoldable pub is_idle : Kind → Bool
is_idle Kind.idle = true
is_idle kind = false

unfoldable pub is_init : Kind → Bool
is_init Kind.init = true
is_init kind = false

unfoldable pub runs_once : Kind → Bool
runs_once Kind.init = true
runs_once Kind.idle = true
runs_once kind = false
