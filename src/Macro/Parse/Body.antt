-- ===== src/Macro/Parse/Body.antt =====
-- What macros/src/syntax.rs takes out of a function: `eq`, `extract_statics`,
-- `extract_assignments`, `is_bottom` and `is_unit`.
use rtfm.Common.{Bool, true, false, List, [], ◌∷◌, reverse, String, string_eq, ◌==◌, if◌then◌else◌}
use rtfm.Macro.Syn.{
  Attribute, outer, never, tuple_type, ReturnType, default_return, returns, path, assign, Stmt,
  item_static, semi,
}
use rtfm.Macro.Syntax.{Statics, Assign}

abbrev pub is_nil : {A : Type 0} → List A → Bool
is_nil [] = true
is_nil (x ∷ xs) = false

unfoldable pub eq : Attribute → String → Bool
eq (outer (segment ∷ []) tts) name = segment == name
eq attr name = false

unfoldable pub is_bottom : ReturnType → Bool
is_bottom (returns never) = true
is_bottom ty = false

unfoldable pub is_unit : ReturnType → Bool
is_unit default_return = true
is_unit (returns (tuple_type elems)) = is_nil elems
is_unit (returns ty) = false

-- The loop leaves at the first statement that is no `static mut`, and the rest is kept.
unfoldable pub extract_statics : List Stmt → Statics × List Stmt
extract_statics [] = ([], [])
extract_statics (item_static var ∷ istmts) =
    let rest = extract_statics istmts in
    if var.mutability then (var ∷ rest.0, rest.1) else ([], item_static var ∷ istmts)
extract_statics (stmt ∷ istmts) = ([], stmt ∷ istmts)

-- The loop over the reversed statements: what it pushes to `stmts`, followed by the statements
-- behind the one at which it leaves, and what it pushes to `assigns`.
unfoldable pub assignments_loop : List Stmt → List Stmt × List Assign
assignments_loop [] = ([], [])
assignments_loop (semi (assign (path (ident ∷ [])) right) ∷ istmts) =
    let rest = assignments_loop istmts in (rest.0, record { left = ident; right = right } ∷ rest.1)
assignments_loop (semi (assign left right) ∷ istmts) =
    let rest = assignments_loop istmts in (semi (assign left right) ∷ rest.0, rest.1)
assignments_loop (stmt ∷ istmts) = (stmt ∷ istmts, [])

unfoldable pub extract_assignments : List Stmt → List Stmt × List Assign
unfolding assignments_loop
extract_assignments stmts = let rest = assignments_loop (reverse stmts) in (reverse rest.0, rest.1)
