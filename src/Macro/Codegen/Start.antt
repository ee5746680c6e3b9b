-- ===== src/Macro/Codegen/Start.antt =====
-- The end of the generated `init` function (`init` of macros/src/codegen.rs): the assignments that
-- the parser took from it, where those to late resources set the `MaybeUninit`.
use rtfm.Common.{Bool, false, List, [], ◌∷◌, Option, none, some, lookup, string_eq, if◌then◌else◌}
use rtfm.Macro.Syn.{Expr}
use rtfm.Macro.Syntax.{Ident, Assign, Resource, Resources}
use rtfm.Macro.Check.{is_none}

pub data Assignment : Type 0 where
  -- `unsafe { alias.set(expr); }`.
  set : Ident → Expr → Assignment
  -- `left = right;`.
  plain : Ident → Expr → Assignment

-- `.map(|r| r.expr.is_none()).unwrap_or(false)`.
abbrev pub is_late : Option Resource → Bool
is_late none = false
is_late (some r) = is_none r.expr

unfoldable pub assignment : Resources → Assign → Assignment
assignment resources a =
    if is_late (lookup a.left resources) then set a.left a.right else plain a.left a.right

unfoldable pub assignments : Resources → List Assign → List Assignment
unfolding assignment
assignments resources [] = []
assignments resources (a ∷ rest) = assignment resources a ∷ assignments resources rest
