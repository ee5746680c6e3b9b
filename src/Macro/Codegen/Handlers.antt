-- ===== src/Macro/Codegen/Handlers.antt =====
-- `init`, `idle`, `exceptions`, `interrupts` and `tasks` of macros/src/codegen.rs: the contexts for
-- which a prelude is generated.
pub mod Complete
use rtfm.Common.{ℕ, ◌++◌, List, [], ◌∷◌, Bool, Outcome, ok, ◌>>=◌}
use rtfm.Macro.Syntax.{App, Ident, Idents, Exception, Interrupt, Task, of_idle}
use rtfm.Macro.Analyze.{Analysis}
use rtfm.Macro.Codegen.Kind.{Kind}
use rtfm.Macro.Codegen.Prelude.{Field, fields}

-- What the prelude of a function gives to it: the value that its priority cell starts with, and its
-- resources.
pub record Prelude : Type 0 where
  pub kind : Kind
  pub cell : ℕ
  pub resources : List Field

-- A `map` whose function may panic.
abbrev pub for_all : {A : Type 0} → (A → Outcome Prelude) → List A → Outcome (List Prelude)
for_all f [] = ok []
for_all f (x ∷ xs) = f x >>= λ p. for_all f xs >>= λ ps. ok (p ∷ ps)

module _ (debug : Bool) (app : App) (analysis : Analysis) where
  unfoldable pub prelude : Kind → Idents → ℕ → Outcome Prelude
  prelude kind resources logical_prio = do
    fs ← fields debug kind app logical_prio analysis resources
    ok (record { kind = kind; cell = logical_prio; resources = fs })

  unfoldable pub init : Outcome Prelude
  unfolding prelude
  init = prelude Kind.init app.init.args.resources 255

  unfoldable pub idle : Outcome (List Prelude)
  unfolding prelude
  idle =
      for_all (λ names. prelude Kind.idle names 0) (of_idle (λ i. i.args.resources ∷ []) app.idle)

  unfoldable pub exceptions : Outcome (List Prelude)
  unfolding prelude
  exceptions =
      for_all (λ e. prelude (Kind.exception e.0) e.1.args.resources e.1.args.priority)
        app.exceptions

  unfoldable pub interrupts : Outcome (List Prelude)
  unfolding prelude
  interrupts =
      for_all (λ i. prelude (Kind.interrupt i.0) i.1.args.resources i.1.args.priority)
        app.interrupts

  unfoldable pub tasks : Outcome (List Prelude)
  unfolding prelude
  tasks = for_all (λ t. prelude (Kind.task t.0) t.1.args.resources t.1.args.priority) app.tasks

  -- The preludes, in the order in which `app` generates them.
  unfoldable pub preludes : Outcome (List Prelude)
  unfolding init idle exceptions interrupts tasks
  preludes = do
    of_tasks ← tasks
    of_init ← init
    of_idle ← idle
    of_exceptions ← exceptions
    of_interrupts ← interrupts
    ok (of_tasks ++ of_init ∷ of_idle ++ of_exceptions ++ of_interrupts)
