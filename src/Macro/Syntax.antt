-- ===== src/Macro/Syntax.antt =====
-- The specification of an application, `App` of macros/src/syntax.rs, with its iterators. A set is
-- a list without repetition, in its order of iteration.
use rtfm.Common.{
  ℕ, String, List, [], ◌∷◌, ◌++◌, map, flat_map, Bool, Option, none, some, HashMap, values,
}
use rtfm.Macro.Syn.{Attribute, SynType, Expr, ItemStatic, Stmt}

abbrev pub Ident : Type 0
Ident = String

abbrev pub Idents : Type 0
Idents = List Ident

pub record AppArgs : Type 0 where
  pub device : List Ident

pub record Static : Type 0 where
  pub attrs : List Attribute
  pub ty : SynType
  pub expr : Expr

abbrev pub Statics : Type 0
Statics = List ItemStatic

pub record InitArgs : Type 0 where
  pub resources : Idents
  pub schedule : Idents
  pub spawn : Idents

abbrev pub IdleArgs : Type 0
IdleArgs = InitArgs

pub record Idle : Type 0 where
  pub args : IdleArgs
  pub attrs : List Attribute
  pub statics : HashMap Ident Static
  pub stmts : List Stmt

pub record Assign : Type 0 where
  pub left : Ident
  pub right : Expr

pub record Init : Type 0 where
  pub args : InitArgs
  pub attrs : List Attribute
  pub statics : HashMap Ident Static
  pub stmts : List Stmt
  pub assigns : List Assign

pub record ExceptionArgs : Type 0 where
  pub priority : ℕ
  pub resources : Idents
  pub schedule : Idents
  pub spawn : Idents

pub record Exception : Type 0 where
  pub args : ExceptionArgs
  pub attrs : List Attribute
  pub statics : Statics
  pub stmts : List Stmt

abbrev pub InterruptArgs : Type 0
InterruptArgs = ExceptionArgs

pub record Interrupt : Type 0 where
  pub args : InterruptArgs
  pub attrs : List Attribute
  pub statics : Statics
  pub stmts : List Stmt

pub record Resource : Type 0 where
  pub singleton : Bool
  pub attrs : List Attribute
  pub mutability : Bool
  pub ty : SynType
  pub expr : Option Expr

pub record TaskArgs : Type 0 where
  pub capacity : Option ℕ
  pub priority : ℕ
  pub resources : Idents
  pub spawn : Idents
  pub schedule : Idents

pub record Task : Type 0 where
  pub args : TaskArgs
  pub attrs : List Attribute
  pub inputs : List (Ident × SynType)
  pub statics : HashMap Ident Static
  pub stmts : List Stmt

pub record FreeInterrupt : Type 0 where
  pub attrs : List Attribute

abbrev pub Exceptions : Type 0
Exceptions = HashMap Ident Exception

abbrev pub Interrupts : Type 0
Interrupts = HashMap Ident Interrupt

abbrev pub Resources : Type 0
Resources = HashMap Ident Resource

abbrev pub Tasks : Type 0
Tasks = HashMap Ident Task

abbrev pub FreeInterrupts : Type 0
FreeInterrupts = HashMap Ident FreeInterrupt

pub record App : Type 0 where
  pub args : AppArgs
  pub idle : Option Idle
  pub init : Init
  pub exceptions : Exceptions
  pub interrupts : Interrupts
  pub resources : Resources
  pub tasks : Tasks
  pub free_interrupts : FreeInterrupts

-- `idle.as_ref().map(..).unwrap_or_else(empty)`.
abbrev pub of_idle : {A : Type 0} → (Idle → List A) → Option Idle → List A
of_idle f none = []
of_idle f (some idle) = f idle

-- A list of names, each with the priority at which it is used.
abbrev pub at_priority : {P : Type 0} → P → Idents → List (P × Ident)
at_priority p names = map (λ name. (p, name)) names

unfoldable pub resource_accesses : App → List (ℕ × Ident)
resource_accesses app =
    of_idle (λ idle. at_priority 0 idle.args.resources) app.idle
    ++ (flat_map (λ e. at_priority e.args.priority e.args.resources) (values app.exceptions)
        ++ (flat_map (λ i. at_priority i.args.priority i.args.resources) (values app.interrupts)
            ++ flat_map (λ t. at_priority t.args.priority t.args.resources) (values app.tasks)))

-- `none` is a call from `init`.
unfoldable pub spawn_calls : App → List (Option ℕ × Ident)
spawn_calls app =
    at_priority none app.init.args.spawn
    ++ (of_idle (λ idle. at_priority (some 0) idle.args.spawn) app.idle
        ++ (flat_map (λ e. at_priority (some e.args.priority) e.args.spawn) (values app.exceptions)
            ++ (flat_map (λ i. at_priority (some i.args.priority) i.args.spawn)
                  (values app.interrupts)
                ++ flat_map (λ t. at_priority (some t.args.priority) t.args.spawn)
                    (values app.tasks))))

unfoldable pub schedule_calls : App → List (Option ℕ × Ident)
schedule_calls app =
    at_priority none app.init.args.schedule
    ++ (of_idle (λ idle. at_priority (some 0) idle.args.schedule) app.idle
        ++ (flat_map (λ e. at_priority (some e.args.priority) e.args.schedule)
              (values app.exceptions)
            ++ (flat_map (λ i. at_priority (some i.args.priority) i.args.schedule)
                  (values app.interrupts)
                ++ flat_map (λ t. at_priority (some t.args.priority) t.args.schedule)
                    (values app.tasks))))

abbrev pub named_args : {V : Type 0} → (V → Idents) → HashMap Ident V → List (Ident × Idents)
named_args f m = map (λ e. (e.0, f e.1)) m

unfoldable pub schedule_callers : App → List (Ident × Idents)
schedule_callers app =
    of_idle (λ idle. ("idle", idle.args.schedule) ∷ []) app.idle
    ++ (("init", app.init.args.schedule)
        ∷ (named_args (λ e. e.args.schedule) app.exceptions
            ++ (named_args (λ i. i.args.schedule) app.interrupts
                ++ named_args (λ t. t.args.schedule) app.tasks)))

unfoldable pub spawn_callers : App → List (Ident × Idents)
spawn_callers app =
    of_idle (λ idle. ("idle", idle.args.spawn) ∷ []) app.idle
    ++ (("init", app.init.args.spawn)
        ∷ (named_args (λ e. e.args.spawn) app.exceptions
            ++ (named_args (λ i. i.args.spawn) app.interrupts
                ++ named_args (λ t. t.args.spawn) app.tasks)))
