-- ===== src/Macro/Parse/Program.antt =====
-- `App::parse` of macros/src/syntax.rs.
use rtfm.Common.{
  Bool, not, ◌||◌, List, [], ◌∷◌, Option, none, some, String, string_eq, contains_key, insert,
  if◌then◌else◌,
}
use rtfm.Macro.Result.{
  Result, ok, err, ◌>>=◌, ◌>>◌, ensure, expect, must_appear_once, defined_multiple_times,
  must_live_outside, listed_twice, extern_at_most_once,
}
use rtfm.Macro.Syn.{
  Attribute, outer, other_attribute, ItemFn, Item, item_fn, static_item, foreign_mod, other_item,
}
use rtfm.Macro.Syntax.{
  App, AppArgs, Init, Idle, Exceptions, Interrupts, Resources, Tasks, FreeInterrupts, Ident,
}
use rtfm.Macro.Check.{is_none}
use rtfm.Macro.Parse.Tokens.{ParseStream}
use rtfm.Macro.Parse.Args.{unwrap_or, parse_init_args, parse_task_args, parse_exception_args}
use rtfm.Macro.Parse.Body.{eq}
use rtfm.Macro.Parse.Items.{
  check_idle, check_init, check_exception, check_interrupt, check_resource, check_task,
  parse_free_interrupts,
}

-- A list that is not empty, as what is before its last entry and that entry.
abbrev split_last : {A : Type 0} → A → List A → List A × A
split_last x [] = ([], x)
split_last x (y ∷ ys) = let rest = split_last y ys in (x ∷ rest.0, rest.1)

-- The rest of a list from which the first entry is taken by `swap_remove`: the last entry, if there
-- is one, takes its place.
abbrev pub last_first : {A : Type 0} → List A → List A
last_first [] = []
last_first (x ∷ xs) = let split = split_last x xs in split.1 ∷ split.0

abbrev tts : Attribute → String
tts (outer segments t) = t
tts (other_attribute t) = t

-- `iter().position(..)` with `swap_remove(pos)`: the tokens of the first attribute of the name, and
-- the attributes that are left.
unfoldable pub take_attr : String → List Attribute → Option (String × List Attribute)
unfolding eq
take_attr name [] = none
take_attr name (attr ∷ attrs) =
    if eq attr name
    then some (tts attr, last_first attrs)
    else elim (take_attr name attrs) [ none ↦ none | some x ↦ some (x.0, attr ∷ x.1) ]

-- The variables of the loop.
pub record Parsed : Type 0 where
  pub idle : Option Idle
  pub init : Option Init
  pub exceptions : Exceptions
  pub interrupts : Interrupts
  pub resources : Resources
  pub tasks : Tasks
  pub free_interrupts : Option FreeInterrupts

abbrev pub nothing_parsed : Parsed
nothing_parsed = record {
  idle = none;
  init = none;
  exceptions = [];
  interrupts = [];
  resources = [];
  tasks = [];
  free_interrupts = none;
}

-- The name belongs to a handler that was parsed before.
abbrev pub is_defined : Ident → Parsed → Bool
is_defined ident s =
    contains_key ident s.exceptions || contains_key ident s.interrupts || contains_key ident s.tasks

-- `app.insert(..)` for the item that is left when its attribute is taken away.
abbrev pub without : ItemFn → List Attribute → ItemFn
without item attrs = record item { attrs = attrs }

module _ (P : ParseStream) (timer_queue : Bool) where
  unfoldable pub parse_idle : ItemFn → String × List Attribute → Parsed → Result Parsed
  unfolding check_idle parse_init_args
  parse_idle item (text, attrs) s = do
    ensure (is_none s.idle) (must_appear_once "idle")
    args ← P.parse2 (parse_init_args P timer_queue) text
    idle ← check_idle args (without item attrs)
    ok (record s { idle = some idle })

  unfoldable pub parse_init : ItemFn → String × List Attribute → Parsed → Result Parsed
  unfolding check_init parse_init_args
  parse_init item (text, attrs) s = do
    ensure (is_none s.init) (must_appear_once "init")
    args ← P.parse2 (parse_init_args P timer_queue) text
    init ← check_init args (without item attrs)
    ok (record s { init = some init })

  unfoldable pub parse_exception : ItemFn → String × List Attribute → Parsed → Result Parsed
  unfolding check_exception parse_exception_args
  parse_exception item (text, attrs) s = do
    ensure (not (is_defined item.ident s)) (defined_multiple_times item.ident)
    args ← P.parse2 (parse_exception_args P timer_queue) text
    exception ← check_exception args (without item attrs)
    ok (record s { exceptions = insert item.ident exception s.exceptions })

  unfoldable pub parse_interrupt : ItemFn → String × List Attribute → Parsed → Result Parsed
  unfolding check_interrupt parse_exception_args
  parse_interrupt item (text, attrs) s = do
    ensure (not (is_defined item.ident s)) (defined_multiple_times item.ident)
    args ← P.parse2 (parse_exception_args P timer_queue) text
    interrupt ← check_interrupt args (without item attrs)
    ok (record s { interrupts = insert item.ident interrupt s.interrupts })

  unfoldable pub parse_task : ItemFn → String × List Attribute → Parsed → Result Parsed
  unfolding check_task parse_task_args
  parse_task item (text, attrs) s = do
    ensure (not (is_defined item.ident s)) (defined_multiple_times item.ident)
    args ← P.parse2 (parse_task_args P timer_queue) text
    task ← check_task args (without item attrs)
    ok (record s { tasks = insert item.ident task s.tasks })

  -- The chain of `if let`s: the first kind whose attribute the function has.
  unfoldable pub parse_fn : ItemFn → Parsed → Result Parsed
  unfolding take_attr parse_idle parse_init parse_exception parse_interrupt parse_task
  parse_fn item s = elim (take_attr "idle" item.attrs) [
    | some x ↦ parse_idle item x s
    | none ↦ elim (take_attr "init" item.attrs) [
      | some x ↦ parse_init item x s
      | none ↦ elim (take_attr "exception" item.attrs) [
        | some x ↦ parse_exception item x s
        | none ↦ elim (take_attr "interrupt" item.attrs) [
          | some x ↦ parse_interrupt item x s
          | none ↦ elim (take_attr "task" item.attrs) [
            | some x ↦ parse_task item x s
            | none ↦ err (must_live_outside item.ident)
          ]
        ]
      ]
    ]
  ]

  -- One round of the loop.
  unfoldable pub parse_item : Item → Parsed → Result Parsed
  unfolding parse_fn check_resource parse_free_interrupts
  parse_item (item_fn item) s = parse_fn item s
  parse_item (static_item item) s = do
    ensure (not (contains_key item.ident s.resources)) (listed_twice item.ident)
    resource ← check_resource item
    ok (record s { resources = insert item.ident resource s.resources })
  parse_item (foreign_mod items) s = do
    ensure (is_none s.free_interrupts) extern_at_most_once
    free ← parse_free_interrupts items []
    ok (record s { free_interrupts = some free })
  parse_item (other_item text) s = err (must_live_outside text)

  unfoldable pub parse_items : List Item → Parsed → Result Parsed
  unfolding parse_item
  parse_items [] s = ok s
  parse_items (item ∷ items) s = parse_item item s >>= λ s'. parse_items items s'

  unfoldable pub parse : List Item → AppArgs → Result App
  unfolding parse_items
  parse items args = do
    s ← parse_items items nothing_parsed
    init ← expect s.init
    ok (record {
      args = args;
      idle = s.idle;
      init = init;
      exceptions = s.exceptions;
      interrupts = s.interrupts;
      resources = s.resources;
      tasks = s.tasks;
      free_interrupts = unwrap_or [] s.free_interrupts;
    })
