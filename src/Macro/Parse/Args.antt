-- ===== src/Macro/Parse/Args.antt =====
-- The arguments of attributes: `AppArgs::parse`, `InitArgs::parse`, `ExceptionArgs::parse`,
-- `TaskArgs::parse` and `parse_args` of macros/src/syntax.rs. `timer_queue` is the feature. A loop
-- gets as fuel a number above the tokens left, so that it never runs out.
use rtfm.Common.{
  ℕ, zero, suc, Bool, true, false, not, ◌&&◌, ◌||◌, List, [], ◌∷◌, ◌++◌, Option, none, some,
  contains, string_eq, ◌==◌, ltb, eqb, if◌then◌else◌,
}
use rtfm.Macro.Result.{
  Result, ok, err, panic, ◌>>=◌, ◌>>◌, ensure, argument_repeated, element_repeated, unexpected_key,
  timer_queue_required, must_be_unsuffixed, out_of_range, argument_missing,
}
use rtfm.Macro.Syntax.{AppArgs, InitArgs, ExceptionArgs, TaskArgs, Ident, Idents}
use rtfm.Macro.Check.{is_none}
use rtfm.Macro.Parse.Tokens.{ParseStream}

abbrev pub unwrap_or : {A : Type 0} → A → Option A → A
unwrap_or d none = d
unwrap_or d (some a) = a

-- The loop that collects the names of a list into a set.
unfoldable pub collect_idents : List Ident → Idents → Result Idents
collect_idents [] idents = ok idents
collect_idents (ident ∷ rest) idents = do
  ensure (not (contains idents ident)) (element_repeated ident)
  collect_idents rest (idents ++ ident ∷ [])

-- `capacity`, `priority`, `resources`, `schedule` and `spawn` while the loop runs.
pub record Given : Type 0 where
  pub capacity : Option ℕ
  pub priority : Option ℕ
  pub resources : Option Idents
  pub schedule : Option Idents
  pub spawn : Option Idents

abbrev pub nothing_given : Given
nothing_given = record {
  capacity = none;
  priority = none;
  resources = none;
  schedule = none;
  spawn = none;
}

-- `if x.is_some() { return Err(..) } x = Some(idents)` for the list named `ident`.
unfoldable pub give_list : Ident → Idents → Given → Result Given
give_list ident idents given =
    if ident == "resources"
    then (ensure (is_none given.resources) (argument_repeated ident)
        >> ok (record given { resources = some idents }))
    else if ident == "schedule"
    then (ensure (is_none given.schedule) (argument_repeated ident)
        >> ok (record given { schedule = some idents }))
    else (ensure (is_none given.spawn) (argument_repeated ident)
        >> ok (record given { spawn = some idents }))

abbrev pub is_list_key : Ident → Bool
is_list_key ident = (ident == "resources") || (ident == "schedule") || (ident == "spawn")

abbrev pub init_args_of : Given → InitArgs
init_args_of given = record {
  resources = unwrap_or [] given.resources;
  schedule = unwrap_or [] given.schedule;
  spawn = unwrap_or [] given.spawn;
}

abbrev pub task_args_of : Given → TaskArgs
task_args_of given = record {
  capacity = given.capacity;
  priority = unwrap_or 1 given.priority;
  resources = unwrap_or [] given.resources;
  spawn = unwrap_or [] given.spawn;
  schedule = unwrap_or [] given.schedule;
}

module _ (P : ParseStream) (timer_queue : Bool) where
  open P use {
    Stream, is_empty, size, parse_ident, parse_eq, parse_comma, parse_lit_int, parse_path,
    parenthesized, bracketed, parse_terminated,
  }

  -- The value of `capacity` or `priority`: unsuffixed, and not above 255.
  unfoldable pub parse_number : Bool → Stream → Result (ℕ × Stream)
  parse_number zero_allowed content = do
    ((value, unsuffixed), content') ← parse_lit_int content
    ensure unsuffixed must_be_unsuffixed
    ensure (not (ltb 255 value || (eqb value 0 && not zero_allowed))) out_of_range
    ok (value, content')

  -- `.. [#(#idents)*]`.
  unfoldable pub parse_list : Stream → Result (Idents × Stream)
  unfolding collect_idents
  parse_list content = do
    (inner, content') ← bracketed content
    names ← parse_terminated inner
    idents ← collect_idents names []
    ok (idents, content')

  -- One argument of `InitArgs`, from its name to the end of its list.
  unfoldable pub init_arg : Given → Stream → Result (Given × Stream)
  unfolding parse_list give_list
  init_arg given content = do
    (ident, content₁) ← parse_ident content
    (_, content₂) ← parse_eq content₁
    if (ident == "schedule") && not timer_queue
        then err (timer_queue_required ident)
        else if is_list_key ident
        then (do
          (idents, content₃) ← parse_list content₂
          given' ← give_list ident idents given
          ok (given', content₃))
        else err (unexpected_key ident)

  -- What `parse_args` does with the value of the argument `ident`.
  unfoldable pub task_value : Bool → Given → Ident → Stream → Result (Given × Stream)
  unfolding parse_number parse_list give_list
  task_value accept_capacity given ident content =
      if (ident == "capacity") && accept_capacity
      then (do
        (value, content') ← parse_number false content
        ok (record given { capacity = some value }, content'))
      else if ident == "priority"
      then (do
        (value, content') ← parse_number true content
        ok (record given { priority = some value }, content'))
      else if (ident == "schedule") && not timer_queue
      then err (timer_queue_required ident)
      else if is_list_key ident
      then (do
        (idents, content') ← parse_list content
        given' ← give_list ident idents given
        ok (given', content'))
      else err (unexpected_key ident)

  -- One argument of `parse_args`.
  unfoldable pub task_arg : Bool → Given → Stream → Result (Given × Stream)
  unfolding task_value
  task_arg accept_capacity given content = do
    (ident, content₁) ← parse_ident content
    (_, content₂) ← parse_eq content₁
    task_value accept_capacity given ident content₂

  -- The `loop` over the arguments, with the comma between them. A panic stands for no fuel.
  unfoldable pub parse_loop :
      {G : Type 0} → (G → Stream → Result (G × Stream)) → ℕ → G → Stream → Result G
  parse_loop arg zero given content = panic
  parse_loop arg (suc fuel) given content =
      if is_empty content
      then ok given
      else (arg given content >>= λ x.
          if is_empty x.1 then ok x.0 else (parse_comma x.1 >>= λ y. parse_loop arg fuel x.0 y.1))

  unfoldable pub parse_init_args : Stream → Result (InitArgs × Stream)
  unfolding init_arg parse_loop
  parse_init_args input = if is_empty input then ok (init_args_of nothing_given, input) else (do
    (content, rest) ← parenthesized input
    given ← parse_loop init_arg (suc (size content)) nothing_given content
    ok (init_args_of given, rest))

  unfoldable pub parse_args : Bool → Stream → Result (TaskArgs × Stream)
  unfolding task_arg parse_loop
  parse_args accept_capacity input =
      if is_empty input then ok (task_args_of nothing_given, input) else (do
        (content, rest) ← parenthesized input
        given ← parse_loop (task_arg accept_capacity) (suc (size content)) nothing_given content
        ok (task_args_of given, rest))

  unfoldable pub parse_task_args : Stream → Result (TaskArgs × Stream)
  parse_task_args input = parse_args true input

  unfoldable pub parse_exception_args : Stream → Result (ExceptionArgs × Stream)
  parse_exception_args input = parse_args false input >>= λ x. ok (
    record {
      priority = x.0.priority;
      resources = x.0.resources;
      schedule = x.0.schedule;
      spawn = x.0.spawn;
    },
    x.1,
  )

  unfoldable pub app_arg : Option (List Ident) → Stream → Result (Option (List Ident) × Stream)
  app_arg device input = do
    (ident, input₁) ← parse_ident input
    (_, input₂) ← parse_eq input₁
    if ident == "device"
        then (do
          ensure (is_none device) (argument_repeated ident)
          (path, input₃) ← parse_path input₂
          ok (some path, input₃))
        else err (unexpected_key ident)

  abbrev device_of : Option (List Ident) → Result AppArgs
  device_of none = err (argument_missing "device")
  device_of (some path) = ok (record { device = path })

  unfoldable pub parse_app_args : Stream → Result AppArgs
  unfolding app_arg parse_loop
  parse_app_args input = parse_loop app_arg (suc (size input)) none input >>= device_of
