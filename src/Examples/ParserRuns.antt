-- ===== src/Examples/ParserRuns.antt =====
-- The theorems on the parser at a small program.
use rtfm.Common.{◌≡◌, ◌≢◌, refl, true, false, List, [], ◌∷◌, none, some, String}
use rtfm.Macro.Result.{ok, panic}
use rtfm.Macro.Syn.{
  Attribute, outer, SynType, ReturnType, Expr, ItemStatic, Stmt, ItemFn, Item, item_fn, static_item,
}
use rtfm.Macro.Syntax.{App, AppArgs, TaskArgs}
use rtfm.Macro.Parse.Args.{
  parse_args, parse_task_args, parse_exception_args, parse_init_args, task_arg, task_value,
  parse_number, parse_list, parse_loop, collect_idents, give_list,
}
use rtfm.Macro.Parse.Body.{eq, is_unit, extract_statics, extract_assignments, assignments_loop}
use rtfm.Macro.Parse.Items.{
  parse_statics, check_init, check_exception, check_task, captured_inputs, check_resource,
  mark_singleton,
}
use rtfm.Macro.Parse.Program.{
  take_attr, parse_init, parse_exception, parse_task, parse_fn, parse_item, parse_items, parse,
}
use rtfm.Macro.Entry.{app, app-IsWellFormed}
use rtfm.Macro.Check.Sound.{IsWellFormed}
use rtfm.Macro.Analyze.{Analysis, analyze}
use rtfm.Common.{◌⊎◌}
use rtfm.Common
use rtfm.Macro.Result.{Error, err}
use rtfm.Macro.Parse.Extract.{Splits, extract_statics-Splits, extract_assignments-tail}
use rtfm.Macro.Parse.Arguments.{ArgsInRange, parse_args-ArgsInRange}
use rtfm.Macro.Parse.Fuel.{parse_args-ne-panic}
use rtfm.Macro.Parse.Names.{HandlersApart, parse-HandlersApart}
use rtfm.Examples.Parser.{scanner, sys_tick_tokens, blink_tokens}

abbrev a_fn : String → List Attribute → List Stmt → ItemFn
a_fn name attrs block = record {
  attrs = attrs;
  is_inherited = true;
  constness = false;
  asyncness = false;
  abi = false;
  ident = name;
  generic_params = false;
  where_clause = false;
  inputs = [];
  variadic = false;
  output = ReturnType.default_return;
  block = block;
}

abbrev set_to : String → String → Stmt
set_to name value = Stmt.semi (Expr.assign (Expr.path (name ∷ [])) (Expr.other_expr value))

abbrev counter : ItemStatic
counter = record {
  attrs = [];
  is_inherited = true;
  mutability = true;
  ident = "count";
  ty = SynType.other_type "u32";
  expr = Expr.tuple [];
}

abbrev prints : Stmt
prints = Stmt.other_stmt "println!()"

abbrev program : List Item
program =
    static_item counter
    ∷ item_fn (a_fn "init" (outer ("init" ∷ []) "" ∷ []) (prints ∷ set_to "count" "0" ∷ []))
    ∷ item_fn
        (a_fn "PendSV" (outer ("exception" ∷ []) "(priority = 2, resources = [count])" ∷ []) [])
    ∷ item_fn (a_fn "blink" (outer ("task" ∷ []) "(capacity = 3, spawn = [log,])" ∷ []) [])
    ∷ []

abbrev device_args : AppArgs
device_args = record { device = "stm32f103xx" ∷ [] }

abbrev parsed : App
parsed = record {
  args = device_args;
  idle = none;
  init = record {
    args = record { resources = []; schedule = []; spawn = [] };
    attrs = [];
    statics = [];
    stmts = prints ∷ [];
    assigns = record { left = "count"; right = Expr.other_expr "0" } ∷ [];
  };
  exceptions =
      (
        "PendSV",
        record {
          args = record { priority = 2; resources = "count" ∷ []; schedule = []; spawn = [] };
          attrs = [];
          statics = [];
          stmts = [];
        },
      )
      ∷ [];
  interrupts = [];
  resources =
      (
        "count",
        record {
          singleton = false;
          attrs = [];
          mutability = true;
          ty = SynType.other_type "u32";
          expr = none;
        },
      )
      ∷ [];
  tasks =
      (
        "blink",
        record {
          args = record {
            capacity = some 3;
            priority = 1;
            resources = [];
            spawn = "log" ∷ [];
            schedule = [];
          };
          attrs = [];
          inputs = [];
          statics = [];
          stmts = [];
        },
      )
      ∷ [];
  free_interrupts = [];
}

program_parses : parse scanner true program device_args ≡ ok parsed
unfolding parse parse_items parse_item parse_fn take_attr eq parse_init parse_exception parse_task
    parse_init_args parse_task_args parse_exception_args parse_args task_arg task_value parse_number
    parse_list parse_loop collect_idents give_list check_init check_exception check_task
    captured_inputs check_resource mark_singleton is_unit extract_statics extract_assignments
    assignments_loop parse_statics
program_parses = refl

app-IsWellFormed_example :
    ((e : Error) × (¬ (IsWellFormed parsed)) × (app scanner true false program device_args ≡ err e))
    ⊎ (IsWellFormed parsed
        × (a : Analysis) × (analyze false parsed ≡ Common.ok a)
        × (app scanner true false program device_args ≡ ok (parsed, a)))
app-IsWellFormed_example = app-IsWellFormed scanner true program device_args parsed program_parses

parse-HandlersApart_example : HandlersApart parsed.exceptions parsed.interrupts parsed.tasks
parse-HandlersApart_example =
    parse-HandlersApart scanner true program device_args parsed program_parses

abbrev blink_args : TaskArgs
blink_args = record {
  capacity = some 3;
  priority = 1;
  resources = [];
  spawn = "log" ∷ [];
  schedule = [];
}

args_parse : parse_args scanner true true blink_tokens ≡ ok (blink_args, [])
unfolding parse_args task_arg task_value parse_number parse_list parse_loop collect_idents give_list
args_parse = refl

parse_args-ArgsInRange_example : ArgsInRange true blink_args
parse_args-ArgsInRange_example =
    parse_args-ArgsInRange scanner true true blink_tokens [] blink_args args_parse

parse_args-ne-panic_example : parse_args scanner false true sys_tick_tokens ≢ panic
parse_args-ne-panic_example = parse_args-ne-panic scanner false true sys_tick_tokens

extract_statics-Splits_example :
    Splits
      (Stmt.item_static counter ∷ prints ∷ [])
      (extract_statics (Stmt.item_static counter ∷ prints ∷ []))
extract_statics-Splits_example = extract_statics-Splits (Stmt.item_static counter ∷ prints ∷ [])

-- The order of two assignments in `init` is turned around.
extract_assignments-tail_example :
    extract_assignments (prints ∷ set_to "a" "1" ∷ set_to "b" "a" ∷ []) ≡ (
      prints ∷ [],
      record { left = "b"; right = Expr.other_expr "a" }
          ∷ record { left = "a"; right = Expr.other_expr "1" }
          ∷ [],
    )
extract_assignments-tail_example =
    extract_assignments-tail (prints ∷ []) (set_to "a" "1" ∷ set_to "b" "a" ∷ []) refl
      (refl, (refl, tt))
