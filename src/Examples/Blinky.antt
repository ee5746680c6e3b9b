-- ===== src/Examples/Blinky.antt =====
-- An application: `idle` and the exception `PendSV` share `count`, the tasks `log` and `blink`
-- have their own resources, and messages go from `init`, `PendSV` and `blink`.
use rtfm.Common.{Bool, true, false, List, [], ◌∷◌, none, some, ok, ◌≡◌, refl}
use rtfm.Macro.Syn.{Attribute, SynType, Expr}
use rtfm.Macro.Syntax.{App, Resource, resource_accesses, spawn_calls, schedule_calls}
use rtfm.Macro.Result.{Result}
use rtfm.Macro.Analyze.{
  Analysis, owned, shared, analyze, ownerships, capacities, timer_queue, dispatchers, spawn_pass,
  schedule_pass, record_access, count_call, override_capacity, add8, queue_call, dispatch, entry,
  record_spawn, record_schedule,
}
use rtfm.Macro.Check.{
  check, check_declared, check_not_late, check_initialized, check_tasks, check_dispatchers,
  check_interrupts,
}
use rtfm.Macro.Check.Sound.{IsWellFormed}
use rtfm.Macro.Check.Decides.{check-IsWellFormed}

abbrev no_attrs : List Attribute
no_attrs = []

abbrev resource_of : Bool → Resource
resource_of mutability = record {
  singleton = false;
  attrs = no_attrs;
  mutability = mutability;
  ty = SynType.other_type "u32";
  expr = some (Expr.other_expr "0");
}

abbrev pub blinky : App
blinky = record {
  args = record { device = "stm32f103xx" ∷ [] };
  idle = some (record {
    args = record { resources = "count" ∷ []; schedule = []; spawn = "log" ∷ [] };
    attrs = no_attrs;
    statics = [];
    stmts = [];
  });
  init = record {
    args = record { resources = "count" ∷ []; schedule = "blink" ∷ []; spawn = [] };
    attrs = no_attrs;
    statics = [];
    stmts = [];
    assigns = [];
  };
  exceptions =
      (
        "PendSV",
        record {
          args = record {
            priority = 2;
            resources = "count" ∷ [];
            schedule = "log" ∷ [];
            spawn = "log" ∷ [];
          };
          attrs = no_attrs;
          statics = [];
          stmts = [];
        },
      )
      ∷ [];
  interrupts = [];
  resources = ("count", resource_of true) ∷ ("pin", resource_of true) ∷ [];
  tasks =
      (
        "blink",
        record {
          args = record {
            capacity = none;
            priority = 3;
            resources = "pin" ∷ [];
            spawn = [];
            schedule = "blink" ∷ [];
          };
          attrs = no_attrs;
          inputs = [];
          statics = [];
          stmts = [];
        },
      )
      ∷ (
        "log",
        record {
          args = record {
            capacity = some 4;
            priority = 1;
            resources = [];
            spawn = [];
            schedule = [];
          };
          attrs = no_attrs;
          inputs = ("code", SynType.other_type "u8") ∷ [];
          statics = [];
          stmts = [];
        },
      )
      ∷ [];
  free_interrupts =
      ("UART0", record { attrs = no_attrs }) ∷ ("UART1", record { attrs = no_attrs }) ∷ [];
}

abbrev pub blinky_analysis : Analysis
blinky_analysis = record {
  capacities = ("blink", 2) ∷ ("log", 4) ∷ [];
  dispatchers =
      (1, record { attrs = no_attrs; interrupt = "UART0"; tasks = "log" ∷ []; capacity = 4 })
      ∷ (3, record { attrs = no_attrs; interrupt = "UART1"; tasks = "blink" ∷ []; capacity = 2 })
      ∷ [];
  free_queues = ("blink", 3) ∷ ("log", 2) ∷ [];
  needs_send = "blink" ∷ "log" ∷ [];
  needs_sync = [];
  ownerships = ("count", shared 2) ∷ ("pin", owned 3) ∷ [];
  ready_queues = (1, 2) ∷ (3, 0) ∷ [];
  timer_queue = record { capacity = 8; ceiling = 3; priority = 3; tasks = "blink" ∷ "log" ∷ [] };
}

-- What the analysis computes for the application.
pub blinky_done : (debug : Bool) → analyze debug blinky ≡ ok blinky_analysis
unfolding analyze ownerships capacities timer_queue dispatchers spawn_pass schedule_pass
    resource_accesses spawn_calls schedule_calls record_access count_call override_capacity add8
    queue_call dispatch entry record_spawn record_schedule
blinky_done true = refl
blinky_done false = refl

-- The application passes the check.
pub blinky_passes : check blinky ≡ Result.ok tt
unfolding check check_declared check_not_late check_initialized check_tasks check_dispatchers
    check_interrupts
blinky_passes = refl

pub blinky-IsWellFormed : IsWellFormed blinky
blinky-IsWellFormed = (check-IsWellFormed blinky).0 blinky_passes
