-- ===== src/Examples/Chatty.antt =====
-- An application whose ready queues all have the priority of the timer queue as their ceilings.
use rtfm.Common.{◌≤◌, [], ◌∷◌, none, some, ok, ◌≡◌, refl, sym, inl, inr, In, arith, true}
use rtfm.Macro.Syn.{SynType}
use rtfm.Macro.Syntax.{App, Ident, resource_accesses, spawn_calls, schedule_calls}
use rtfm.Macro.Analyze.{
  Analysis, analyze, ownerships, capacities, timer_queue, dispatchers, spawn_pass, schedule_pass,
  record_access, count_call, override_capacity, add8, queue_call, dispatch, entry, record_spawn,
  record_schedule,
}
use rtfm.Messages.Analysed.Build.{ready_ceiling_of, level_of}
use rtfm.Examples.Blinky.{blinky, blinky_analysis}

-- The other application, with a task `blink` that spawns `log` and itself: the ceilings of both ready
-- queues are then the priority of the timer queue.
abbrev pub chatty : App
chatty = record blinky {
  tasks =
      (
        "blink",
        record {
          args = record {
            capacity = none;
            priority = 3;
            resources = "pin" ∷ [];
            spawn = "blink" ∷ "log" ∷ [];
            schedule = "blink" ∷ [];
          };
          attrs = [];
          inputs = [];
          statics = [];
          stmts = [];
        },
      )
      ∷ (
        "log",
        record {
          args = record {
            capacity = some 4;
            priority = 1;
            resources = [];
            spawn = [];
            schedule = [];
          };
          attrs = [];
          inputs = ("code", SynType.other_type "u8") ∷ [];
          statics = [];
          stmts = [];
        },
      )
      ∷ [];
}

abbrev pub chatty_analysis : Analysis
chatty_analysis = record blinky_analysis {
  capacities = ("blink", 3) ∷ ("log", 4) ∷ [];
  dispatchers =
      (1, record { attrs = []; interrupt = "UART0"; tasks = "log" ∷ []; capacity = 4 })
      ∷ (3, record { attrs = []; interrupt = "UART1"; tasks = "blink" ∷ []; capacity = 3 })
      ∷ [];
  free_queues = ("blink", 3) ∷ ("log", 3) ∷ [];
  ready_queues = (1, 3) ∷ (3, 3) ∷ [];
  timer_queue = record { capacity = 10; ceiling = 3; priority = 3; tasks = "blink" ∷ "log" ∷ [] };
}

pub chatty_done : analyze true chatty ≡ ok chatty_analysis
unfolding analyze ownerships capacities timer_queue dispatchers spawn_pass schedule_pass
    resource_accesses spawn_calls schedule_calls record_access count_call override_capacity add8
    queue_call dispatch entry record_spawn record_schedule
chatty_done = refl

pub timer_locked :
    (t : Ident)
    → In t chatty_analysis.timer_queue.tasks
    → 3 ≤ ready_ceiling_of chatty chatty_analysis (level_of chatty chatty_analysis t)
timer_locked t (inl e) = rw (sym e) (omega arith)
timer_locked t (inr (inl e)) = rw (sym e) (omega arith)
timer_locked t (inr (inr e)) = absurd e
