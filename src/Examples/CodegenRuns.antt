-- ===== src/Examples/CodegenRuns.antt =====
-- The theorems on the generated preludes, at the example application and at one with a late
-- resource.
use rtfm.Common.{
  List, map, ℕ, ◌≡◌, refl, inl, inr, true, false, [], ◌∷◌, none, some, ok, In, string_eq, nat_eq,
}
use rtfm.Macro.Result
use rtfm.Macro.Syn.{SynType, Expr}
use rtfm.Macro.Syntax.{App, Resource, resource_accesses}
use rtfm.Macro.Check.{
  check, check_declared, check_not_late, check_initialized, check_tasks, check_dispatchers,
  check_interrupts,
}
use rtfm.Macro.Check.Decides.{check-IsWellFormed}
use rtfm.Macro.Analyze.{Analysis, needs_lock, owned}
use rtfm.Macro.Codegen.Kind.{Kind, is_init, runs_once}
use rtfm.Macro.Codegen.Prelude.{Field, field, direct_field, static_expr, get_mut}
use rtfm.Macro.Codegen.Resources.{resources}
use rtfm.Macro.Codegen.Start.{assignments}
use rtfm.Macro.Codegen.Exclusive.{is_exclusive, direct_access_exclusive}
use rtfm.Macro.Codegen.Statics.{IsInitialized, run_assignments, late_statics}
use rtfm.Macro.Codegen.Late.{late-IsInitialized}
use rtfm.Macro.Codegen.Handlers.{Prelude, preludes}
use rtfm.Macro.Codegen.Handlers.Complete.{key, contexts, preludes_total}
use rtfm.Examples.Blinky.{blinky-IsWellFormed, blinky, blinky_analysis, blinky_done}

abbrev on_pend_sv : Kind
on_pend_sv = Kind.exception "PendSV"

abbrev count : Resource
count = record {
  singleton = false;
  attrs = [];
  mutability = true;
  ty = SynType.other_type "u32";
  expr = some (Expr.other_expr "0");
}

abbrev count_field : Field
count_field = direct_field on_pend_sv "count" count

accesses_count : In (2, "count") (resource_accesses blinky)
unfolding resource_accesses
accesses_count = inr (inl refl)

gets_count : field true on_pend_sv blinky 2 blinky_analysis "count" ≡ ok count_field
unfolding field is_init needs_lock
gets_count = refl

exclusive_count : is_exclusive count_field.ty ≡ true
unfolding direct_field
exclusive_count = refl

abbrev two : ℕ
two = 2

direct_access_exclusive_example : two ≡ 2
unfolding is_init
direct_access_exclusive_example =
    direct_access_exclusive true true blinky blinky_analysis (blinky_done true) on_pend_sv
      on_pend_sv 2 2 "count" count count_field count_field refl refl accesses_count accesses_count
      refl refl gets_count gets_count exclusive_count exclusive_count

-- `static mut count: u32 = ();`, which `init` sets and `SysTick` uses.
abbrev late_count : Resource
late_count = record {
  singleton = false;
  attrs = [];
  mutability = true;
  ty = SynType.other_type "u32";
  expr = none;
}

abbrev late_app : App
late_app = record {
  args = record { device = "stm32f103xx" ∷ [] };
  idle = none;
  init = record {
    args = record { resources = []; schedule = []; spawn = [] };
    attrs = [];
    statics = [];
    stmts = [];
    assigns = record { left = "count"; right = Expr.other_expr "0" } ∷ [];
  };
  exceptions =
      (
        "PendSV",
        record {
          args = record { priority = 2; resources = "count" ∷ []; schedule = []; spawn = [] };
          attrs = [];
          statics = [];
          stmts = [];
        },
      )
      ∷ [];
  interrupts = [];
  resources = ("count", late_count) ∷ [];
  tasks = [];
  free_interrupts = [];
}

abbrev late_analysis : Analysis
late_analysis = record {
  capacities = [];
  dispatchers = [];
  free_queues = [];
  needs_send = [];
  needs_sync = [];
  ownerships = ("count", owned 2) ∷ [];
  ready_queues = [];
  timer_queue = record { capacity = 0; ceiling = 1; priority = 1; tasks = [] };
}

late_passes : check late_app ≡ Result.ok tt
unfolding check check_declared check_not_late check_initialized check_tasks check_dispatchers
    check_interrupts
late_passes = refl

abbrev late_field : Field
late_field = direct_field on_pend_sv "count" late_count

gets_late : field true on_pend_sv late_app 2 late_analysis "count" ≡ ok late_field
unfolding field is_init needs_lock
gets_late = refl

through_uninit : late_field.expr ≡ get_mut
unfolding direct_field static_expr runs_once
through_uninit = refl

late-IsInitialized_example : IsInitialized {V = ℕ} "count" (
    run_assignments
      (λ e. two)
      (assignments late_app.resources late_app.init.assigns)
      (late_statics (resources late_app late_analysis)))
unfolding is_init
late-IsInitialized_example =
    late-IsInitialized true late_app late_analysis ((check-IsWellFormed late_app).0 late_passes)
      on_pend_sv 2 "count" late_field refl gets_late (inl through_uninit) ℕ (λ e. two)

preludes_total_example :
    (xs : List Prelude) × (preludes true blinky blinky_analysis ≡ ok xs)
    × (map key xs ≡ contexts blinky)
preludes_total_example =
    preludes_total true true blinky blinky_analysis blinky-IsWellFormed (blinky_done true)
