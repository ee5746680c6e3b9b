-- ===== src/Examples/KernelRuns.antt =====
-- The kernel's theorems at a run of the example application: `idle` claims `count`, and the task
-- `blink` preempts it inside the claim.
use rtfm.Common.{
  ℕ, subst, ap, sym, ◌∙◌, ◌==◌, string_eq, if◌then◌else◌, ◌<◌, In, ◌≤◌, ◌^◌, ◌≡◌, ok, refl, true,
  false, [], ◌∷◌, inl, inr, arith,
}
use rtfm.Runtime.Mutex.Section.{Nesting, enter}
use rtfm.Runtime.Priority.{logical2hw, shl8, sub8}
use rtfm.Kernel.{
  System, Frame, Machine, IsBoot, Holds, context, Step, start, claim, Reach, here, next,
}
use rtfm.Kernel.Exclusion.{mutual_exclusion}
use rtfm.Kernel.Progress.{no_deadlock}
use rtfm.Kernel.Hardware
use rtfm.Kernel.Hardware.{HardwareReach, then_step, preempt, run}
use rtfm.Kernel.Started.{
  dispatched, Written, post_init-IsLevelled, started_system, post_init_exclusion,
}
use rtfm.Macro.Codegen.PostInit.Levels.{Entry, entries}
use rtfm.Macro.Syntax.{Idents}
use rtfm.Macro.Codegen.PostInit.{
  Target, Board, handler, interrupt, post_init, set_interrupt, set_exception, set_timer,
  set_dispatcher, set_priority, enable,
}
use rtfm.Runtime.Mutex.{Context}
use rtfm.Kernel.Application.{
  Handler, handlers, preemptors, main_context, main_handler, IsLevelled, IsLevelled-fits, booted,
  booted-IsBoot, system, application_exclusion,
}
use rtfm.Macro.Syntax.{Ident}
use rtfm.Examples.Device.{registers, device}
use rtfm.Examples.Blinky.{blinky, blinky_analysis, blinky_done}

levelled : IsLevelled blinky 3
unfolding preemptors
levelled h i = ground arith

abbrev fits : (h : Handler blinky) → h.0.0 ≤ 2 ^ 3
fits = IsLevelled-fits blinky 3 levelled

abbrev Levels : Type 0
Levels = (h : Handler blinky) → h.0.0 ≤ 2 ^ 3

abbrev blinky_system : Levels → System (Handler blinky) Ident 3
blinky_system levels =
    system true blinky blinky_analysis (blinky_done true) 3 (omega arith) (omega arith) levels

abbrev idle : Handler blinky
idle = main_handler blinky

abbrev blink : Handler blinky
unfolding handlers preemptors
blink = ((3, "pin" ∷ []), inr (inr (inl refl)))

abbrev BlinkyFrame : Type 0
BlinkyFrame = Frame device (Handler blinky) Ident

abbrev BlinkyMachine : Type 0
BlinkyMachine = Machine device (Handler blinky) Ident

abbrev at_boot : BlinkyMachine
at_boot = booted device blinky (registers 0 false)

abbrev idle_claims : BlinkyFrame
idle_claims = record {
  task = idle;
  cell = 2;
  initial = 0;
  claims = ("count", 0, Nesting.raised) ∷ [];
}

abbrev claimed_count : BlinkyMachine
claimed_count = record { core = registers 192 false; frames = idle_claims ∷ [] }

abbrev blink_starts : BlinkyFrame
blink_starts = record { task = blink; cell = 3; initial = 192; claims = [] }

abbrev preempted : BlinkyMachine
preempted = record { core = registers 192 false; frames = blink_starts ∷ idle_claims ∷ [] }

boot : (levels : Levels) → IsBoot device (blinky_system levels) at_boot
boot levels =
    booted-IsBoot true blinky blinky_analysis (blinky_done true) device (omega arith) (omega arith)
      levels (registers 0 false) refl

first_step : (levels : Levels) → Step device (blinky_system levels) true at_boot claimed_count
unfolding system main_handler main_context enter logical2hw shl8 sub8
first_step levels =
    claim "count" (record { task = idle; cell = 0; initial = 0; claims = [] }) [] Nesting.raised
      (record { priority = 2; core = registers 192 false; memory = tt }) refl refl refl refl

second_step : (levels : Levels) → Step device (blinky_system levels) true claimed_count preempted
unfolding system main_handler main_context blink
second_step levels =
    start blink idle_claims [] refl (omega arith) (omega arith) (λ b. ground arith) refl

reach : (levels : Levels) → Reach device (blinky_system levels) true at_boot preempted
reach levels = next (next here (first_step levels)) (second_step levels)

blink-Holds : (levels : Levels) → Holds device (blinky_system levels) blink_starts "pin"
unfolding system blink
blink-Holds levels = (refl, inl (omega arith))

mutual_exclusion_example : ¬ (Holds device (blinky_system fits) idle_claims "pin")
mutual_exclusion_example =
    mutual_exclusion device (blinky_system fits) true at_boot preempted (boot fits) (reach fits) []
      blink_starts (idle_claims ∷ []) idle_claims "pin" refl (inl refl) (blink-Holds fits)

application_exclusion_example : ¬ (Holds device (blinky_system fits) idle_claims "pin")
application_exclusion_example =
    application_exclusion true blinky blinky_analysis (blinky_done true) device (omega arith)
      (omega arith) levelled true (registers 0 false) preempted refl (reach fits) [] blink_starts
      (idle_claims ∷ []) idle_claims "pin" refl (inl refl) (blink-Holds fits)

no_deadlock_example :
    ((f : BlinkyFrame) (r : Ident)
      → (n : Nesting device) × (c : Context device (Unit {0})) × (enter device true
            ((blinky_system fits).ceiling r)
            (context preempted.core f)
          ≡ ok (n, c)))
    × (v : BlinkyMachine) × (g : BlinkyFrame) × Reach device (blinky_system fits) true preempted v
    × (v.frames ≡ g ∷ [])
    × (g.claims ≡ [])
no_deadlock_example =
    no_deadlock device (blinky_system fits) true at_boot preempted (boot fits) (reach fits)

abbrev board : Board
board = record {
  enabled = [];
  priorities = [];
  sleep_on_exit = false;
  timer_enabled = false;
  cycle_counter = false;
}

abbrev started : Board
started = record {
  enabled = "UART0" ∷ "UART1" ∷ [];
  priorities =
      (handler "PendSV", 192)
      ∷ (handler "SysTick", 160)
      ∷ (interrupt "UART0", 224)
      ∷ (interrupt "UART1", 160)
      ∷ [];
  sleep_on_exit = false;
  timer_enabled = true;
  cycle_counter = true;
}

starts : post_init true 3 true blinky blinky_analysis board ≡ ok started
unfolding post_init set_interrupt set_exception set_timer set_dispatcher set_priority enable
    logical2hw shl8 sub8
starts = refl

positive : (h : ℕ × Idents) → In h (preemptors blinky) → 0 < h.0
positive h i = (levelled h i).0

abbrev priority_of : Target → ℕ
priority_of (handler name) = if name == "PendSV" then 2 else 3
priority_of (interrupt name) = if name == "UART0" then 1 else 3

entry_priority : (e : Entry) → In e (entries blinky blinky_analysis) → e.1 ≡ priority_of e.0
entry_priority e (inl q) = subst (λ x. x.1 ≡ priority_of x.0) q refl
entry_priority e (inr (inl q)) = subst (λ x. x.1 ≡ priority_of x.0) q refl
entry_priority e (inr (inr (inl q))) = subst (λ x. x.1 ≡ priority_of x.0) q refl
entry_priority e (inr (inr (inr (inl q)))) = subst (λ x. x.1 ≡ priority_of x.0) q refl
entry_priority e (inr (inr (inr (inr q)))) = absurd q

-- No target has two priorities.
apart :
    (e e' : Entry)
    → In e (entries blinky blinky_analysis)
    → In e' (entries blinky blinky_analysis)
    → e.0 ≡ e'.0
    → e.1 ≡ e'.1
apart e e' i j same = entry_priority e i ∙ ap priority_of same ∙ sym (entry_priority e' j)

abbrev running : System (Handler blinky) Ident 3
running =
    started_system blinky blinky_analysis (blinky_done true) positive apart device (omega arith)
      (omega arith) true true board started refl starts

abbrev levels : Levels
levels = IsLevelled-fits blinky 3 (
    post_init-IsLevelled blinky blinky_analysis (blinky_done true) 3 (omega arith) (omega arith)
      true true board started starts positive)

-- The value for the dispatcher of `blink`.
blink-Written : Written blinky blinky_analysis started blink 160
unfolding blink preemptors
blink-Written = (
  inr (inl refl),
  interrupt "UART1",
  dispatched "blink" _ _ (inl refl) refl,
  inr (inr (inr (inl refl))),
)

hardware_reach :
    HardwareReach device running true (Written blinky blinky_analysis started) at_boot preempted
unfolding system main_handler main_context blink
hardware_reach =
    then_step (then_step Hardware.booted (run (first_step levels) (omega arith)))
      (preempt blink 160 idle_claims [] refl blink-Written (inl refl) refl (inr (omega arith)) refl)

post_init_exclusion_example : ¬ (Holds device running idle_claims "pin")
post_init_exclusion_example =
    post_init_exclusion blinky blinky_analysis (blinky_done true) positive apart device
      (omega arith) (omega arith) true true board started refl starts (registers 0 false) preempted
      refl hardware_reach [] blink_starts (idle_claims ∷ []) idle_claims "pin" refl (inl refl)
      (blink-Holds levels)
