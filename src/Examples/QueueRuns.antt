-- ===== src/Examples/QueueRuns.antt =====
-- The handler of SysTick preempts `idle`; both send to the ready queue of `log`.
use rtfm.Common.{
  ◌≤◌, ◌^◌, ◌≡◌, refl, Bool, true, false, inl, inr, [], ◌∷◌, arith, ◌==◌, nat_eq, eq_of_beq, sym,
  string_eq, Bool-cases, In, ◌<◌,
}
use rtfm.Macro.Syntax.{spawn_calls}
use rtfm.Kernel.{System, Frame, Machine, IsBoot, Holds, start, Reach, here, next}
use rtfm.Messages.Analysed.Producers.{
  Locked, Uses, Sender, queue_ceiling, queue_system, queue_exclusion,
}
use rtfm.Messages.Analysed.Build.{ready_ceiling_of, level_of}
use rtfm.Examples.Blinky.{blinky, blinky_analysis}
use rtfm.Examples.Device.{registers, device}
use rtfm.Examples.Chatty.{chatty, chatty_analysis, chatty_done, timer_locked}

-- The ready queue of `log`.
abbrev log_queue : Locked → Bool
log_queue (Locked.free_queue t) = false
log_queue (Locked.ready_queue l) = l == 1
log_queue Locked.timer_queue = false

idle-Uses : (q : Locked) → log_queue q ≡ true → Uses chatty chatty_analysis 0 q
unfolding spawn_calls
idle-Uses (Locked.free_queue t) e = cc
idle-Uses (Locked.ready_queue l) e = inl ("log", _, inl refl, refl, sym (eq_of_beq l 1 e))
idle-Uses Locked.timer_queue e = cc

timer-Uses : (q : Locked) → log_queue q ≡ true → Uses chatty chatty_analysis 3 q
timer-Uses (Locked.free_queue t) e = cc
timer-Uses (Locked.ready_queue l) e = inr ("log", inr (inl refl), sym (eq_of_beq l 1 e), refl)
timer-Uses Locked.timer_queue e = cc

fits : (q : Locked) → queue_ceiling chatty chatty_analysis q ≤ 2 ^ 3
fits (Locked.free_queue t) = elim (Bool-cases ("blink" == t)) [
  | inl p ↦ rw (p, queue_ceiling) (omega arith)
  | inr p ↦ elim (Bool-cases ("log" == t)) [
    | inl q ↦ rw (p, q, queue_ceiling) (omega arith)
    | inr q ↦ rw (p, q, queue_ceiling) (omega arith)
  ]
]
fits (Locked.ready_queue l) = elim (Bool-cases (1 == l)) [
  | inl p ↦ rw (p, queue_ceiling, ready_ceiling_of) (omega arith)
  | inr p ↦ elim (Bool-cases (3 == l)) [
    | inl q ↦ rw (p, q, queue_ceiling, ready_ceiling_of) (omega arith)
    | inr q ↦ rw (p, q, queue_ceiling, ready_ceiling_of) (omega arith)
  ]
]
fits Locked.timer_queue = omega arith

abbrev Context : Type 0
Context = Sender chatty chatty_analysis 3

abbrev queues : System Context Locked 3
queues =
    queue_system chatty chatty_analysis true chatty_done timer_locked 3 (omega arith) (omega arith)
      fits

abbrev idle : Context
idle = ((0, log_queue), omega arith, idle-Uses)

abbrev timer : Context
timer = ((3, log_queue), omega arith, timer-Uses)

abbrev idle_runs : Frame device Context Locked
idle_runs = record { task = idle; cell = 0; initial = 0; claims = [] }

abbrev timer_starts : Frame device Context Locked
timer_starts = record { task = timer; cell = 3; initial = 0; claims = [] }

abbrev booted : Machine device Context Locked
booted = record { core = registers 0 false; frames = idle_runs ∷ [] }

abbrev ticked : Machine device Context Locked
ticked = record { core = registers 0 false; frames = timer_starts ∷ idle_runs ∷ [] }

boot : IsBoot device queues booted
unfolding queue_system
boot = record { idle = idle; idle_priority = refl; unmasked = refl; one_frame = refl }

reach : Reach device queues true booted ticked
unfolding queue_system
reach =
    next here (start timer idle_runs [] refl (omega arith) (omega arith) (λ b. ground arith) refl)

timer-Holds : Holds device queues timer_starts (Locked.ready_queue 1)
unfolding queue_system
timer-Holds = (refl, inl (omega arith))

queue_exclusion_example : ¬ (Holds device queues idle_runs (Locked.ready_queue 1))
queue_exclusion_example =
    queue_exclusion chatty chatty_analysis true chatty_done timer_locked device (omega arith)
      (omega arith) fits true booted ticked boot reach [] timer_starts (idle_runs ∷ []) idle_runs
      (Locked.ready_queue 1) refl (inl refl) timer-Holds

-- In the first application the priority of the timer queue is above the ceiling of the ready queue of
-- one of its tasks.
unlocked :
    In "log" blinky_analysis.timer_queue.tasks
    × (ready_ceiling_of blinky blinky_analysis (level_of blinky blinky_analysis "log")
        < blinky_analysis.timer_queue.priority)
unlocked = (inr (inl refl), omega arith)
