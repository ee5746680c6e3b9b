-- ===== src/Messages/Analysed/Producers.antt =====
-- Who uses which queue under a lock, in the code that macros/src/codegen.rs generates: the callers of
-- `spawn` and `schedule`, and the handler of SysTick. The kernel's theorem at the ceilings that
-- macros/src/analyze.rs computes for the queues.
use rtfm.Common.{
  ℕ, ◌≤◌, ◌<◌, ◌^◌, ◌≡◌, sym, Bool, true, ◌⊎◌, inl, inr, none, some, ok, List, ◌∷◌, ◌++◌, In,
  lookup, nat_eq, string_eq,
}
use rtfm.Runtime.Core.{CortexM}
use rtfm.Macro.Syntax.{App, Ident, Task, spawn_calls, schedule_calls}
use rtfm.Macro.Analyze.{Analysis, analyze}
use rtfm.Macro.Analyze.Queues.{AtLeast, QueueCeilings, analyze-QueueCeilings}
use rtfm.Messages.Analysed.Build.{level_of, ready_ceiling_of}
use rtfm.Kernel.{System, Frame, Machine, IsBoot, Reach, Holds}
use rtfm.Kernel.Exclusion.{mutual_exclusion}

-- The queues that have more than one user at one of their ends: the free queue of a task, the ready
-- queue of a priority, and the timer queue.
pub data Locked : Type 0 where
  free_queue : Ident → Locked
  ready_queue : ℕ → Locked
  timer_queue : Locked

module _ (app : App) (a : Analysis) where
  -- A context of the priority has code that claims the queue.
  abbrev pub Uses : ℕ → Locked → Type 0
  Uses p (free_queue t) = In (some p, t) (spawn_calls app) ⊎ In (some p, t) (schedule_calls app)
  Uses p (ready_queue l) =
      ((t : Ident) × (task : Task) × In (some p, t) (spawn_calls app)
        × (lookup t app.tasks ≡ some task)
        × (task.args.priority ≡ l))
      ⊎ ((t : Ident) × In t a.timer_queue.tasks
          × (level_of app a t ≡ l)
          × (p ≡ a.timer_queue.priority))
  Uses p timer_queue =
      ((t : Ident) × In (some p, t) (schedule_calls app)) ⊎ (p ≡ a.timer_queue.priority)

  -- The ceiling under which the queue is claimed.
  abbrev pub queue_ceiling : Locked → ℕ
  queue_ceiling (free_queue t) = elim (lookup t a.free_queues) [ none ↦ 0 | some c ↦ c ]
  queue_ceiling (ready_queue l) = ready_ceiling_of app a l
  queue_ceiling timer_queue = a.timer_queue.ceiling

  -- A context: its priority and the queues that it claims.
  abbrev pub Sender : ℕ → Type 0
  Sender n = (h : ℕ × (Locked → Bool)) × (h.0 ≤ 2 ^ n) × ((q : Locked) → h.1 q ≡ true → Uses h.0 q)

  module _ (debug : Bool) (done : analyze debug app ≡ ok a)
      (timer_locked : (t : Ident)
        → In t a.timer_queue.tasks
        → a.timer_queue.priority ≤ ready_ceiling_of app a (level_of app a t)) where
    free_le : (t : Ident) (p : ℕ) → AtLeast a.free_queues t p → p ≤ queue_ceiling (free_queue t)
    free_le t p (c, e, l) = rw (e, queue_ceiling) l

    ready_le : (l p : ℕ) → AtLeast a.ready_queues l p → p ≤ ready_ceiling_of app a l
    ready_le l p (c, e, le) = rw (e, ready_ceiling_of) le

    bounds : QueueCeilings app a
    bounds = analyze-QueueCeilings debug app a done

    pub Uses-le : (p : ℕ) (q : Locked) → Uses p q → p ≤ queue_ceiling q
    Uses-le p (free_queue t) (inl i) = free_le t p (bounds.free_spawn p t i)
    Uses-le p (free_queue t) (inr i) = free_le t p (bounds.free_schedule p t i)
    Uses-le p (ready_queue l) (inl (t, task, i, e, same)) =
        rw (sym same) (ready_le task.args.priority p (bounds.ready_spawn p t task i e))
    Uses-le p (ready_queue l) (inr (t, i, same, e)) = rw (e, sym same) (timer_locked t i)
    Uses-le p timer_queue (inl (t, i)) = bounds.timer_schedule p t i
    Uses-le p timer_queue (inr e) = rw e bounds.timer_handler

    -- The kernel's parameters, with the queues for resources.
    unfoldable pub queue_system :
        (n : ℕ)
        → 0 < n
        → n < 8
        → ((q : Locked) → queue_ceiling q ≤ 2 ^ n)
        → System (Sender n) Locked n
    queue_system n pos lt fits = record {
      priority = λ h. h.0.0;
      ceiling = queue_ceiling;
      accesses = λ h q. h.0.1 q;
      bits_pos = pos;
      bits_lt = lt;
      priority_le = λ h. h.1;
      ceiling_le = fits;
      priority_le_ceiling = λ h q e. Uses-le h.0.0 q (h.2 q e);
    }

    -- On a device with 1 to 7 priority bits whose levels include the ceilings of the queues, for an
    -- application for which the analysis returns and such that the priority of the timer queue is
    -- at most the ceiling of the ready queue of each of its tasks: in every state of the kernel
    -- reached from the boot no two handlers on the stack, the handler of SysTick included, are in
    -- claims of the same queue (the free queue of a task, the ready queue of a priority, the timer
    -- queue), whether the claims take the lock or, at the ceiling, need none.
    pub queue_exclusion :
        (m : CortexM) (pos : 0 < m.prio_bits) (lt : m.prio_bits < 8)
        (fits : (q : Locked) → queue_ceiling q ≤ 2 ^ m.prio_bits) (debug' : Bool)
        (s u : Machine m (Sender m.prio_bits) Locked)
        → IsBoot m (queue_system m.prio_bits pos lt fits) s
        → Reach m (queue_system m.prio_bits pos lt fits) debug' s u
        → (above : List (Frame m (Sender m.prio_bits) Locked))
          (f : Frame m (Sender m.prio_bits) Locked)
          (below : List (Frame m (Sender m.prio_bits) Locked))
          (g : Frame m (Sender m.prio_bits) Locked) (q : Locked)
        → u.frames ≡ above ++ f ∷ below
        → In g below
        → Holds m (queue_system m.prio_bits pos lt fits) f q
        → ¬ (Holds m (queue_system m.prio_bits pos lt fits) g q)
    queue_exclusion m pos lt fits debug' s u boot reach =
        mutual_exclusion m (queue_system m.prio_bits pos lt fits) debug' s u boot reach
