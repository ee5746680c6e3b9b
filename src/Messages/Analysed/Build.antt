-- ===== src/Messages/Analysed/Build.antt =====
-- The layout of an application that the macro has analysed, in a build that checks its sums, and
-- whose capacities can be rounded up.
use rtfm.Common.{
  ℕ, ◌≤◌, ◌<◌, ◌≡◌, true, inl, inr, ◌⊎◌, none, some, Option-cases, ok, panic, [], ◌∷◌, length, In,
  arith, string_eq, nat_eq, lookup, lookup→In,
}
use rtfm.Runtime.TimerQueue.{BinaryHeap, SysTick, NotReady}
use rtfm.Macro.Syntax.{App, Ident, Idents}
use rtfm.Macro.Analyze.{Analysis, Dispatcher, analyze, sort_tasks}
use rtfm.Macro.Analyze.Parts.{analyze-Parts}
use rtfm.Macro.Analyze.Dispatching.{sort_tasks-In}
use rtfm.Macro.Codegen.Sizes.{mk_typenum_capacity, mk_typenum_capacity-ok}
use rtfm.Messages.{Layout, Slot, Message, total}
use rtfm.Messages.Queue.{Spsc, Entries}
use rtfm.Messages.Steps.{Machine, Reach, boot, stamped, loaded}
use rtfm.Messages.Analysed.{capacity_in}
use rtfm.Messages.Analysed.Dispatchers.{Served, dispatchers-Served}
use rtfm.Messages.Analysed.Timer.{timer_queue-Covers}
use rtfm.Messages.Ownership.Safe.{Reach-room}

abbrev pub rounded : ℕ → ℕ
rounded c = elim (mk_typenum_capacity c true) [ ok p ↦ p | panic ↦ 0 ]

pub rounded-le : (c : ℕ) → c ≤ 128 → c ≤ rounded c
rounded-le c l = let (p, e, le) = mk_typenum_capacity-ok c l in rw (e, rounded) le

pub total_le :
    (f g : Ident → ℕ) → ((t : Ident) → f t ≤ g t) → (ts : Idents) → total f ts ≤ total g ts
total_le f g h [] = omega arith
total_le f g h (t ∷ ts) = omega (arith, h t, total_le f g h ts)

module _ (app : App) (a : Analysis) where
  abbrev pub level_of : Ident → ℕ
  level_of t = elim (lookup t app.tasks) [ none ↦ 0 | some task ↦ task.args.priority ]

  abbrev pub slots_of : Ident → ℕ
  slots_of t = elim (lookup t app.tasks) [ none ↦ 0 | some task ↦ capacity_in a.capacities t ]

  abbrev pub tasks_of : ℕ → Idents
  tasks_of l = elim (lookup l a.dispatchers) [ none ↦ [] | some d ↦ d.tasks ]

  -- `*analysis.ready_queues.get(&level).unwrap_or(&0)`.
  abbrev pub ready_ceiling_of : ℕ → ℕ
  ready_ceiling_of l = elim (lookup l a.ready_queues) [ none ↦ 0 | some c ↦ c ]

  abbrev pub ready_capacity_of : ℕ → ℕ
  ready_capacity_of l = elim (lookup l a.dispatchers) [ none ↦ 0 | some d ↦ rounded d.capacity ]

  pub slots_le : (t : Ident) → slots_of t ≤ capacity_in a.capacities t
  slots_le t = elim (Option-cases (lookup t app.tasks)) [
    | inl e ↦ rw (e, slots_of) (omega arith)
    | inr (x, e) ↦ rw (e, slots_of) (omega arith)
  ]

  module _ (done : analyze true app ≡ ok a)
      (small_tasks : (t : Ident) → capacity_in a.capacities t ≤ 128)
      (small_dispatchers : (l : ℕ) (d : Dispatcher)
        → lookup l a.dispatchers ≡ some d
        → d.capacity ≤ 128)
      (timer_locked : (t : Ident)
        → In t a.timer_queue.tasks
        → a.timer_queue.priority ≤ ready_ceiling_of (level_of t)) where
    pub served :
        Served a.capacities
          (sort_tasks app.tasks)
          (a.dispatchers, (analyze-Parts true app a done).rest)
    served =
        dispatchers-Served a.capacities app a.dispatchers (analyze-Parts true app a done).rest
          (analyze-Parts true app a done).dispatchers_ok

    pub in_tasks : (t : Ident) → 0 < slots_of t → In t (tasks_of (level_of t))
    in_tasks t h = elim (Option-cases (lookup t app.tasks)) [
      | inl e ↦ absurd (omega (arith, rw (e, slots_of) at h))
      | inr (task, e) ↦
          let (d, l, i) =
            served.member (t, task)
              (sort_tasks-In (t, task) app.tasks (lookup→In t task app.tasks e)) in
          rw (e, level_of) (rw (l, tasks_of) i)
    ]

    pub ready_fits : (l : ℕ) → total slots_of (tasks_of l) ≤ ready_capacity_of l
    ready_fits l = elim (Option-cases (lookup l a.dispatchers)) [
      | inl e ↦ rw (e, tasks_of, ready_capacity_of) (omega arith)
      | inr (d, e) ↦
          rw (e, tasks_of, ready_capacity_of)
            (omega (
              arith,
              total_le slots_of (capacity_in a.capacities) slots_le d.tasks,
              served.sums l d e,
              rounded-le d.capacity (small_dispatchers l d e),
            ))
    ]

    unfoldable pub analysed_layout : Layout
    analysed_layout = record {
      level = level_of;
      capacity = slots_of;
      free_capacity = λ t. rounded (slots_of t);
      tasks = tasks_of;
      ready_capacity = ready_capacity_of;
      timer_tasks = a.timer_queue.tasks;
      timer_capacity = a.timer_queue.capacity;
      ready_ceiling = ready_ceiling_of;
      timer_priority = a.timer_queue.priority;
      timer_locked = timer_locked;
      in_tasks = in_tasks;
      free_fits = λ t. rounded-le (slots_of t) (omega (arith, slots_le t, small_tasks t));
      ready_fits = ready_fits;
      timer_fits = omega (
        arith,
        total_le slots_of (capacity_in a.capacities) slots_le a.timer_queue.tasks,
        timer_queue-Covers app a.capacities a.timer_queue.capacity a.timer_queue.priority
            a.timer_queue.tasks (analyze-Parts true app a done).timer_queue_ok,
      );
    }

    -- For an application for which the analysis returns, in a build of the macro that checks its
    -- sums, whose tasks and dispatchers have capacities up to 128, and such that the priority of
    -- the timer queue is at most the ceiling of the ready queue of each of its tasks: under the
    -- capacities of the analysis every `enqueue_unchecked` or `push_unchecked` that may come next,
    -- in any state reached after `pre_init`, finds room in the ready queue, the timer queue and the
    -- free queue.
    pub application_room :
        (F : Spsc ℕ) (R : Spsc Slot) (S : SysTick) (H : BinaryHeap (NotReady Ident))
        (Input : Type 0) (E : Entries H a.timer_queue.capacity) (syst : S.Syst) (m : Message Input)
        (u : Machine F R S H Input)
        → Reach analysed_layout (boot analysed_layout syst m) u
        → (y : Slot)
        → ((In (y, stamped) u.calls ⊎ (u.forwarding ≡ some y))
            → length (R.items (u.store.ready (level_of y.0)))
              < R.capacity (u.store.ready (level_of y.0)))
          × (In (y, stamped) u.calls
              → In y.0 a.timer_queue.tasks
              → length (E.entries u.store.timer.queue) < a.timer_queue.capacity)
          × ((l : ℕ) (n : Message Input)
              → u.dispatchers l ≡ loaded y n
              → length (F.items (u.store.free y.0)) < F.capacity (u.store.free y.0))
    unfolding analysed_layout
    application_room F R S H Input E syst m u r y = Reach-room analysed_layout E syst m u r y
