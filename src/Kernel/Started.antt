-- ===== src/Kernel/Started.antt =====
-- What `post_init` has to do with the kernel: it returns only if all priorities are levels of the
-- device, and the values that it writes are those by which the interrupt controller then starts the
-- handlers.
use rtfm.Common.{
  ℕ, ◌≤◌, ◌<◌, ◌^◌, ◌≡◌, sym, ap, subst, ◌∙◌, Bool, true, false, inl, inr, some, List, [], ◌∷◌,
  ◌++◌, map, ok, In, In-append, In-append_left, In-append_right, In-map, map-In, All-In, values,
  values-In, lookup, lookup→In, nat_eq, string_eq,
}
use rtfm.Runtime.Core.{CortexM}
use rtfm.Runtime.Priority.{hw}
use rtfm.Macro.Syntax.{App, Ident, Idents, Task, Exception, Interrupt}
use rtfm.Macro.Analyze.{Analysis, Dispatcher, analyze}
use rtfm.Macro.Analyze.Parts.{analyze-Parts}
use rtfm.Macro.Analyze.Dispatching.{sort_tasks-In}
use rtfm.Macro.Codegen.PostInit.{Target, interrupt, handler, Board, post_init}
use rtfm.Macro.Codegen.PostInit.Levels.{
  Entry, entries, interrupt_entries, exception_entries, timer_entries, dispatcher_entries, written,
  post_init-Wrote,
}
use rtfm.Messages.Analysed.Dispatchers.{dispatchers-Served}
use rtfm.Kernel.{System, Frame, Machine, Holds}
use rtfm.Kernel.Hardware.{HardwareReach, HardwareReach-Reach}
use rtfm.Kernel.Application.{
  Handler, preemptors, IsLevelled, IsLevelled-fits, system, booted, application_exclusion,
}

module _ (app : App) (a : Analysis) where
  -- The handler of the target runs the context: an interrupt or an exception its own, a dispatcher
  -- each task of its priority.
  pub data Serves : Target → ℕ × Idents → Type 0 where
    own_interrupt :
        (name : Ident) (i : Interrupt)
        → In (name, i) app.interrupts
        → Serves (interrupt name) (i.args.priority, i.args.resources)
    own_exception :
        (name : Ident) (e : Exception)
        → In (name, e) app.exceptions
        → Serves (handler name) (e.args.priority, e.args.resources)
    dispatched :
        (name : Ident) (task : Task) (d : Dispatcher)
        → In (name, task) app.tasks
        → lookup task.args.priority a.dispatchers ≡ some d
        → Serves (interrupt d.interrupt) (task.args.priority, task.args.resources)

  Serves-entry : {t : Target} {h : ℕ × Idents} → Serves t h → In (t, h.0) (entries app a)
  Serves-entry (own_interrupt name i l) =
      In-append_left _ (interrupt_entries app) _
        (In-map (λ i. (interrupt i.0, i.1.args.priority)) (name, i) app.interrupts l)
  Serves-entry (own_exception name e l) = In-append_right _ (interrupt_entries app) _ (
      In-append_left _ (exception_entries app) _
        (In-map (λ e. (handler e.0, e.1.args.priority)) (name, e) app.exceptions l))
  Serves-entry (dispatched name task d l at) = In-append_right _ (interrupt_entries app) _ (
      In-append_right _ (exception_entries app) _ (
        In-append_right _ (timer_entries a) (dispatcher_entries a) (
          In-map (λ d. (interrupt d.1.interrupt, d.0)) (task.args.priority, d) a.dispatchers
            (lookup→In task.args.priority d a.dispatchers at))))

  -- Each context has a handler.
  preemptors-Serves :
      analyze true app ≡ ok a → (h : ℕ × Idents) → In h (preemptors app) → (t : Target) × Serves t h
  unfolding preemptors
  preemptors-Serves done h j =
      elim (In-append h (map (λ e. (e.args.priority, e.args.resources)) (values app.exceptions)) _
        j) [
          | inl k ↦ from_exception k
          | inr k ↦
              elim (In-append h
                (map (λ i. (i.args.priority, i.args.resources)) (values app.interrupts)) _ k) [
                  | inl l ↦ from_interrupt l
                  | inr l ↦ from_task l
                ]
        ]
    where
      from_exception :
          In h (map (λ e. (e.args.priority, e.args.resources)) (values app.exceptions))
          → (t : Target) × Serves t h
      from_exception j =
          let (x, k, q) =
            map-In (λ e. (e.args.priority, e.args.resources)) h (values app.exceptions) j in
          let (name, l) = values-In x app.exceptions k in
          (handler name, subst (Serves (handler name)) q (own_exception name x l))

      from_interrupt :
          In h (map (λ i. (i.args.priority, i.args.resources)) (values app.interrupts))
          → (t : Target) × Serves t h
      from_interrupt j =
          let (x, k, q) =
            map-In (λ i. (i.args.priority, i.args.resources)) h (values app.interrupts) j in
          let (name, l) = values-In x app.interrupts k in
          (interrupt name, subst (Serves (interrupt name)) q (own_interrupt name x l))

      from_task :
          In h (map (λ t. (t.args.priority, t.args.resources)) (values app.tasks))
          → (t : Target) × Serves t h
      from_task j =
          let (x, k, q) =
            map-In (λ t. (t.args.priority, t.args.resources)) h (values app.tasks) j in
          let (name, l) = values-In x app.tasks k in
          let served =
            dispatchers-Served a.capacities app a.dispatchers (analyze-Parts true app a done).rest
              (analyze-Parts true app a done).dispatchers_ok in
          let (d, at, _) = served.member (name, x) (sort_tasks-In (name, x) app.tasks l) in
          (
            interrupt d.interrupt,
            subst (Serves (interrupt d.interrupt)) q (dispatched name x d l at),
          )

module _ (app : App) (a : Analysis) (done : analyze true app ≡ ok a) (n : ℕ) (pos : 0 < n)
    (lt : n < 8) (debug timer_queue : Bool) (b b' : Board)
    (ran : post_init debug n timer_queue app a b ≡ ok b') where
  pub post_init-Serves :
      (h : ℕ × Idents)
      → In h (preemptors app)
      → (t : Target) × Serves app a t h × In (t, hw n h.0) b'.priorities × (h.0 ≤ 2 ^ n)
  post_init-Serves h i =
      let (t, s) = preemptors-Serves app a done h i in
      let w = post_init-Wrote debug n pos lt timer_queue app a b b' ran in
      let e = Serves-entry app a s in
      (
        t,
        s,
        subst (In (t, hw n h.0)) (sym w.0) (
            In-append_right _ b.priorities _
              (In-map (written debug n pos lt) (t, h.0) (entries app a) e)),
        All-In (λ e. e.1 ≤ 2 ^ n) (entries app a) w.1 (t, h.0) e,
      )

  pub post_init-IsLevelled : ((h : ℕ × Idents) → In h (preemptors app) → 0 < h.0) → IsLevelled app n
  post_init-IsLevelled positive h i = let (t, s, w, le) = post_init-Serves h i in (positive h i, le)

-- What `post_init` has written for the handler that runs the context.
abbrev pub Written : (app : App) → Analysis → Board → Handler app → ℕ → Type 0
Written app a b' h v =
    In h.0 (preemptors app) × (t : Target) × Serves app a t h.0 × In (t, v) b'.priorities

-- If no target has two priorities, what is written is the hardware value.
Written-hw :
    (app : App) (a : Analysis) (n : ℕ) (pos : 0 < n) (lt : n < 8) (debug timer_queue : Bool)
    (b b' : Board)
    → post_init debug n timer_queue app a b ≡ ok b'
    → b.priorities ≡ []
    → ((e e' : Entry) → In e (entries app a) → In e' (entries app a) → e.0 ≡ e'.0 → e.1 ≡ e'.1)
    → (h : Handler app) (v : ℕ) → Written app a b' h v
    → v ≡ hw n h.0.0
Written-hw app a n pos lt debug timer_queue b b' ran fresh apart h v (i, t, s, j) =
    let w = post_init-Wrote debug n pos lt timer_queue app a b b' ran in
    let at : b'.priorities ≡ map (written debug n pos lt) (entries app a) =
      w.0 ∙ ap (λ x. x ++ map (written debug n pos lt) (entries app a)) fresh in
    let (e, k, q) =
      map-In (written debug n pos lt) (t, v) (entries app a) (subst (In (t, v)) at j) in
    sym (ap (λ z. z.1) q)
    ∙ ap (hw n) (apart e (t, h.0.0) k (Serves-entry app a s) (ap (λ z. z.0) q))

module _ (app : App) (a : Analysis) (done : analyze true app ≡ ok a)
    (positive : (h : ℕ × Idents) → In h (preemptors app) → 0 < h.0)
    (apart : (e e' : Entry)
      → In e (entries app a)
      → In e' (entries app a)
      → e.0 ≡ e'.0
      → e.1 ≡ e'.1)
    (m : CortexM) (pos : 0 < m.prio_bits) (lt : m.prio_bits < 8) (debug timer_queue : Bool)
    (b b' : Board) (fresh : b.priorities ≡ [])
    (ran : post_init debug m.prio_bits timer_queue app a b ≡ ok b') where
  -- The kernel's parameters, whose priorities the assertions of `post_init` have found to be levels.
  abbrev pub started_system : System (Handler app) Ident m.prio_bits
  started_system = system true app a done m.prio_bits pos lt (
      IsLevelled-fits app m.prio_bits
        (post_init-IsLevelled app a done m.prio_bits pos lt debug timer_queue b b' ran positive))

  started_values :
      (h : Handler app) (v : ℕ)
      → Written app a b' h v
      → (0 < started_system.priority h) × (v ≡ hw m.prio_bits (started_system.priority h))
  unfolding system
  started_values h v w = (
    positive h.0 w.0,
    Written-hw app a m.prio_bits pos lt debug timer_queue b b' ran fresh apart h v w,
  )

  -- For an application, with or without `idle`, for which the analysis returns, in a build of the
  -- macro that checks its sums, whose exceptions, interrupts and tasks have priorities of at least
  -- 1, and in which no interrupt or exception is given two priorities, on a device with 1 to 7
  -- priority bits: if the generated `post_init` returns, and the interrupt controller then starts
  -- handlers by the values that `post_init` has written, from `main` alone with interrupts enabled,
  -- then in every state that the application reaches no two handlers on the stack may use the same
  -- resource.
  pub post_init_exclusion :
      (core : m.Core) (u : Machine m (Handler app) Ident)
      → m.is_masked core ≡ false
      → HardwareReach m started_system debug (Written app a b') (booted m app core) u
      → (above : List (Frame m (Handler app) Ident)) (f : Frame m (Handler app) Ident)
        (below : List (Frame m (Handler app) Ident)) (g : Frame m (Handler app) Ident) (r : Ident)
      → u.frames ≡ above ++ f ∷ below
      → In g below
      → Holds m started_system f r
      → ¬ (Holds m started_system g r)
  post_init_exclusion core u unmasked reach =
      application_exclusion true app a done m pos lt
        (post_init-IsLevelled app a done m.prio_bits pos lt debug timer_queue b b' ran positive)
        debug core u unmasked
        (HardwareReach-Reach m started_system debug (Written app a b') started_values
          (booted m app core) u reach)
