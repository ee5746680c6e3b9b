-- ===== src/Macro/Analyze.antt =====
-- `app` of macros/src/analyze.rs: the ceiling analysis. `debug` says whether the macro was built
-- with overflow checks; the `u8` sums wrap otherwise.
pub mod Fold
pub mod Parts
pub mod Ceilings
pub mod Queues
pub mod Sends
pub mod Dispatching
pub mod Total
pub mod Locks
use rtfm.Common.{
  ℕ, ◌+◌, ◌%◌, ◌^◌, max, ◌≡◌, Bool, true, false, not, ◌&&◌, ◌||◌, List, [], ◌∷◌, ◌++◌, map, Option,
  none, some, values, keys, lookup, contains, insert, modify, HashMap, set_insert, string_eq,
  nat_eq, ltb, leb, eqb, ◌==◌, if◌then◌else◌, Outcome, ok, panic, ◌>>=◌, ◌>>◌, expect, assert, Eq,
}
use rtfm.Macro.Syn.{Attribute, SynType, type_eq}
use rtfm.Macro.Syntax.{
  App, Ident, Idents, Resource, Resources, Task, Tasks, FreeInterrupt, FreeInterrupts,
  resource_accesses, spawn_calls, schedule_calls,
}

-- Priorities and ceilings are logical: 0 is the lowest.
pub data Ownership : Type 0 where
  owned : ℕ → Ownership
  shared : ℕ → Ownership

abbrev pub Ownerships : Type 0
Ownerships = HashMap Ident Ownership

-- `debug_assert!` and the test.
unfoldable pub needs_lock : Bool → Ownership → ℕ → Outcome Bool
needs_lock debug (owned p) priority = ok false
needs_lock debug (shared ceiling) priority = do
  assert (not debug || leb priority ceiling)
  ok (ltb priority ceiling)

pub record Dispatcher : Type 0 where
  pub attrs : List Attribute
  pub interrupt : Ident
  pub tasks : List Ident
  pub capacity : ℕ

abbrev pub Dispatchers : Type 0
Dispatchers = HashMap ℕ Dispatcher

abbrev pub Capacities : Type 0
Capacities = HashMap Ident ℕ

pub record TimerQueue : Type 0 where
  pub capacity : ℕ
  pub ceiling : ℕ
  pub priority : ℕ
  pub tasks : Idents

pub record Analysis : Type 0 where
  pub capacities : Capacities
  pub dispatchers : Dispatchers
  pub free_queues : HashMap Ident ℕ
  pub needs_send : Idents
  pub needs_sync : List SynType
  pub ownerships : Ownerships
  pub ready_queues : HashMap ℕ ℕ
  pub timer_queue : TimerQueue

-- `+=` on `u8`.
unfoldable pub add8 : Bool → ℕ → ℕ → Outcome ℕ
add8 debug a b = if debug && leb 256 (a + b) then panic else ok ((a + b) % 256)

-- A `for` loop over a state, whose body may panic.
abbrev pub fold : {A S : Type 0} → (A → S → Outcome S) → List A → S → Outcome S
fold f [] s = ok s
fold f (x ∷ xs) s = f x s >>= λ s'. fold f xs s'

-- `*m.get_mut(k).expect(..) = ..`, where the new value is computed from the old one.
module _ {K V : Type 0} ⦃e : Eq K⦄ where
  abbrev pub update : K → (V → Outcome V) → HashMap K V → Outcome (HashMap K V)
  update k f m = do v ← expect (lookup k m); v' ← f v; ok (modify k (λ _. v') m)

abbrev pub ceiling_of : Ownership → ℕ
ceiling_of (owned priority) = priority
ceiling_of (shared ceiling) = ceiling

-- One round of the ownership loop: an access to `res` at `priority`.
unfoldable pub record_access :
    Resources → ℕ × Ident → Ownerships × List SynType → Outcome (Ownerships × List SynType)
record_access resources (priority, res) (ownerships, needs_sync) = elim (lookup res ownerships) [
  | none ↦ ok (insert res (owned priority) ownerships, needs_sync)
  | some ownership ↦
      if eqb priority (ceiling_of ownership)
      then ok (ownerships, needs_sync)
      else (expect (lookup res resources) >>= λ r. ok (
        modify res (λ _. shared (max (ceiling_of ownership) priority)) ownerships,
        if r.mutability then needs_sync else set_insert r.ty needs_sync,
      ))
]

unfoldable pub ownerships : App → Outcome (Ownerships × List SynType)
ownerships app = fold (record_access app.resources) (resource_accesses app) ([], [])

-- A map that holds `v` for each key.
abbrev pub all_at : {K V : Type 0} → V → List K → HashMap K V
all_at v ks = map (λ k. (k, v)) ks

unfoldable pub count_call : Bool → Option ℕ × Ident → Capacities → Outcome Capacities
unfolding add8
count_call debug (caller, task) capacities = update task (λ c. add8 debug c 1) capacities

unfoldable pub override_capacity : Ident × Task → Capacities → Outcome Capacities
override_capacity (name, task) capacities = elim task.args.capacity [
  | none ↦ ok capacities
  | some cap ↦ update name (λ _. ok cap) capacities
]

unfoldable pub capacities : Bool → App → Outcome Capacities
unfolding count_call override_capacity
capacities debug app = do
  counted ←
      fold (count_call debug) (spawn_calls app ++ schedule_calls app) (all_at 0 (keys app.tasks))
  fold override_capacity app.tasks counted

-- The capacity, the priority and the tasks of the timer queue.
unfoldable pub queue_call :
    Bool → Tasks → Capacities → Option ℕ × Ident → ℕ × ℕ × Idents → Outcome (ℕ × ℕ × Idents)
unfolding add8
queue_call debug tasks caps (caller, task) (capacity, priority, names) = do
  c ← expect (lookup task caps)
  capacity' ← add8 debug capacity c
  t ← expect (lookup task tasks)
  ok (capacity', max priority t.args.priority, set_insert task names)

unfoldable pub timer_queue : Bool → App → Capacities → Outcome (ℕ × ℕ × Idents)
unfolding queue_call
timer_queue debug app caps = fold (queue_call debug app.tasks caps) (schedule_calls app) (0, 1, [])

-- `sort_by` on the priorities, which is stable.
abbrev pub insert_task : Ident × Task → Tasks → Tasks
insert_task t [] = t ∷ []
insert_task t (u ∷ us) =
    if leb t.1.args.priority u.1.args.priority then t ∷ u ∷ us else u ∷ insert_task t us

abbrev pub sort_tasks : Tasks → Tasks
sort_tasks [] = []
sort_tasks (t ∷ ts) = insert_task t (sort_tasks ts)

-- `entry(priority).or_insert_with(..)`, with the iterator over the free interrupts as it stands.
unfoldable pub entry :
    ℕ → Dispatchers → FreeInterrupts → Outcome (Dispatcher × Dispatchers × FreeInterrupts)
entry priority ds free = elim (lookup priority ds) [
  | some d ↦ ok (d, ds, free)
  | none ↦ elim free [
    | [] ↦ panic
    | fi ∷ rest ↦
        let d : Dispatcher = record {
          attrs = fi.1.attrs;
          interrupt = fi.0;
          tasks = [];
          capacity = 0;
        } in
        ok (d, insert priority d ds, rest)
  ]
]

unfoldable pub dispatch :
    Bool
    → Capacities
    → Ident × Task
    → Dispatchers × FreeInterrupts
    → Outcome (Dispatchers × FreeInterrupts)
unfolding add8 entry
dispatch debug caps (name, task) (ds, free) = do
  (d, ds', free') ← entry task.args.priority ds free
  c ← expect (lookup name caps)
  capacity ← add8 debug d.capacity c
  ok (
    modify task.args.priority (λ _. record d { capacity = capacity; tasks = d.tasks ++ name ∷ [] })
        ds',
    free',
  )

unfoldable pub dispatchers : Bool → App → Capacities → Outcome (Dispatchers × FreeInterrupts)
unfolding dispatch
dispatchers debug app caps =
    fold (dispatch debug caps) (sort_tasks app.tasks) ([], app.free_interrupts)

-- `for` over names that all go into the set.
abbrev pub extend_set : Idents → Idents → Idents
extend_set [] set = set
extend_set (x ∷ xs) set = extend_set xs (set_insert x set)

pub record SpawnState : Type 0 where
  pub free_queues : HashMap Ident ℕ
  pub ready_queues : HashMap ℕ ℕ
  pub needs_send : Idents

-- One round of the first pass of the ceiling analysis of the queues.
unfoldable pub record_spawn : Tasks → Option ℕ × Ident → SpawnState → Outcome SpawnState
record_spawn tasks (none, task) s = ok s
record_spawn tasks (some priority, task) s = do
  free ← update task (λ c. ok (max c priority)) s.free_queues
  t ← expect (lookup task tasks)
  ready ← update t.args.priority (λ c. ok (max c priority)) s.ready_queues
  ok (record {
    free_queues = free;
    ready_queues = ready;
    needs_send =
        if eqb t.args.priority priority then s.needs_send else set_insert task s.needs_send;
  })

-- One round of the second pass: the free queues and the ceiling of the timer queue.
unfoldable pub record_schedule :
    Option ℕ × Ident → HashMap Ident ℕ × ℕ → Outcome (HashMap Ident ℕ × ℕ)
record_schedule (none, task) s = ok s
record_schedule (some priority, task) (free_queues, tq_ceiling) = do
  free ← update task (λ c. ok (max c priority)) free_queues
  ok (free, max tq_ceiling priority)

unfoldable pub spawn_pass : App → Dispatchers → Outcome SpawnState
unfolding record_spawn
spawn_pass app ds = fold (record_spawn app.tasks) (spawn_calls app) (record {
  free_queues = all_at 0 (keys app.tasks);
  ready_queues = all_at 0 (keys ds);
  needs_send = extend_set (app.init.args.spawn ++ app.init.args.schedule) [];
})

unfoldable pub schedule_pass : App → HashMap Ident ℕ → ℕ → Outcome (HashMap Ident ℕ × ℕ)
unfolding record_schedule
schedule_pass app free tq_priority = fold record_schedule (schedule_calls app) (free, tq_priority)

unfoldable pub analyze : Bool → App → Outcome Analysis
analyze debug app = do
  (owners, needs_sync) ← ownerships app
  caps ← capacities debug app
  (tq_capacity, tq_priority, tq_tasks) ← timer_queue debug app caps
  (ds, _) ← dispatchers debug app caps
  s ← spawn_pass app ds
  (free, tq_ceiling) ← schedule_pass app s.free_queues tq_priority
  ok (record {
    capacities = caps;
    dispatchers = ds;
    free_queues = free;
    needs_send = s.needs_send;
    needs_sync = needs_sync;
    ownerships = owners;
    ready_queues = s.ready_queues;
    timer_queue = record {
      capacity = tq_capacity;
      ceiling = tq_ceiling;
      priority = tq_priority;
      tasks = tq_tasks;
    };
  })
