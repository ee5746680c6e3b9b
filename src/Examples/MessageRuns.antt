-- ===== src/Examples/MessageRuns.antt =====
-- The theorems on the message passing at an application with one task of two slots.
use rtfm.Common.{
  ℕ, ◌<◌, ◌≤◌, lookup, ◌≡◌, refl, sym, true, false, Bool, Bool-cases, ◌⊎◌, inl, inr, Option, none,
  some, List, [], ◌∷◌, ◌++◌, In, length, arith, ◌==◌, string_eq, nat_eq, eq_of_beq, if◌then◌else◌,
  ok,
}
use rtfm.Runtime.Clock.{at}
use rtfm.Macro.Syntax.{Ident}
use rtfm.Messages.{
  Layout, Slot, slot_eq, put, Message, Store, take_free, write_input, write_scheduled, forward,
  pop_ready, read_slot, pre_init, fill, push_ready, pend, spawn, schedule, receive,
}
use rtfm.Messages.Queue.{Spsc, count_if}
use rtfm.Messages.Calls.Ends.{Stored}
use rtfm.Runtime.TimerQueue.{NotReady}
use rtfm.Messages.Steps
use rtfm.Messages.Steps.{
  Machine, Step, Reach, here, next, boot, taken, filled, stamped, waiting, popped, loaded, take_to,
  queue_to,
}
use rtfm.Messages.Ownership.{places}
use rtfm.Messages.Ownership.Reached.{Reach-once}
use rtfm.Messages.Ownership.Safe.{Reach-defined}
use rtfm.Messages.Fifo.{post, in_hand, queued}
use rtfm.Messages.Fifo.Reached.{Reach-InOrder}
use rtfm.Macro.Analyze.{Dispatcher}
use rtfm.Macro.Codegen.Sizes.{mk_typenum_capacity, first_power}
use rtfm.Messages.Analysed.{capacity_in}
use rtfm.Messages.Analysed.Build.{analysed_layout, application_room}
use rtfm.Examples.Chatty.{chatty, chatty_analysis, chatty_done, timer_locked}
use rtfm.Messages.Calls.{spawn-Reach, schedule-Reach, receive-Reach}
use rtfm.Examples.TimerRuns.{heap, heap_entries, sys_tick, Registers}

-- A queue as its capacity and the list of its items.
abbrev dequeue : {A : Type 0} → ℕ × List A → Option A × (ℕ × List A)
dequeue (n, []) = (none, (n, []))
dequeue (n, x ∷ xs) = (some x, (n, xs))

dequeue-none : {A : Type 0} (q : ℕ × List A) → q.1 ≡ [] → dequeue q ≡ (none, q)
dequeue-none (n, []) e = refl
dequeue-none (n, x ∷ xs) e = cc

dequeue-some :
    {A : Type 0} (q : ℕ × List A) (a : A) (rest : List A)
    → q.1 ≡ a ∷ rest
    → ((dequeue q).0 ≡ some a) × ((dequeue q).1.1 ≡ rest)
dequeue-some (n, []) a rest e = cc
dequeue-some (n, x ∷ xs) a rest e = (cc, cc)

capacity-dequeue : {A : Type 0} (q : ℕ × List A) → (dequeue q).1.0 ≡ q.0
capacity-dequeue (n, []) = refl
capacity-dequeue (n, x ∷ xs) = refl

abbrev list_queue : (A : Type 0) → Spsc A
list_queue A = record {
  Queue = ℕ × List A;
  new = λ n. (n, []);
  capacity = λ q. q.0;
  items = λ q. q.1;
  enqueue_unchecked = λ a q. (q.0, q.1 ++ a ∷ []);
  dequeue = dequeue;
  items-new = λ n. refl;
  capacity-new = λ n. refl;
  items-enqueue = λ a q l. refl;
  capacity-enqueue = λ a q. refl;
  dequeue-none = dequeue-none;
  dequeue-some = dequeue-some;
  capacity-dequeue = capacity-dequeue;
}

abbrev slots_of : Ident → ℕ
slots_of t = if t == "a" then 2 else 0

in_tasks : (t : Ident) → 0 < slots_of t → In t ("a" ∷ [])
in_tasks t h = elim (Bool-cases (t == "a")) [
  | inl p ↦ inl (sym (eq_of_beq t "a" p))
  | inr p ↦ absurd (ground (arith, p, h))
]

abbrev one_task : Layout
one_task = record {
  level = λ t. 1;
  capacity = slots_of;
  free_capacity = slots_of;
  tasks = λ l. "a" ∷ [];
  ready_capacity = λ l. 2;
  timer_tasks = "a" ∷ [];
  timer_capacity = 2;
  ready_ceiling = λ l. 2;
  timer_priority = 1;
  in_tasks = in_tasks;
  free_fits = λ t. omega arith;
  ready_fits = λ l. omega arith;
  timer_fits = omega arith;
  timer_locked = λ t i. omega arith;
}

abbrev Mach : Type 0
Mach = Machine (list_queue ℕ) (list_queue Slot) sys_tick heap ℕ

abbrev message : ℕ → Message ℕ
message n = record { input = n; baseline = at n }

abbrev registers : Registers
registers = record { interrupt = false; reload = 0; pending = false }

abbrev s0 : Mach
s0 = boot one_task registers (message 0)

abbrev s1 : Mach
s1 = take_to one_task ("a", 0) (message 7) s0

abbrev s2 : Mach
s2 = record s1 {
  store = record s1.store { inputs = put ("a", 0) (some 7) s1.store.inputs };
  calls = (("a", 0), filled) ∷ [];
}

abbrev s3 : Mach
s3 = record s2 {
  store = record s2.store { scheduleds = put ("a", 0) (some (at 7)) s2.store.scheduleds };
  calls = (("a", 0), stamped) ∷ [];
}

abbrev s4 : Mach
s4 = queue_to one_task ("a", 0) (record s3 { calls = [] })

abbrev s5 : Mach
s5 = record s4 {
  store = (pop_ready one_task 1 s4.store).1;
  dispatchers = put 1 (popped ("a", 0)) s4.dispatchers;
}

reach3 : Reach one_task s0 s3
unfolding take_free write_input write_scheduled pre_init fill
reach3 =
    next
      (next (next here (Steps.take ("a", 0) (message 7) refl refl))
        (Steps.fill ("a", 0) [] [] s2.store refl refl refl))
      (Steps.stamp ("a", 0) [] [] s3.store refl refl refl)

reach4 : Reach one_task s0 s4
reach4 = next reach3 (Steps.commit ("a", 0) [] [] refl refl)

reach5 : Reach one_task s0 s5
unfolding take_free pre_init fill forward push_ready pend pop_ready
reach5 = next reach4 (Steps.pop 1 ("a", 0) refl refl refl)

Reach-once_example : places one_task (heap_entries 2) s5 ("a", 0) ≡ 1
Reach-once_example = Reach-once one_task (heap_entries 2) registers (message 0) s5 reach5 ("a", 0)

Reach-defined_example :
    (In (("a", 0), taken) s5.calls
      → (s : Store (list_queue ℕ) (list_queue Slot) sys_tick heap ℕ) × (write_input one_task
            ("a", 0)
            7
            s5.store
          ≡ ok s))
    × (In (("a", 0), filled) s5.calls
        → (s : Store (list_queue ℕ) (list_queue Slot) sys_tick heap ℕ) × (write_scheduled one_task
              ("a", 0)
              (at 7)
              s5.store
            ≡ ok s))
    × ((l : ℕ)
        → s5.dispatchers l ≡ popped ("a", 0)
        → read_slot one_task ("a", 0) s5.store ≡ ok (message 7))
Reach-defined_example =
    Reach-defined one_task (heap_entries 2) registers (message 0) s5 reach5 ("a", 0)

Reach-InOrder_example :
    ("a", message 7) ∷ [] ≡ s5.called 1 ++ (in_hand s5.arguments (s5.dispatchers 1) ++ queued s5 1)
Reach-InOrder_example = Reach-InOrder one_task (heap_entries 2) registers (message 0) s5 reach5 1

spawn-Reach_example :
    (u : Mach) × Reach one_task s5 u
    × (u.calls ≡ [])
    × ((((s5.store.free "a").1 ≡ [])
          × (spawn one_task "a" (message 8) s5.store ≡ ok (some 8, u.store))
          × (u.sent ≡ s5.sent))
        ⊎ ((spawn one_task "a" (message 8) s5.store ≡ ok (none, u.store))
            × (i : ℕ) × ((s5.store.free "a").1 ≡ i ∷ (u.store.free "a").1)
            × Stored u.store ("a", i) (message 8)
            × ((u.store.ready 1).1 ≡ (s5.store.ready 1).1 ++ ("a", i) ∷ [])
            × (u.store.pended 1 ≡ true)
            × (u.sent ≡ put 1 (s5.sent 1 ++ ("a", message 8) ∷ []) s5.sent)))
spawn-Reach_example =
    spawn-Reach one_task (heap_entries 2) registers (message 0) s5 reach5 "a" (message 8)

schedule-Reach_example :
    (u : Mach) × Reach one_task s5 u
    × (u.calls ≡ [])
    × (u.sent ≡ s5.sent)
    × ((((s5.store.free "a").1 ≡ [])
          × (schedule one_task "a" (message 8) s5.store ≡ ok (some 8, u.store)))
        ⊎ ((schedule one_task "a" (message 8) s5.store ≡ ok (none, u.store))
            × (i : ℕ) × ((s5.store.free "a").1 ≡ i ∷ (u.store.free "a").1)
            × Stored u.store ("a", i) (message 8)
            × ((p : NotReady Ident → Bool)
                → count_if p ((heap_entries 2).entries u.store.timer.queue)
                  ≡ count_if p (
                      record { index = i; instant = at 8; task = "a" }
                      ∷ (heap_entries 2).entries s5.store.timer.queue))))
schedule-Reach_example =
    schedule-Reach one_task (heap_entries 2) registers (message 0) s5 reach5 "a" (message 8)
      (inl refl)

receive-Reach_example :
    (u : Mach) × Reach one_task s4 u
    × ((((s4.store.ready 1).1 ≡ []) × (receive one_task 1 s4.store ≡ ok (none, u.store)))
        ⊎ ((y : Slot) × (rest : List Slot) × ((s4.store.ready 1).1 ≡ y ∷ rest)
            × (receive one_task 1 s4.store ≡ ok (some (y, s4.arguments y), u.store))
            × (u.called ≡ put 1 (s4.called 1 ++ post s4.arguments y ∷ []) s4.called)))
receive-Reach_example =
    receive-Reach one_task (heap_entries 2) registers (message 0) s4 reach4 1 refl

small_tasks : (t : Ident) → capacity_in chatty_analysis.capacities t ≤ 128
small_tasks t = elim (Bool-cases ("blink" == t)) [
  | inl p ↦ rw (p, capacity_in) (omega arith)
  | inr p ↦ elim (Bool-cases ("log" == t)) [
    | inl q ↦ rw (p, q, capacity_in) (omega arith)
    | inr q ↦ rw (p, q, capacity_in) (omega arith)
  ]
]

small_dispatchers :
    (l : ℕ) (d : Dispatcher) → lookup l chatty_analysis.dispatchers ≡ some d → d.capacity ≤ 128
small_dispatchers l d e = ground (arith, e)

abbrev chatty_layout : Layout
chatty_layout =
    analysed_layout chatty chatty_analysis chatty_done small_tasks small_dispatchers timer_locked

abbrev logging : Mach
logging = take_to chatty_layout ("log", 0) (message 7) (boot chatty_layout registers (message 0))

logs : Reach chatty_layout (boot chatty_layout registers (message 0)) logging
unfolding analysed_layout mk_typenum_capacity first_power take_free pre_init fill
logs = next here (Steps.take ("log", 0) (message 7) refl refl)

application_room_example :
    ((In (("log", 0), stamped) logging.calls ⊎ (logging.forwarding ≡ some ("log", 0)))
      → length (logging.store.ready 1).1 < (logging.store.ready 1).0)
    × (In (("log", 0), stamped) logging.calls
        → In "log" chatty_analysis.timer_queue.tasks
        → length logging.store.timer.queue < 10)
    × ((l : ℕ) (n : Message ℕ)
        → logging.dispatchers l ≡ loaded ("log", 0) n
        → length (logging.store.free "log").1 < (logging.store.free "log").0)
application_room_example =
    application_room chatty chatty_analysis chatty_done small_tasks small_dispatchers timer_locked
      (list_queue ℕ) (list_queue Slot) sys_tick heap ℕ (heap_entries 10) registers (message 0)
      logging logs ("log", 0)
