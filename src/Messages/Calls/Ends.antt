-- ===== src/Messages/Calls/Ends.antt =====
-- A call of `spawn` or `schedule` that finds a free slot, up to its last step and through it.
use rtfm.Common.{
  ℕ, ◌≡◌, refl, true, none, some, ok, [], ◌∷◌, ◌++◌, In, arith, Bool, ltb, lt→ltb, beq_self, nat_eq,
  string_eq,
}
use rtfm.Runtime.TimerQueue.{BinaryHeap, SysTick, NotReady, enqueue_unchecked}
use rtfm.Macro.Syntax.{Ident}
use rtfm.Messages.{
  Layout, Slot, slot_eq, put, Message, Store, take_free, write_input, write_scheduled, push_timer,
  forward, spawn, schedule, push_ready, pend,
}
use rtfm.Messages.Queue.{Spsc, Entries, count_if}
use rtfm.Messages.Steps.{Machine, Reach, here, next, stamped, take, fill, stamp}
use rtfm.Messages.Count.{one, one_self}
use rtfm.Messages.Ownership.{Owned}
use rtfm.Messages.Ownership.Full.{placed, ready_room, timer_room}
use rtfm.Messages.Ownership.Queues.{dequeued, in_free-take_free}
use rtfm.Messages.Ownership.Reached.{Reach-Owned}

module _ {F : Spsc ℕ} {R : Spsc Slot} {S : SysTick} {H : BinaryHeap (NotReady Ident)}
    {Input : Type 0} where
  -- Both entries of the slot are those of the message.
  abbrev pub Stored : Store F R S H Input → Slot → Message Input → Type 0
  Stored s x m = (s.inputs x ≡ some m.input) × (s.scheduleds x ≡ some m.baseline)

module _ {F : Spsc ℕ} {R : Spsc Slot} {S : SysTick} {H : BinaryHeap (NotReady Ident)}
    {Input : Type 0} (layout : Layout) (E : Entries H layout.timer_capacity)
    (s : Machine F R S H Input) (own : Owned layout E s) (t : Ident) (m : Message Input) where
  -- The statics once the input is written, and once both entries are.
  abbrev pub input_store : ℕ → Store F R S H Input
  input_store i = record (take_free layout t s.store).1 {
    inputs = put (t, i) (some m.input) (take_free layout t s.store).1.inputs;
  }

  abbrev pub slot_store : ℕ → Store F R S H Input
  slot_store i = record (input_store i) {
    scheduleds = put (t, i) (some m.baseline) (take_free layout t s.store).1.scheduleds;
  }

  -- The state of a call of `spawn` or `schedule` before its last step.
  abbrev pub before_end : ℕ → Machine F R S H Input
  before_end i = record s {
    store = slot_store i;
    calls = ((t, i), stamped) ∷ s.calls;
    arguments = put (t, i) m s.arguments;
  }

  slot_self : (i : ℕ) → one {A = Slot} (t, i) (t, i) ≡ 1
  slot_self i = one_self {A = Slot} (t, i)

  pub given : (i : ℕ) → put (t, i) m s.arguments (t, i) ≡ m
  given i = rw (beq_self {K = Slot} (t, i)) refl

  module _ (i : ℕ) (e : (take_free layout t s.store).0 ≡ some i) where
    in_bounds : ltb i (layout.capacity t) ≡ true
    in_bounds = lt→ltb i (layout.capacity t) (
        placed layout E s own (t, i) (t, i)
          (omega (arith, slot_self i, in_free-take_free layout s.store (t, i) (t, i) e)))

    pub before_end-Reach : Reach layout s (before_end i)
    unfolding write_input write_scheduled
    before_end-Reach =
        next
          (next (next here (take (t, i) m e refl))
            (fill (t, i) [] s.calls (input_store i) refl (rw (in_bounds, given i) refl) refl))
          (stamp (t, i) [] s.calls (slot_store i) refl (rw (in_bounds, given i) refl) refl)

    pub spawn-some : spawn layout t m s.store ≡ ok (none, forward layout (t, i) (slot_store i))
    unfolding spawn write_input write_scheduled forward
    spawn-some = rw (e, spawn, in_bounds) refl

    pub schedule-some :
        schedule layout t m s.store ≡ ok (none, push_timer layout (t, i) m.baseline (slot_store i))
    unfolding schedule write_input write_scheduled
    schedule-some = rw (e, schedule, in_bounds) refl

    before_end-Owned : Owned layout E (before_end i)
    before_end-Owned = Reach-Owned layout E s (before_end i) own before_end-Reach

    pub free_head : F.items (s.store.free t) ≡ i ∷ F.items ((take_free layout t s.store).1.free t)
    unfolding take_free
    free_head = rw (beq_self t) (dequeued F (s.store.free t) i e)

    -- The slot holds the message.
    pub slot_store-Stored : Stored (slot_store i) (t, i) m
    slot_store-Stored = rw (beq_self {K = Slot} (t, i)) (refl, refl)

    -- At the end of `spawn` the slot is the last item of its ready queue.
    pub ready_items :
        R.items ((forward layout (t, i) (slot_store i)).ready (layout.level t))
        ≡ R.items (s.store.ready (layout.level t)) ++ (t, i) ∷ []
    unfolding forward push_ready pend take_free
    ready_items = rw (beq_self (layout.level t)) (
        R.items-enqueue (t, i) (s.store.ready (layout.level t))
          (ready_room layout E (before_end i) before_end-Owned (t, i) (λ z. omega arith)))

    pub dispatcher_pended : (forward layout (t, i) (slot_store i)).pended (layout.level t) ≡ true
    unfolding forward pend
    dispatcher_pended = rw (beq_self (layout.level t)) refl

    -- At the end of `schedule` the timer queue has one more entry, for the slot and the instant.
    pub timer_entries :
        In t layout.timer_tasks
        → (p : NotReady Ident → Bool)
        → count_if p (E.entries (push_timer layout (t, i) m.baseline (slot_store i)).timer.queue)
          ≡ count_if p
              (record { index = i; instant = m.baseline; task = t } ∷ E.entries s.store.timer.queue)
    unfolding push_timer enqueue_unchecked take_free
    timer_entries task p =
        E.entries-push p _ s.store.timer.queue
          (timer_room layout E (before_end i) before_end-Owned (t, i) (λ z. omega arith) task)
