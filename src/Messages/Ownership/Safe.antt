-- ===== src/Messages/Ownership/Safe.antt =====
-- In every state that is reached no queue overflows, and no access to the arrays is undefined.
use rtfm.Common.{
  ℕ, ◌+◌, ◌≤◌, ◌<◌, ◌≡◌, refl, sym, ap, subst, ◌∙◌, true, Bool-cases, inl, inr, some, ok, length,
  In, arith, ltb, lt→ltb, ◌==◌, eq_of_beq, ◌⊎◌, nat_eq,
}
use rtfm.Runtime.TimerQueue.{BinaryHeap, SysTick, NotReady}
use rtfm.Macro.Syntax.{Ident}
use rtfm.Messages.{
  Layout, Slot, slot_eq, put, Message, Store, write_input, write_scheduled, read_slot,
}
use rtfm.Messages.Queue.{Spsc, Entries}
use rtfm.Messages.Steps.{Machine, Reach, boot, Stage, taken, filled, stamped, popped, loaded}
use rtfm.Messages.Count.{one, one_self, count-In}
use rtfm.Messages.Ownership.{in_ready, in_option, in_calls, is_call, places, Owned, in_loaded}
use rtfm.Messages.Ownership.Full.{free_room, ready_room, timer_room, placed}
use rtfm.Messages.Ownership.Initial.{boot-Owned}
use rtfm.Messages.Ownership.Reached.{Reach-Owned, Owned-read}

module _ {F : Spsc ℕ} {R : Spsc Slot} {S : SysTick} {H : BinaryHeap (NotReady Ident)}
    {Input : Type 0} (layout : Layout) where
  module _ (E : Entries H layout.timer_capacity) where
    call_held :
        (u : Machine F R S H Input) (st : Stage) (y x : Slot)
        → In (y, st) u.calls
        → one y x ≤ in_calls st u x
    call_held u st y x i = elim (Bool-cases (y == x)) [
      | inl p ↦ rw p (count-In (is_call st x) (y, st) u.calls i (same st p))
      | inr p ↦ rw p (omega arith)
    ]
      where
        same : (st : Stage) → (y == x) ≡ true → is_call st x (y, st) ≡ true
        same taken p = p
        same filled p = p
        same stamped p = p

    -- In every state that the generated code reaches after `pre_init`, an `enqueue_unchecked` or
    -- `push_unchecked` that may come next finds room: in the ready queue for a slot that a call of
    -- `spawn` has written or that the handler of SysTick forwards, in the timer queue for one that a
    -- call of `schedule` has written, and in the free queue for one that a dispatcher has read.
    pub Reach-room :
        (syst : S.Syst) (m : Message Input) (u : Machine F R S H Input)
        → Reach layout (boot layout syst m) u
        → (y : Slot)
        → ((In (y, stamped) u.calls ⊎ (u.forwarding ≡ some y))
            → length (R.items (u.store.ready (layout.level y.0)))
              < R.capacity (u.store.ready (layout.level y.0)))
          × (In (y, stamped) u.calls
              → In y.0 layout.timer_tasks
              → length (E.entries u.store.timer.queue) < layout.timer_capacity)
          × ((l : ℕ) (n : Message Input)
              → u.dispatchers l ≡ loaded y n
              → length (F.items (u.store.free y.0)) < F.capacity (u.store.free y.0))
    Reach-room syst m u r y =
        let own =
          Reach-Owned layout E (boot layout syst m) u (boot-Owned F R S H Input layout E syst m)
            r in
        (
          λ i. ready_room layout E u own y (λ x. ready i x),
          λ i j. timer_room layout E u own y (λ x. omega (arith, call_held u stamped y x i)) j,
          λ l n w. free_room layout E u own y (λ x. omega (arith, dispatcher own l n w x)),
        )
      where
        ready :
            In (y, stamped) u.calls ⊎ (u.forwarding ≡ some y)
            → (x : Slot) → one y x + in_ready layout u.store x ≤ places layout E u x
        ready (inl i) x = omega (arith, call_held u stamped y x i)
        ready (inr e) x = omega (arith, ap (λ o. in_option o x) e)

        dispatcher :
            Owned layout E u
            → (l : ℕ) (n : Message Input) → u.dispatchers l ≡ loaded y n
            → (x : Slot) → one y x ≤ in_loaded (u.dispatchers (layout.level x.0)) x
        dispatcher own l n w x = elim (Bool-cases (y == x)) [
          | inl p ↦
              subst (λ k. one y x ≤ in_loaded (u.dispatchers k) x)
                (sym (own.own_dispatcher l y (rw w (omega (arith, one_self y))))
                  ∙ ap (λ z. layout.level z.0) (eq_of_beq y x p))
                (rw w (omega arith))
          | inr p ↦ rw p (omega arith)
        ]

    -- For code whose ready queues are claimed, for tasks of the timer queue, under ceilings that
    -- are at least the priority of the handler of SysTick: in every state that the generated code
    -- reaches after `pre_init` no access to the arrays is undefined: the writes of a call are in
    -- bounds, and a dispatcher that holds a slot finds both of its entries initialized, with the
    -- arguments of the call that took the slot.
    pub Reach-defined :
        (syst : S.Syst) (m : Message Input) (u : Machine F R S H Input)
        → Reach layout (boot layout syst m) u
        → (y : Slot)
        → (In (y, taken) u.calls
            → (s : Store F R S H Input) × (write_input layout y (u.arguments y).input u.store
                ≡ ok s))
          × (In (y, filled) u.calls
              → (s : Store F R S H Input) × (write_scheduled layout y
                    (u.arguments y).baseline
                    u.store
                  ≡ ok s))
          × ((l : ℕ) → u.dispatchers l ≡ popped y → read_slot layout y u.store ≡ ok (u.arguments y))
    unfolding write_input write_scheduled
    Reach-defined syst m u r y =
        let own =
          Reach-Owned layout E (boot layout syst m) u (boot-Owned F R S H Input layout E syst m)
            r in
        (
          λ i. (
            record u.store { inputs = put y (some (u.arguments y).input) u.store.inputs },
            rw (inside own taken i, write_input) refl,
          ),
          λ i. (
            record u.store {
              scheduleds = put y (some (u.arguments y).baseline) u.store.scheduleds;
            },
            rw (inside own filled i, write_scheduled) refl,
          ),
          λ l w. Owned-read layout E u own l y w,
        )
      where
        inside :
            Owned layout E u
            → (st : Stage) → In (y, st) u.calls
            → ltb y.1 (layout.capacity y.0) ≡ true
        inside own taken i =
            lt→ltb y.1 (layout.capacity y.0)
              (placed layout E u own y y (omega (arith, one_self y, call_held u taken y y i)))
        inside own filled i =
            lt→ltb y.1 (layout.capacity y.0)
              (placed layout E u own y y (omega (arith, one_self y, call_held u filled y y i)))
        inside own stamped i =
            lt→ltb y.1 (layout.capacity y.0)
              (placed layout E u own y y (omega (arith, one_self y, call_held u stamped y y i)))
