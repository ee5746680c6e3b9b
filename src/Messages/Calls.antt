-- ===== src/Messages/Calls.antt =====
-- The generated `spawn` and `schedule` as functions, run without preemption: they return, and do
-- what their steps do.
pub mod Ends
use rtfm.Common.{
  ℕ, ◌+◌, ◌≡◌, refl, sym, ap, ◌∙◌, true, ◌⊎◌, inl, inr, none, some, Option-cases, ok, List, [], ◌∷◌,
  ◌++◌, In, arith, Bool, ltb, lt→ltb, ◌==◌, beq_self, nat_eq, string_eq,
}
use rtfm.Runtime.TimerQueue.{BinaryHeap, SysTick, NotReady, enqueue_unchecked}
use rtfm.Macro.Syntax.{Ident}
use rtfm.Messages.{
  Layout, Slot, slot_eq, put, Message, Store, take_free, write_input, write_scheduled, push_timer,
  forward, spawn, schedule, receive, pop_ready, read_slot, push_ready, pend,
}
use rtfm.Messages.Queue.{Spsc, Entries, count_if}
use rtfm.Messages.Steps.{
  Machine, Reach, here, next, boot, stamped, take, reject, fill, stamp, commit, delay, queue_to,
  call_to, waiting, popped, loaded, pop, leave, load, call,
}
use rtfm.Messages.Count.{one, one_self}
use rtfm.Messages.Ownership.{Owned, in_timer, nr_slot}
use rtfm.Messages.Ownership.Full.{placed, timer_room}
use rtfm.Messages.Ownership.Queues.{dequeued, dequeued_nil, take_free-none, in_free-take_free}
use rtfm.Messages.Ownership.Initial.{boot-Owned}
use rtfm.Messages.Ownership.Reached.{Reach-Owned, Owned-read}
use rtfm.Messages.Ownership.Receiving.{Owned-pop}
use rtfm.Messages.Fifo.{post}
use Ends.{
  Stored, before_end, given, before_end-Reach, spawn-some, schedule-some, free_head,
  slot_store-Stored, ready_items, dispatcher_pended, timer_entries,
}

module _ {F : Spsc ℕ} {R : Spsc Slot} {S : SysTick} {H : BinaryHeap (NotReady Ident)}
    {Input : Type 0} (layout : Layout) (E : Entries H layout.timer_capacity) where
  -- For code whose ready queues are claimed, for tasks of the timer queue, under ceilings that are
  -- at least the priority of the handler of SysTick: from a state that the generated code reaches
  -- after `pre_init` a call of `spawn` returns. If the free queue of the task is empty, it gives
  -- the input back and the steps to its end send nothing. Otherwise it takes the first index of the
  -- free queue, the slot's entries are then the arguments of the call, the slot is the last item of
  -- the ready queue of the task's priority, whose dispatcher is pended, and the steps to its end
  -- send this message and nothing else. Either way no call is left open.
  pub spawn-Reach :
      (syst : S.Syst) (m₀ : Message Input) (s : Machine F R S H Input)
      → Reach layout (boot layout syst m₀) s
      → (t : Ident) (m : Message Input)
      → (u : Machine F R S H Input) × Reach layout s u
        × (u.calls ≡ s.calls)
        × (((F.items (s.store.free t) ≡ [])
              × (spawn layout t m s.store ≡ ok (some m.input, u.store))
              × (u.sent ≡ s.sent))
            ⊎ ((spawn layout t m s.store ≡ ok (none, u.store))
                × (i : ℕ) × (F.items (s.store.free t) ≡ i ∷ F.items (u.store.free t))
                × Stored u.store (t, i) m
                × (R.items (u.store.ready (layout.level t))
                    ≡ R.items (s.store.ready (layout.level t)) ++ (t, i) ∷ [])
                × (u.store.pended (layout.level t) ≡ true)
                × (u.sent ≡ put (layout.level t) (s.sent (layout.level t) ++ (t, m) ∷ []) s.sent)))
  unfolding spawn forward push_ready pend
  spawn-Reach syst m₀ s r t m =
      let own =
        Reach-Owned layout E (boot layout syst m₀) s (boot-Owned F R S H Input layout E syst m₀)
          r in
      elim (Option-cases (take_free layout t s.store).0) [
        | inl e ↦ (
          record s { store = (take_free layout t s.store).1 },
          next here (reject t e refl),
          refl,
          inl (take_free-none layout s.store t e, rw (e, spawn) refl, refl),
        )
        | inr (i, e) ↦ (
          queue_to layout (t, i) (record (before_end layout E s own t m i) { calls = s.calls }),
          next (before_end-Reach layout E s own t m i e) (commit (t, i) [] s.calls refl refl),
          refl,
          inr (
            spawn-some layout E s own t m i e,
            i,
            free_head layout E s own t m i e,
            slot_store-Stored layout E s own t m i e,
            ready_items layout E s own t m i e,
            dispatcher_pended layout E s own t m i e,
            ap (λ n. put (layout.level t) (s.sent (layout.level t) ++ (t, n) ∷ []) s.sent)
                (given layout E s own t m i),
          ),
        )
      ]

  -- For code whose ready queues are claimed, for tasks of the timer queue, under ceilings that are
  -- at least the priority of the handler of SysTick: from a state that the generated code reaches
  -- after `pre_init` a call of `schedule` for a task of the timer queue returns. If the free queue
  -- of the task is empty, it gives the input back; otherwise it takes the first index of the free
  -- queue, the slot's entries are then the arguments of the call, and the timer queue has, next to
  -- the entries it had, one for the slot with the instant given. Either way nothing is sent, and no
  -- call is left open.
  pub schedule-Reach :
      (syst : S.Syst) (m₀ : Message Input) (s : Machine F R S H Input)
      → Reach layout (boot layout syst m₀) s
      → (t : Ident) (m : Message Input) → In t layout.timer_tasks
      → (u : Machine F R S H Input) × Reach layout s u
        × (u.calls ≡ s.calls)
        × (u.sent ≡ s.sent)
        × (((F.items (s.store.free t) ≡ [])
              × (schedule layout t m s.store ≡ ok (some m.input, u.store)))
            ⊎ ((schedule layout t m s.store ≡ ok (none, u.store))
                × (i : ℕ) × (F.items (s.store.free t) ≡ i ∷ F.items (u.store.free t))
                × Stored u.store (t, i) m
                × ((p : NotReady Ident → Bool)
                    → count_if p (E.entries u.store.timer.queue)
                      ≡ count_if p (
                          record { index = i; instant = m.baseline; task = t }
                          ∷ E.entries s.store.timer.queue))))
  unfolding schedule push_timer
  schedule-Reach syst m₀ s r t m task =
      let own =
        Reach-Owned layout E (boot layout syst m₀) s (boot-Owned F R S H Input layout E syst m₀)
          r in
      elim (Option-cases (take_free layout t s.store).0) [
        | inl e ↦ (
          record s { store = (take_free layout t s.store).1 },
          next here (reject t e refl),
          refl,
          refl,
          inl (take_free-none layout s.store t e, rw (e, schedule) refl),
        )
        | inr (i, e) ↦
            let w = before_end layout E s own t m i in
            (
              record w { store = push_timer layout (t, i) m.baseline w.store; calls = s.calls },
              next (before_end-Reach layout E s own t m i e) (
                  delay (t, i) [] s.calls refl task
                    (ap
                      (λ n. record w {
                        store = push_timer layout (t, i) n.baseline w.store;
                        calls = s.calls;
                      })
                      (sym (given layout E s own t m i)))),
              refl,
              refl,
              inr (
                schedule-some layout E s own t m i e,
                i,
                free_head layout E s own t m i e,
                slot_store-Stored layout E s own t m i e,
                timer_entries layout E s own t m i e task,
              ),
            )
      ]

  -- For code whose ready queues are claimed, for tasks of the timer queue, under ceilings that are
  -- at least the priority of the handler of SysTick: from a state that the generated code reaches
  -- after `pre_init` in which the dispatcher of a priority holds nothing, a round of its loop
  -- returns. If the ready queue is empty, so says the round; otherwise the steps to its end call a
  -- task with the first message of the queue, as it was sent.
  pub receive-Reach :
      (syst : S.Syst) (m₀ : Message Input) (s : Machine F R S H Input)
      → Reach layout (boot layout syst m₀) s
      → (l : ℕ) → s.dispatchers l ≡ waiting
      → (u : Machine F R S H Input) × Reach layout s u
        × (((R.items (s.store.ready l) ≡ []) × (receive layout l s.store ≡ ok (none, u.store)))
            ⊎ ((y : Slot) × (rest : List Slot) × (R.items (s.store.ready l) ≡ y ∷ rest)
                × (receive layout l s.store ≡ ok (some (y, s.arguments y), u.store))
                × (u.called ≡ put l (s.called l ++ post s.arguments y ∷ []) s.called)))
  unfolding receive pop_ready
  receive-Reach syst m₀ s r l w =
      let own =
        Reach-Owned layout E (boot layout syst m₀) s (boot-Owned F R S H Input layout E syst m₀)
          r in
      elim (Option-cases (pop_ready layout l s.store).0) [
        | inl e ↦ (
          record s { store = (pop_ready layout l s.store).1 },
          next here (leave l w e refl),
          inl (dequeued_nil R (s.store.ready l) e, rw (e, receive) refl),
        )
        | inr (y, e) ↦
            let v : Machine F R S H Input = record s {
              store = (pop_ready layout l s.store).1;
              dispatchers = put l (popped y) s.dispatchers;
            } in
            let read : read_slot layout y v.store ≡ ok (s.arguments y) =
              Owned-read layout E v (Owned-pop layout E s own l y w e) l y (rw (beq_self l) refl) in
            (
              call_to layout l y (s.arguments y)
                  (record v { dispatchers = put l (loaded y (s.arguments y)) v.dispatchers }),
              next
                  (next (next here (pop l y w e refl))
                    (load l y (s.arguments y) (rw (beq_self l) refl) read refl))
                  (call l y (s.arguments y) (rw (beq_self l) refl) refl),
              inr (
                y,
                R.items (R.dequeue (s.store.ready l)).1,
                dequeued R (s.store.ready l) y e,
                rw (e, receive, read) refl,
                refl,
              ),
            )
      ]
