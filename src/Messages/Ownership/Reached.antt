-- ===== src/Messages/Ownership/Reached.antt =====
-- In every state that is reached each slot is in one place.
use rtfm.Common.{
  ℕ, ◌≡◌, refl, sym, ap, subst, ◌∙◌, Bool-cases, inl, inr, some, none, ok, ok-injective, ◌∷◌, ◌++◌,
  arith, ltb, lt→ltb, nat_eq, if◌then◌else◌,
}
use rtfm.Runtime.Clock.{Instant}
use rtfm.Runtime.TimerQueue.{BinaryHeap, SysTick, NotReady}
use rtfm.Macro.Syntax.{Ident}
use rtfm.Messages.{
  Layout, Slot, slot_eq, put, Message, Store, write_input, write_scheduled, read_slot,
}
use rtfm.Messages.Queue.{Spsc, Entries, count_if}
use rtfm.Messages.Steps.{
  Machine, Step, Reach, here, next, boot, Stage, taken, filled, stamped, popped, take, reject, fill,
  stamp, commit, delay, tick, pass, pop, leave, load, call,
}
use rtfm.Messages.Count.{one_self}
use rtfm.Messages.Ownership.{in_option, is_call, places, Owned, in_popped}
use rtfm.Messages.Ownership.Full.{placed}
use rtfm.Messages.Ownership.Initial.{boot-Owned}
use rtfm.Messages.Ownership.Sending.{
  count-calls, Owned-take, Owned-reject, Owned-fill, Owned-stamp, Owned-delay,
}
use rtfm.Messages.Ownership.Queueing.{Owned-queue, Owned-tick}
use rtfm.Messages.Ownership.Receiving.{Owned-pop, Owned-leave, Owned-load, Owned-call}

module _ {F : Spsc ℕ} {R : Spsc Slot} {S : SysTick} {H : BinaryHeap (NotReady Ident)}
    {Input : Type 0} (layout : Layout) where
  pub write_input-ok :
      (y : Slot) (v : Input) (s s' : Store F R S H Input)
      → write_input layout y v s ≡ ok s'
      → record s { inputs = put y (some v) s.inputs } ≡ s'
  unfolding write_input
  write_input-ok y v s s' h = elim (Bool-cases (ltb y.1 (layout.capacity y.0))) [
    | inl p ↦ ok-injective (rw (p, write_input) at h)
    | inr p ↦ cc (rw (p, write_input) at h)
  ]

  pub write_scheduled-ok :
      (y : Slot) (v : Instant) (s s' : Store F R S H Input)
      → write_scheduled layout y v s ≡ ok s'
      → record s { scheduleds = put y (some v) s.scheduleds } ≡ s'
  unfolding write_scheduled
  write_scheduled-ok y v s s' h = elim (Bool-cases (ltb y.1 (layout.capacity y.0))) [
    | inl p ↦ ok-injective (rw (p, write_scheduled) at h)
    | inr p ↦ cc (rw (p, write_scheduled) at h)
  ]

  module _ (E : Entries H layout.timer_capacity) where
    -- What a dispatcher reads from the slot that it holds.
    pub Owned-read :
        (s : Machine F R S H Input)
        → Owned layout E s
        → (l : ℕ) (y : Slot) → s.dispatchers l ≡ popped y
        → read_slot layout y s.store ≡ ok (s.arguments y)
    unfolding read_slot
    Owned-read s own l y w =
        rw
          (
            lt→ltb y.1 (layout.capacity y.0) (placed layout E s own y y (omega (arith, here_one))),
            own.baseline y (omega (arith, here_one)),
            own.input y (omega (arith, here_one)),
            read_slot,
          )
          refl
      where
        level : layout.level y.0 ≡ l
        level = own.own_dispatcher l y (rw w (omega (arith, one_self y)))

        here_one : in_popped (s.dispatchers (layout.level y.0)) y ≡ 1
        here_one = rw (level, w) (one_self y)

    Step-Owned :
        (s u : Machine F R S H Input) → Step layout s u → Owned layout E s → Owned layout E u
    Step-Owned s u (take y m e e') own =
        subst (Owned layout E) (sym e') (Owned-take layout E s own y m e)
    Step-Owned s u (reject t e e') own =
        subst (Owned layout E) (sym e') (Owned-reject layout E s own t e)
    Step-Owned s u (fill y before after st e w e') own = subst (Owned layout E) (sym e') (
        subst
          (λ st. Owned layout E (record s { store = st; calls = before ++ (y, filled) ∷ after }))
          (write_input-ok y (s.arguments y).input s.store st w)
          (Owned-fill layout E s own y before after e))
    Step-Owned s u (stamp y before after st e w e') own = subst (Owned layout E) (sym e') (
        subst
          (λ st. Owned layout E (record s { store = st; calls = before ++ (y, stamped) ∷ after }))
          (write_scheduled-ok y (s.arguments y).baseline s.store st w)
          (Owned-stamp layout E s own y before after e))
    Step-Owned s u (commit y before after e e') own =
        let at = λ (st : Stage) (x : Slot).
          ap (count_if (is_call st x)) e ∙ count-calls st x before after (y, stamped) in
        subst (Owned layout E) (sym e') (
          Owned-queue layout E s own y (before ++ after) s.forwarding
            (λ x. omega (arith, at taken x)) (λ x. omega (arith, at filled x))
            (λ x. omega (arith, at stamped x)))
    Step-Owned s u (delay y before after e i e') own =
        subst (Owned layout E) (sym e') (Owned-delay layout E s own y before after e i)
    Step-Owned s u (tick v e e') own =
        subst (Owned layout E) (sym e') (Owned-tick layout E s own v e)
    Step-Owned s u (pass y e e') own = subst (Owned layout E) (sym e') (
        Owned-queue layout E s own y s.calls none (λ x. refl) (λ x. refl)
          (λ x. omega (arith, ap (λ o. in_option o x) e)))
    Step-Owned s u (pop l y w e e') own =
        subst (Owned layout E) (sym e') (Owned-pop layout E s own l y w e)
    Step-Owned s u (leave l w e e') own =
        subst (Owned layout E) (sym e') (Owned-leave layout E s own l e)
    Step-Owned s u (load l y m w e e') own =
        subst (Owned layout E) (sym e')
          (Owned-load layout E s own l y m w (ok-injective (sym e ∙ Owned-read s own l y w)))
    Step-Owned s u (call l y m w e') own =
        subst (Owned layout E) (sym e') (Owned-call layout E s own l y m w)

    pub Reach-Owned :
        (s u : Machine F R S H Input) → Owned layout E s → Reach layout s u → Owned layout E u
    Reach-Owned s u own here = own
    Reach-Owned s u own (next {t} r st) = Step-Owned t u st (Reach-Owned s t own r)

    -- For code whose ready queues are claimed, for tasks of the timer queue, under ceilings that
    -- are at least the priority of the handler of SysTick: in every state that the generated code
    -- reaches after `pre_init` each slot of a task is in exactly one place: the task's free queue,
    -- a call of `spawn` or `schedule`, the timer queue, the handler of SysTick, the ready queue of
    -- the task's priority, or its dispatcher; and an index that is no slot is in none.
    pub Reach-once :
        (syst : S.Syst) (m : Message Input) (u : Machine F R S H Input)
        → Reach layout (boot layout syst m) u
        → (x : Slot) → places layout E u x ≡ (if ltb x.1 (layout.capacity x.0) then 1 else 0)
    Reach-once syst m u r =
        (Reach-Owned (boot layout syst m) u (boot-Owned F R S H Input layout E syst m) r).once
