-- ===== src/Messages/Fifo/Reached.antt =====
-- The order of the messages in every state that is reached.
use rtfm.Common.{
  ℕ, ◌≡◌, sym, ap, subst, ◌∙◌, none, ok-injective, ◌∷◌, ◌++◌, map, arith, nat_eq, string_eq,
}
use rtfm.Runtime.TimerQueue.{BinaryHeap, SysTick, NotReady}
use rtfm.Macro.Syntax.{Ident}
use rtfm.Messages.{Layout, Slot, slot_eq, Message, take_free, pre_init, push_timer}
use rtfm.Messages.Queue.{Spsc, Entries, count_if}
use rtfm.Messages.Steps.{
  Machine, Step, Reach, here, next, boot, filled, stamped, take, reject, fill, stamp, commit, delay,
  tick, pass, pop, leave, load, call,
}
use rtfm.Messages.Ownership.{Owned, in_option, is_call}
use rtfm.Messages.Ownership.Full.{ready_room}
use rtfm.Messages.Ownership.Sending.{count-calls}
use rtfm.Messages.Ownership.Initial.{boot-Owned}
use rtfm.Messages.Ownership.Reached.{Reach-Owned, write_input-ok, write_scheduled-ok, Owned-read}
use rtfm.Messages.Fifo.{post, in_hand, queued, InOrder}
use rtfm.Messages.Fifo.Kept.{
  InOrder-take, InOrder-queue, InOrder-pop, InOrder-leave, InOrder-load, InOrder-call,
}

module _ {F : Spsc ℕ} {R : Spsc Slot} {S : SysTick} {H : BinaryHeap (NotReady Ident)}
    {Input : Type 0} (layout : Layout) where
  module _ (E : Entries H layout.timer_capacity) where
    Step-InOrder :
        (s u : Machine F R S H Input) (l : ℕ)
        → Step layout s u
        → Owned layout E s
        → InOrder s l
        → InOrder u l
    unfolding take_free push_timer
    Step-InOrder s u l (take y m e e') own h =
        subst (λ z. InOrder z l) (sym e') (InOrder-take layout E s y m l own e h)
    Step-InOrder s u l (reject t e e') own h = subst (λ z. InOrder z l) (sym e') h
    Step-InOrder s u l (fill y before after st e w e') own h =
        subst (λ z. InOrder z l) (sym e')
          (subst (λ st. InOrder (record s { store = st; calls = before ++ (y, filled) ∷ after }) l)
            (write_input-ok layout y (s.arguments y).input s.store st w) h)
    Step-InOrder s u l (stamp y before after st e w e') own h =
        subst (λ z. InOrder z l) (sym e')
          (subst (λ st. InOrder (record s { store = st; calls = before ++ (y, stamped) ∷ after }) l)
            (write_scheduled-ok layout y (s.arguments y).baseline s.store st w) h)
    Step-InOrder s u l (commit y before after e e') own h =
        subst (λ z. InOrder z l) (sym e')
          (InOrder-queue layout s y (before ++ after) s.forwarding l
            (ready_room layout E s own y (λ x. omega (
              arith,
              ap (count_if (is_call stamped x)) e,
              count-calls stamped x before after (y, stamped),
            )))
            h)
    Step-InOrder s u l (delay y before after e i e') own h = subst (λ z. InOrder z l) (sym e') h
    Step-InOrder s u l (tick v e e') own h = subst (λ z. InOrder z l) (sym e') h
    Step-InOrder s u l (pass y e e') own h =
        subst (λ z. InOrder z l) (sym e')
          (InOrder-queue layout s y s.calls none l
            (ready_room layout E s own y (λ x. omega (arith, ap (λ o. in_option o x) e))) h)
    Step-InOrder s u l (pop k y w e e') own h =
        subst (λ z. InOrder z l) (sym e') (InOrder-pop layout s k y l w e h)
    Step-InOrder s u l (leave k w e e') own h =
        subst (λ z. InOrder z l) (sym e') (InOrder-leave layout s k l e h)
    Step-InOrder s u l (load k y m w e e') own h =
        subst (λ z. InOrder z l) (sym e')
          (InOrder-load layout s k y m l w (ok-injective (sym e ∙ Owned-read layout E s own k y w))
            h)
    Step-InOrder s u l (call k y m w e') own h =
        subst (λ z. InOrder z l) (sym e') (InOrder-call layout s k y m l w h)

    -- For code whose ready queues are claimed, for tasks of the timer queue, under ceilings that
    -- are at least the priority of the handler of SysTick: in every state that the generated code
    -- reaches after `pre_init`, with the calls of `spawn` and `schedule`, the handler of SysTick
    -- and the dispatchers interleaved in any way, the messages put in the ready queue of a priority
    -- are, in order, those that the tasks were called with, the one that the dispatcher holds and
    -- those in the queue, with the arguments that their senders gave.
    pub Reach-InOrder :
        (syst : S.Syst) (m : Message Input) (u : Machine F R S H Input)
        → Reach layout (boot layout syst m) u
        → (l : ℕ) → u.sent l ≡ u.called l ++ (in_hand u.arguments (u.dispatchers l) ++ queued u l)
    unfolding pre_init
    Reach-InOrder syst m u here l =
        sym (ap (map (post (λ y. m))) (R.items-new (layout.ready_capacity l)))
    Reach-InOrder syst m u (next {t} r st) l =
        Step-InOrder t u l st
          (Reach-Owned layout E (boot layout syst m) t (boot-Owned F R S H Input layout E syst m) r)
          (Reach-InOrder syst m t r l)
