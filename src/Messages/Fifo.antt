-- ===== src/Messages/Fifo.antt =====
-- The ready queues against their specification: for each priority a list of messages, to which
-- `spawn` and the timer queue add at the end and from which the dispatcher takes at the front.
pub mod Kept
pub mod Reached
use rtfm.Common.{
  ℕ, suc, ◌+◌, ◌≤◌, ◌<◌, ◌≡◌, refl, sym, ap, ap₂, subst, ◌∙◌, Bool, true, false, Bool-cases, inl,
  inr, Option, none, some, ok, ok-injective, List, [], ◌∷◌, ◌++◌, map, map-append, append_assoc,
  append-nil, arith, Eq, ◌==◌, eq_of_beq, beq_of_eq, beq_self, nat_eq, string_eq, dec_lt, length,
  if◌then◌else◌,
}
use rtfm.Runtime.TimerQueue.{BinaryHeap, SysTick, NotReady}
use rtfm.Macro.Syntax.{Ident}
use rtfm.Messages.{
  Layout, Slot, slot_eq, put, put-All, Message, Store, take_free, push_ready, pend, forward,
  pop_ready, pre_init, push_timer, put_free,
}
use rtfm.Messages.Queue.{Spsc, Entries, count_if}
use rtfm.Messages.Steps.{
  Machine, Step, Reach, here, next, boot, Stage, taken, filled, stamped, Phase, waiting, popped,
  loaded, take, reject, fill, stamp, commit, delay, tick, pass, pop, leave, load, call, Post,
  queue_to, call_to,
}
use rtfm.Messages.Count.{one, one_self, count}
use rtfm.Messages.Ownership.{in_free, Owned, in_popped, in_loaded, in_calls, in_option, is_call}
use rtfm.Messages.Ownership.Queues.{dequeued, dequeued_none, in_free-take_free}
use rtfm.Messages.Ownership.Full.{ready_room}
use rtfm.Messages.Ownership.Sending.{count-calls}
use rtfm.Messages.Ownership.Initial.{boot-Owned}

module _ {Input : Type 0} where
  abbrev pub post : (Slot → Message Input) → Slot → Post Input
  post arguments y = (y.0, arguments y)

  -- The message that a dispatcher has taken and not yet delivered.
  abbrev pub in_hand : (Slot → Message Input) → Phase Input → List (Post Input)
  in_hand arguments waiting = []
  in_hand arguments (popped y) = post arguments y ∷ []
  in_hand arguments (loaded y m) = (y.0, m) ∷ []

module _ {F : Spsc ℕ} {R : Spsc Slot} {S : SysTick} {H : BinaryHeap (NotReady Ident)}
    {Input : Type 0} where
  -- The messages of a ready queue, first to last.
  abbrev pub queued : Machine F R S H Input → ℕ → List (Post Input)
  queued s l = map (post s.arguments) (R.items (s.store.ready l))

  abbrev pub InOrder : Machine F R S H Input → ℕ → Type 0
  InOrder s l = s.sent l ≡ s.called l ++ (in_hand s.arguments (s.dispatchers l) ++ queued s l)
