-- ===== src/Messages/Ownership/Queueing.antt =====
-- A slot that goes to its ready queue, from `spawn` or from the timer queue, and a round of the
-- timer queue's handler keep the ownership.
use rtfm.Common.{
  ℕ, ◌+◌, ◌≡◌, sym, ap, ◌∙◌, Bool-cases, Option-cases, inl, inr, Option, none, List, arith, ◌==◌,
  eq_of_beq, beq_of_eq, nat_eq, string_eq, if◌then◌else◌,
}
use rtfm.Runtime.Clock.{wrapping_sub, is_negative, now}
use rtfm.Runtime.TimerQueue.{BinaryHeap, SysTick, NotReady, poll}
use rtfm.Macro.Syntax.{Ident}
use rtfm.Messages.{Layout, Slot, slot_eq, put-All, push_ready, pend, forward}
use rtfm.Messages.Queue.{Spsc, Entries, count_if}
use rtfm.Messages.Steps.{Machine, Stage, taken, filled, stamped, queue_to}
use rtfm.Messages.Count.{one, count}
use rtfm.Messages.Ownership.{in_calls, in_option, is_call, in_ready, Owned, in_timer, nr_slot}
use rtfm.Messages.Ownership.Queues.{count-push_ready}
use rtfm.Messages.Ownership.Full.{ready_room}

module _ {F : Spsc ℕ} {R : Spsc Slot} {S : SysTick} {H : BinaryHeap (NotReady Ident)}
    {Input : Type 0} (layout : Layout) (E : Entries H layout.timer_capacity)
    (s : Machine F R S H Input) (own : Owned layout E s) where
  -- The slot is taken from a call or from the handler of SysTick.
  module _ (y : Slot) (calls : List (Slot × Stage)) (forwarding : Option Slot)
      (same_taken : (x : Slot) → count_if (is_call taken x) calls ≡ in_calls taken s x)
      (same_filled : (x : Slot) → count_if (is_call filled x) calls ≡ in_calls filled s x)
      (moved : (x : Slot)
        → count_if (is_call stamped x) calls + in_option forwarding x + one y x
          ≡ in_calls stamped s x + in_option s.forwarding x) where
    enters :
        (x : Slot) (l : ℕ)
        → count x (R.items ((forward layout y s.store).ready l))
          ≡ count x (R.items (s.store.ready l)) + (if layout.level y.0 == l then one y x else 0)
    unfolding forward pend
    enters x l =
        count-push_ready layout s.store y x l
          (ready_room layout E s own y (λ z. omega (arith, moved z)))

    in_ready-forward :
        (x : Slot)
        → in_ready layout (forward layout y s.store) x ≡ in_ready layout s.store x + one y x
    in_ready-forward x = elim (Bool-cases (y == x)) [
      | inl p ↦ ground (
        arith,
        enters x (layout.level x.0),
        p,
        beq_of_eq (layout.level y.0) (layout.level x.0)
            (ap (λ z. layout.level z.0) (eq_of_beq y x p)),
      )
      | inr p ↦ ground (arith, enters x (layout.level x.0), p)
    ]

    pub Owned-queue :
        Owned layout E (queue_to layout y (record s { calls = calls; forwarding = forwarding }))
    unfolding forward pend push_ready
    Owned-queue = record {
      once =
          λ x. omega (arith, own.once x, same_taken x, same_filled x, moved x, in_ready-forward x);
      input = λ x h. own.input x (omega (arith, h, same_filled x, moved x, in_ready-forward x));
      baseline = λ x h. own.baseline x (omega (arith, h, moved x, in_ready-forward x));
      read = own.read;
      own_ready = λ l x h. elim (Bool-cases (y == x)) [
        | inl p ↦ elim (Bool-cases (layout.level y.0 == l)) [
          | inl q ↦
              ap (λ z. layout.level z.0) (sym (eq_of_beq y x p)) ∙ eq_of_beq (layout.level y.0) l q
          | inr q ↦ own.own_ready l x (ground (arith, q, h, enters x l))
        ]
        | inr p ↦ own.own_ready l x (ground (arith, p, h, enters x l))
      ];
      own_dispatcher = own.own_dispatcher;
      own_timer = own.own_timer;
      free_capacity = own.free_capacity;
      ready_capacity =
          put-All (λ l q. R.capacity q ≡ layout.ready_capacity l) (layout.level y.0) _ s.store.ready
            (R.capacity-enqueue y (s.store.ready (layout.level y.0))
              ∙ own.ready_capacity (layout.level y.0))
            own.ready_capacity;
    }

  module _ (v : ℕ) (e : s.forwarding ≡ none) where
    -- A round takes from the timer queue what it returns.
    in_timer-poll :
        (x : Slot)
        → in_option (poll S H v s.store.timer).0 x
            + count_if (λ nr. nr_slot nr == x) (E.entries (poll S H v s.store.timer).1.queue)
          ≡ in_timer layout E s.store x
    unfolding poll
    in_timer-poll x = elim (Option-cases (H.peek s.store.timer.queue)) [
      | inl p ↦ rw (p, poll) (omega arith)
      | inr (a, p) ↦ elim (Bool-cases (is_negative (wrapping_sub a.instant.bits (now v).bits))) [
        | inl n ↦
            rw (p, n, poll, H.pop-peek s.store.timer.queue a p)
              (sym (E.entries-pop (λ nr. nr_slot nr == x) s.store.timer.queue a p))
        | inr n ↦ rw (p, n, poll) (omega arith)
      ]
    ]

    pub Owned-tick : Owned layout E (record s {
      store = record s.store { timer = (poll S H v s.store.timer).1 };
      forwarding = (poll S H v s.store.timer).0;
    })
    Owned-tick = record {
      once = λ x. omega (arith, own.once x, ap (λ o. in_option o x) e, in_timer-poll x);
      input = λ x h. own.input x (omega (arith, h, ap (λ o. in_option o x) e, in_timer-poll x));
      baseline =
          λ x h. own.baseline x (omega (arith, h, ap (λ o. in_option o x) e, in_timer-poll x));
      read = own.read;
      own_ready = own.own_ready;
      own_dispatcher = own.own_dispatcher;
      own_timer = λ x h. own.own_timer x (omega (arith, h, in_timer-poll x));
      free_capacity = own.free_capacity;
      ready_capacity = own.ready_capacity;
    }
