-- ===== src/Messages/Ownership/Sending.antt =====
-- The steps of the calls of `spawn` and `schedule` up to their last one keep the ownership.
use rtfm.Common.{
  ℕ, ◌+◌, ◌<◌, ◌≡◌, refl, sym, ap, subst, ◌∙◌, Bool-cases, inl, inr, none, some, List, ◌∷◌, ◌++◌,
  arith, ◌==◌, eq_of_beq, beq_self, nat_eq, string_eq, if◌then◌else◌, In,
}
use rtfm.Runtime.TimerQueue.{BinaryHeap, SysTick, NotReady, enqueue_unchecked}
use rtfm.Macro.Syntax.{Ident}
use rtfm.Messages.{Layout, Slot, slot_eq, put, put-All, Message, take_free, push_timer}
use rtfm.Messages.Queue.{Spsc, Entries, count_if}
use rtfm.Messages.Steps.{Machine, Stage, taken, filled, stamped, loaded, take_to}
use rtfm.Messages.Count.{one, count, count-append}
use rtfm.Messages.Ownership.{in_free, in_calls, is_call, Owned, in_loaded, in_timer, nr_slot}
use rtfm.Messages.Ownership.Queues.{in_free-take_free, dequeued_none}
use rtfm.Messages.Ownership.Full.{timer_room}

pub count-calls :
    (st : Stage) (x : Slot) (before after : List (Slot × Stage)) (c : Slot × Stage)
    → count_if (is_call st x) (before ++ c ∷ after)
      ≡ count_if (is_call st x) (before ++ after) + (if is_call st x c then 1 else 0)
count-calls st x before after c = omega (
  arith,
  count-append (is_call st x) before (c ∷ after),
  count-append (is_call st x) before after,
)

module _ {F : Spsc ℕ} {R : Spsc Slot} {S : SysTick} {H : BinaryHeap (NotReady Ident)}
    {Input : Type 0} (layout : Layout) (E : Entries H layout.timer_capacity)
    (s : Machine F R S H Input) (own : Owned layout E s) where
  pub Owned-take :
      (y : Slot) (m : Message Input)
      → (take_free layout y.0 s.store).0 ≡ some y.1
      → Owned layout E (take_to layout y m s)
  unfolding take_free
  Owned-take y m e = record {
    once = λ x. omega (arith, own.once x, moved x);
    input = λ x h. elim (Bool-cases (y == x)) [
      | inl p ↦ absurd (ground (arith, p, h, own.once x, moved x))
      | inr p ↦ rw p (own.input x (omega (arith, h)))
    ];
    baseline = λ x h. elim (Bool-cases (y == x)) [
      | inl p ↦ absurd (ground (arith, p, h, own.once x, moved x))
      | inr p ↦ rw p (own.baseline x (omega (arith, h)))
    ];
    read = λ l x m' h. elim (Bool-cases (y == x)) [
      | inl p ↦ absurd (ground (arith, p, held l x m' h, own.once x, moved x))
      | inr p ↦ rw p (own.read l x m' h)
    ];
    own_ready = own.own_ready;
    own_dispatcher = own.own_dispatcher;
    own_timer = own.own_timer;
    free_capacity =
        put-All (λ t q. F.capacity q ≡ layout.free_capacity t) y.0 _ s.store.free
          (F.capacity-dequeue (s.store.free y.0) ∙ own.free_capacity y.0) own.free_capacity;
    ready_capacity = own.ready_capacity;
  }
    where
      moved : (x : Slot) → in_free (take_free layout y.0 s.store).1 x + one y x ≡ in_free s.store x
      moved x = in_free-take_free layout s.store y x e

      held :
          (l : ℕ) (x : Slot) (m' : Message Input)
          → s.dispatchers l ≡ loaded x m'
          → 0 < in_loaded (s.dispatchers (layout.level x.0)) x
      held l x m' h =
          let one_here : 0 < in_loaded (s.dispatchers l) x = rw h (rw (beq_self x) (omega arith)) in
          subst (λ k. 0 < in_loaded (s.dispatchers k) x)
            (sym (own.own_dispatcher l x (omega (arith, one_here)))) one_here

  pub Owned-reject :
      (t : Ident)
      → (take_free layout t s.store).0 ≡ none
      → Owned layout E (record s { store = (take_free layout t s.store).1 })
  unfolding take_free
  Owned-reject t e = record {
    once = λ x. omega (arith, own.once x, same x);
    input = λ x h. own.input x (omega (arith, h));
    baseline = λ x h. own.baseline x (omega (arith, h));
    read = own.read;
    own_ready = own.own_ready;
    own_dispatcher = own.own_dispatcher;
    own_timer = own.own_timer;
    free_capacity =
        put-All (λ t q. F.capacity q ≡ layout.free_capacity t) t _ s.store.free
          (F.capacity-dequeue (s.store.free t) ∙ own.free_capacity t) own.free_capacity;
    ready_capacity = own.ready_capacity;
  }
    where
      same : (x : Slot) → in_free (take_free layout t s.store).1 x ≡ in_free s.store x
      same x =
          put-All (λ j q. count x.1 (F.items q) ≡ count x.1 (F.items (s.store.free j))) t _
            s.store.free (ap (λ r. count x.1 (F.items r.1)) (dequeued_none F (s.store.free t) e))
            (λ j. refl) x.0

  module _ (y : Slot) (before after : List (Slot × Stage)) where
    calls_at :
        (old : Stage)
        → s.calls ≡ before ++ (y, old) ∷ after
        → (st : Stage) (x : Slot)
        → in_calls st s x
          ≡ count_if (is_call st x) (before ++ after) + (if is_call st x (y, old) then 1 else 0)
    calls_at old e st x = ap (count_if (is_call st x)) e ∙ count-calls st x before after (y, old)

    pub Owned-fill :
        s.calls ≡ before ++ (y, taken) ∷ after
        → Owned layout E (record s {
          store = record s.store { inputs = put y (some (s.arguments y).input) s.store.inputs };
          calls = before ++ (y, filled) ∷ after;
        })
    Owned-fill e = record {
      once = λ x. omega (
        arith,
        own.once x,
        calls_at taken e taken x,
        calls_at taken e filled x,
        calls_at taken e stamped x,
        count-calls taken x before after (y, filled),
        count-calls filled x before after (y, filled),
        count-calls stamped x before after (y, filled),
      );
      input = λ x h. elim (Bool-cases (y == x)) [
        | inl p ↦ rw p (ap (λ z. some (s.arguments z).input) (eq_of_beq y x p))
        | inr p ↦ rw p (
            own.input x (
              ground (
                arith,
                p,
                h,
                calls_at taken e filled x,
                calls_at taken e stamped x,
                count-calls filled x before after (y, filled),
                count-calls stamped x before after (y, filled),
              )))
      ];
      baseline = λ x h. own.baseline x (
          omega
            (arith, h, calls_at taken e stamped x, count-calls stamped x before after (y, filled)));
      read = own.read;
      own_ready = own.own_ready;
      own_dispatcher = own.own_dispatcher;
      own_timer = own.own_timer;
      free_capacity = own.free_capacity;
      ready_capacity = own.ready_capacity;
    }

    pub Owned-stamp :
        s.calls ≡ before ++ (y, filled) ∷ after
        → Owned layout E (record s {
          store = record s.store {
            scheduleds = put y (some (s.arguments y).baseline) s.store.scheduleds;
          };
          calls = before ++ (y, stamped) ∷ after;
        })
    Owned-stamp e = record {
      once = λ x. omega (
        arith,
        own.once x,
        calls_at filled e taken x,
        calls_at filled e filled x,
        calls_at filled e stamped x,
        count-calls taken x before after (y, stamped),
        count-calls filled x before after (y, stamped),
        count-calls stamped x before after (y, stamped),
      );
      input = λ x h. own.input x (
          omega (
            arith,
            h,
            calls_at filled e filled x,
            calls_at filled e stamped x,
            count-calls filled x before after (y, stamped),
            count-calls stamped x before after (y, stamped),
          ));
      baseline = λ x h. elim (Bool-cases (y == x)) [
        | inl p ↦ rw p (ap (λ z. some (s.arguments z).baseline) (eq_of_beq y x p))
        | inr p ↦ rw p (
            own.baseline x (
              ground (
                arith,
                p,
                h,
                calls_at filled e stamped x,
                count-calls stamped x before after (y, stamped),
              )))
      ];
      read = own.read;
      own_ready = own.own_ready;
      own_dispatcher = own.own_dispatcher;
      own_timer = own.own_timer;
      free_capacity = own.free_capacity;
      ready_capacity = own.ready_capacity;
    }

    pub Owned-delay :
        s.calls ≡ before ++ (y, stamped) ∷ after
        → In y.0 layout.timer_tasks
        → Owned layout E (record s {
          store = push_timer layout y (s.arguments y).baseline s.store;
          calls = before ++ after;
        })
    unfolding push_timer enqueue_unchecked
    Owned-delay e i = record {
      once = λ x. omega (
        arith,
        own.once x,
        calls_at stamped e taken x,
        calls_at stamped e filled x,
        calls_at stamped e stamped x,
        moved x,
      );
      input = λ x h.
          own.input x
            (omega (arith, h, calls_at stamped e filled x, calls_at stamped e stamped x, moved x));
      baseline = λ x h. own.baseline x (omega (arith, h, calls_at stamped e stamped x, moved x));
      read = own.read;
      own_ready = own.own_ready;
      own_dispatcher = own.own_dispatcher;
      own_timer = λ x h. elim (Bool-cases (y == x)) [
        | inl p ↦ subst (λ z. In z.0 layout.timer_tasks) (eq_of_beq y x p) i
        | inr p ↦ own.own_timer x (ground (arith, p, h, moved x))
      ];
      free_capacity = own.free_capacity;
      ready_capacity = own.ready_capacity;
    }
      where
        moved :
            (x : Slot)
            → in_timer layout E (push_timer layout y (s.arguments y).baseline s.store) x
              ≡ one y x + in_timer layout E s.store x
        moved x =
            E.entries-push (λ nr. nr_slot nr == x) _ s.store.timer.queue
              (timer_room layout E s own y (λ z. omega (arith, calls_at stamped e stamped z)) i)
