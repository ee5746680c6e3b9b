-- ===== src/Messages/Ownership/Receiving.antt =====
-- The steps of the dispatchers keep the ownership.
use rtfm.Common.{
  ℕ, ◌+◌, ◌≤◌, ◌<◌, ◌≡◌, refl, sym, ap, ◌∙◌, Bool-cases, inl, inr, none, some, arith, ◌==◌,
  eq_of_beq, beq_self, nat_eq, string_eq, if◌then◌else◌,
}
use rtfm.Runtime.TimerQueue.{BinaryHeap, SysTick, NotReady}
use rtfm.Macro.Syntax.{Ident}
use rtfm.Messages.{Layout, Slot, slot_eq, put, put-All, Message, pop_ready, put_free}
use rtfm.Messages.Queue.{Spsc, Entries}
use rtfm.Messages.Steps.{Machine, Phase, waiting, popped, loaded, call_to}
use rtfm.Messages.Count.{one, one_self, count}
use rtfm.Messages.Ownership.{in_free, in_ready, Owned, in_loaded, in_popped}
use rtfm.Messages.Ownership.Queues.{count-pop_ready, in_free-put_free, dequeued_none}
use rtfm.Messages.Ownership.Full.{free_room}

module _ {Input : Type 0} where
  abbrev pub loaded_slot : Slot → Phase Input → Slot
  loaded_slot x (loaded y m) = y
  loaded_slot x phase = x

  abbrev pub loaded_message : Message Input → Phase Input → Message Input
  loaded_message m (loaded y n) = n
  loaded_message m phase = m

module _ {F : Spsc ℕ} {R : Spsc Slot} {S : SysTick} {H : BinaryHeap (NotReady Ident)}
    {Input : Type 0} (layout : Layout) (E : Entries H layout.timer_capacity)
    (s : Machine F R S H Input) (own : Owned layout E s) (l : ℕ) where
  -- A phase that its dispatcher may have.
  abbrev OwnPhase : Slot → ℕ → Phase Input → Type 0
  OwnPhase x k phase = 0 < in_popped phase x + in_loaded phase x → layout.level x.0 ≡ k

  abbrev ReadPhase : Slot → Message Input → Phase Input → Type 0
  ReadPhase x m phase = phase ≡ loaded x m → m ≡ s.arguments x

  pub Owned-pop :
      (y : Slot)
      → s.dispatchers l ≡ waiting
      → (pop_ready layout l s.store).0 ≡ some y
      → Owned layout E (record s {
        store = (pop_ready layout l s.store).1;
        dispatchers = put l (popped y) s.dispatchers;
      })
  unfolding pop_ready
  Owned-pop y w e = record {
    once = λ x. omega (arith, own.once x, moved x, kept x);
    input = λ x h. own.input x (omega (arith, h, moved x));
    baseline = λ x h. own.baseline x (omega (arith, h, moved x));
    read = λ k x m.
        put-All (λ k p. ReadPhase x m p) l (popped y) s.dispatchers (λ h. cc h)
          (λ k. own.read k x m) k;
    own_ready = λ k x h. own.own_ready k x (omega (arith, h, leaves x k));
    own_dispatcher = λ k x.
        put-All (OwnPhase x) l (popped y) s.dispatchers (at x) (λ k. own.own_dispatcher k x) k;
    own_timer = own.own_timer;
    free_capacity = own.free_capacity;
    ready_capacity =
        put-All (λ l q. R.capacity q ≡ layout.ready_capacity l) l _ s.store.ready
          (R.capacity-dequeue (s.store.ready l) ∙ own.ready_capacity l) own.ready_capacity;
  }
    where
      leaves :
          (x : Slot) (k : ℕ)
          → count x (R.items ((pop_ready layout l s.store).1.ready k))
              + (if l == k then one y x else 0)
            ≡ count x (R.items (s.store.ready k))
      leaves x k = count-pop_ready layout s.store y x l k e

      moved :
          (x : Slot)
          → in_popped (put l (popped y) s.dispatchers (layout.level x.0)) x
              + in_ready layout (pop_ready layout l s.store).1 x
            ≡ in_popped (s.dispatchers (layout.level x.0)) x + in_ready layout s.store x
      moved x = elim (Bool-cases (l == layout.level x.0)) [
        | inl p ↦ ground (
          arith,
          p,
          leaves x (layout.level x.0),
          ap (λ q. in_popped q x) w,
          ap (λ k. in_popped (s.dispatchers k) x) (eq_of_beq l (layout.level x.0) p),
        )
        | inr p ↦ ground (arith, p, leaves x (layout.level x.0))
      ]

      kept :
          (x : Slot)
          → in_loaded (put l (popped y) s.dispatchers (layout.level x.0)) x
            ≡ in_loaded (s.dispatchers (layout.level x.0)) x
      kept x =
          put-All (λ k p. in_loaded p x ≡ in_loaded (s.dispatchers k) x) l (popped y) s.dispatchers
            (sym (ap (λ q. in_loaded q x) w)) (λ k. refl) (layout.level x.0)

      at : (x : Slot) → OwnPhase x l (popped y)
      at x h = elim (Bool-cases (y == x)) [
        | inl p ↦ own.own_ready l x (ground (arith, p, beq_self l, leaves x l))
        | inr p ↦ absurd (ground (arith, p, h))
      ]

  pub Owned-leave :
      (pop_ready layout l s.store).0 ≡ none
      → Owned layout E (record s { store = (pop_ready layout l s.store).1 })
  unfolding pop_ready
  Owned-leave e = record {
    once = λ x. omega (arith, own.once x, same x (layout.level x.0));
    input = λ x h. own.input x (omega (arith, h, same x (layout.level x.0)));
    baseline = λ x h. own.baseline x (omega (arith, h, same x (layout.level x.0)));
    read = own.read;
    own_ready = λ k x h. own.own_ready k x (omega (arith, h, same x k));
    own_dispatcher = own.own_dispatcher;
    own_timer = own.own_timer;
    free_capacity = own.free_capacity;
    ready_capacity =
        put-All (λ l q. R.capacity q ≡ layout.ready_capacity l) l _ s.store.ready
          (R.capacity-dequeue (s.store.ready l) ∙ own.ready_capacity l) own.ready_capacity;
  }
    where
      same :
          (x : Slot) (k : ℕ)
          → count x (R.items ((pop_ready layout l s.store).1.ready k))
            ≡ count x (R.items (s.store.ready k))
      same x =
          put-All (λ k q. count x (R.items q) ≡ count x (R.items (s.store.ready k))) l _
            s.store.ready (ap (λ r. count x (R.items r.1)) (dequeued_none R (s.store.ready l) e))
            (λ k. refl)

  pub Owned-load :
      (y : Slot) (m : Message Input)
      → s.dispatchers l ≡ popped y
      → m ≡ s.arguments y
      → Owned layout E (record s { dispatchers = put l (loaded y m) s.dispatchers })
  Owned-load y m w e = record {
    once = λ x. omega (arith, own.once x, moved x);
    input = λ x h. own.input x (omega (arith, h, fewer x));
    baseline = λ x h. own.baseline x (omega (arith, h, fewer x));
    read = λ k x n.
        put-All (λ k p. ReadPhase x n p) l (loaded y m) s.dispatchers
          (λ h. sym (ap (loaded_message m) h) ∙ e ∙ ap s.arguments (ap (loaded_slot y) h))
          (λ k. own.read k x n) k;
    own_ready = own.own_ready;
    own_dispatcher = λ k x.
        put-All (OwnPhase x) l (loaded y m) s.dispatchers
          (λ h. own.own_dispatcher l x (omega (arith, h, ap (λ q. in_popped q x) w)))
          (λ k. own.own_dispatcher k x) k;
    own_timer = own.own_timer;
    free_capacity = own.free_capacity;
    ready_capacity = own.ready_capacity;
  }
    where
      moved :
          (x : Slot)
          → in_popped (put l (loaded y m) s.dispatchers (layout.level x.0)) x
              + in_loaded (put l (loaded y m) s.dispatchers (layout.level x.0)) x
            ≡ in_popped (s.dispatchers (layout.level x.0)) x
              + in_loaded (s.dispatchers (layout.level x.0)) x
      moved x =
          put-All
            (λ k p.
              in_popped p x + in_loaded p x
              ≡ in_popped (s.dispatchers k) x + in_loaded (s.dispatchers k) x)
            l (loaded y m) s.dispatchers (rw w (omega arith)) (λ k. refl) (layout.level x.0)

      fewer :
          (x : Slot)
          → in_popped (put l (loaded y m) s.dispatchers (layout.level x.0)) x
            ≤ in_popped (s.dispatchers (layout.level x.0)) x
      fewer x =
          put-All (λ k p. in_popped p x ≤ in_popped (s.dispatchers k) x) l (loaded y m)
            s.dispatchers (omega arith) (λ k. omega arith) (layout.level x.0)

  pub Owned-call :
      (y : Slot) (m : Message Input)
      → s.dispatchers l ≡ loaded y m
      → Owned layout E (call_to layout l y m s)
  unfolding put_free
  Owned-call y m w = record {
    once = λ x. omega (arith, own.once x, moved x, freed x, kept x);
    input = λ x h. own.input x (omega (arith, h, kept x));
    baseline = λ x h. own.baseline x (omega (arith, h, kept x));
    read = λ k x n.
        put-All (λ k p. ReadPhase x n p) l waiting s.dispatchers (λ h. cc h) (λ k. own.read k x n)
          k;
    own_ready = own.own_ready;
    own_dispatcher = λ k x.
        put-All (OwnPhase x) l waiting s.dispatchers (λ h. absurd (omega (arith, h)))
          (λ k. own.own_dispatcher k x) k;
    own_timer = own.own_timer;
    free_capacity =
        put-All (λ t q. F.capacity q ≡ layout.free_capacity t) y.0 _ s.store.free
          (F.capacity-enqueue y.1 (s.store.free y.0) ∙ own.free_capacity y.0) own.free_capacity;
    ready_capacity = own.ready_capacity;
  }
    where
      level : layout.level y.0 ≡ l
      level = own.own_dispatcher l y (rw w (omega (arith, one_self y)))

      moved :
          (x : Slot)
          → in_loaded (put l waiting s.dispatchers (layout.level x.0)) x + one y x
            ≡ in_loaded (s.dispatchers (layout.level x.0)) x
      moved x = elim (Bool-cases (l == layout.level x.0)) [
        | inl p ↦ ground (
          arith,
          p,
          ap (λ q. in_loaded q x) w,
          ap (λ k. in_loaded (s.dispatchers k) x) (eq_of_beq l (layout.level x.0) p),
        )
        | inr p ↦ elim (Bool-cases (y == x)) [
          | inl q ↦
              absurd (ground (arith, p, sym level ∙ ap (λ z. layout.level z.0) (eq_of_beq y x q)))
          | inr q ↦ ground (arith, p, q)
        ]
      ]

      kept :
          (x : Slot)
          → in_popped (put l waiting s.dispatchers (layout.level x.0)) x
            ≡ in_popped (s.dispatchers (layout.level x.0)) x
      kept x =
          put-All (λ k p. in_popped p x ≡ in_popped (s.dispatchers k) x) l waiting s.dispatchers
            (sym (ap (λ q. in_popped q x) w)) (λ k. refl) (layout.level x.0)

      freed : (x : Slot) → in_free (put_free layout y s.store) x ≡ in_free s.store x + one y x
      freed x =
          in_free-put_free layout s.store y x
            (free_room layout E s own y (λ z. omega (arith, moved z)))
