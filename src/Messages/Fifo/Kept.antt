-- ===== src/Messages/Fifo/Kept.antt =====
-- Each step of the message passing keeps the order of the messages.
use rtfm.Common.{
  ℕ, ◌<◌, ◌≡◌, refl, sym, ap, ap₂, ◌∙◌, true, Bool-cases, inl, inr, Option, none, some, List, [],
  ◌∷◌, ◌++◌, map, map-append, append_assoc, arith, ◌==◌, eq_of_beq, beq_of_eq, nat_eq, string_eq,
  dec_lt, length,
}
use rtfm.Runtime.TimerQueue.{BinaryHeap, SysTick, NotReady}
use rtfm.Macro.Syntax.{Ident}
use rtfm.Messages.{
  Layout, Slot, slot_eq, put, put-All, Message, take_free, push_ready, pend, forward, pop_ready,
  put_free,
}
use rtfm.Messages.Queue.{Spsc, Entries}
use rtfm.Messages.Steps.{Machine, Stage, Phase, waiting, popped, loaded, queue_to, call_to}
use rtfm.Messages.Count.{one, one_self, count}
use rtfm.Messages.Ownership.{in_free, Owned, in_popped}
use rtfm.Messages.Ownership.Queues.{dequeued, dequeued_none, in_free-take_free}
use rtfm.Messages.Fifo.{post, in_hand, queued, InOrder}

module _ {Input : Type 0} where
  -- New arguments for a slot that is not in the list.
  post-put :
      (y : Slot) (m : Message Input) (f : Slot → Message Input) (xs : List Slot)
      → count y xs ≡ 0
      → map (post (put y m f)) xs ≡ map (post f) xs
  post-put y m f [] e = refl
  post-put y m f (x ∷ xs) e = elim (Bool-cases (y == x)) [
    | inl p ↦ absurd (ground (arith, e, beq_of_eq x y (sym (eq_of_beq y x p))))
    | inr p ↦ rw p (ap (λ zs. (x.0, f x) ∷ zs) (post-put y m f xs (omega (arith, e))))
  ]

module _ {F : Spsc ℕ} {R : Spsc Slot} {S : SysTick} {H : BinaryHeap (NotReady Ident)}
    {Input : Type 0} (layout : Layout) where
  module _ (E : Entries H layout.timer_capacity) where
    pub InOrder-take :
        (s : Machine F R S H Input) (y : Slot) (m : Message Input) (l : ℕ)
        → Owned layout E s
        → (take_free layout y.0 s.store).0 ≡ some y.1
        → InOrder s l
        → s.sent l
          ≡ s.called l
            ++ (in_hand (put y m s.arguments) (s.dispatchers l)
                ++ map (post (put y m s.arguments)) (R.items (s.store.ready l)))
    InOrder-take s y m l own e h =
        h
        ∙ ap (λ z. s.called l ++ z)
            (ap₂ ◌++◌ (sym (hand (s.dispatchers l) refl))
              (sym (post-put y m s.arguments (R.items (s.store.ready l)) unqueued)))
      where
        free : 0 < in_free s.store y
        free = omega (arith, in_free-take_free layout s.store y y e, one_self y)

        unqueued : count y (R.items (s.store.ready l)) ≡ 0
        unqueued = elim (dec_lt 0 (count y (R.items (s.store.ready l)))) [
          | yes lt ↦ absurd (
              ground (
                arith,
                own.once y,
                free,
                lt,
                ap (λ k. count y (R.items (s.store.ready k))) (own.own_ready l y lt),
              ))
          | no ge ↦ omega arith
        ]

        held :
            (z : Slot)
            → (y == z) ≡ true
            → s.dispatchers l ≡ popped z
            → in_popped (s.dispatchers (layout.level y.0)) y ≡ 1
        held z p w =
            let here : in_popped (s.dispatchers l) y ≡ 1 =
              ap (λ q. in_popped q y) w ∙ ap (λ x. one z x) (eq_of_beq y z p) ∙ one_self z in
            ap (λ k. in_popped (s.dispatchers k) y) (own.own_dispatcher l y (omega (arith, here)))
            ∙ here

        hand :
            (p : Phase Input)
            → s.dispatchers l ≡ p
            → in_hand (put y m s.arguments) p ≡ in_hand s.arguments p
        hand waiting w = refl
        hand (loaded z n) w = refl
        hand (popped z) w = elim (Bool-cases (y == z)) [
          | inl p ↦ absurd (ground (arith, own.once y, free, held z p w))
          | inr p ↦ rw p refl
        ]

  pub InOrder-queue :
      (s : Machine F R S H Input) (y : Slot) (calls : List (Slot × Stage))
      (forwarding : Option Slot) (l : ℕ)
      → length (R.items (s.store.ready (layout.level y.0)))
        < R.capacity (s.store.ready (layout.level y.0))
      → InOrder s l
      → InOrder (queue_to layout y (record s { calls = calls; forwarding = forwarding })) l
  unfolding forward pend push_ready
  InOrder-queue s y calls forwarding l room h = elim (Bool-cases (layout.level y.0 == l)) [
    | inl p ↦
        rw
          (
            p,
            R.items-enqueue y (s.store.ready (layout.level y.0)) room,
            eq_of_beq (layout.level y.0) l p,
          )
          (rw h (simp (map-append, append_assoc)))
    | inr p ↦ rw p h
  ]

  pub InOrder-pop :
      (s : Machine F R S H Input) (k : ℕ) (y : Slot) (l : ℕ)
      → s.dispatchers k ≡ waiting
      → (pop_ready layout k s.store).0 ≡ some y
      → InOrder s l
      → InOrder
          (record s {
            store = (pop_ready layout k s.store).1;
            dispatchers = put k (popped y) s.dispatchers;
          })
          l
  unfolding pop_ready
  InOrder-pop s k y l w e h = elim (Bool-cases (k == l)) [
    | inl p ↦ rw p (
        h
        ∙ ap (λ z. s.called l ++ z)
            (ap₂ (λ q (xs : List Slot). in_hand s.arguments q ++ map (post s.arguments) xs)
              (ap s.dispatchers (sym (eq_of_beq k l p)) ∙ w)
              (ap (λ j. R.items (s.store.ready j)) (sym (eq_of_beq k l p))
                ∙ dequeued R (s.store.ready k) y e)))
    | inr p ↦ rw p h
  ]

  pub InOrder-leave :
      (s : Machine F R S H Input) (k l : ℕ)
      → (pop_ready layout k s.store).0 ≡ none
      → InOrder s l
      → InOrder (record s { store = (pop_ready layout k s.store).1 }) l
  unfolding pop_ready
  InOrder-leave s k l e h =
      h
      ∙ ap
          (λ xs. s.called l ++ (in_hand s.arguments (s.dispatchers l) ++ map (post s.arguments) xs))
          (sym (
            put-All (λ j q. R.items q ≡ R.items (s.store.ready j)) k _ s.store.ready
              (ap (λ r. R.items r.1) (dequeued_none R (s.store.ready k) e)) (λ j. refl) l))

  pub InOrder-load :
      (s : Machine F R S H Input) (k : ℕ) (y : Slot) (m : Message Input) (l : ℕ)
      → s.dispatchers k ≡ popped y
      → m ≡ s.arguments y
      → InOrder s l
      → InOrder (record s { dispatchers = put k (loaded y m) s.dispatchers }) l
  InOrder-load s k y m l w e h =
      h
      ∙ ap (λ z. s.called l ++ (z ++ queued s l))
          (sym (
            put-All (λ j q. in_hand s.arguments q ≡ in_hand s.arguments (s.dispatchers j)) k
              (loaded y m) s.dispatchers (rw (w, e) refl) (λ j. refl) l))

  pub InOrder-call :
      (s : Machine F R S H Input) (k : ℕ) (y : Slot) (m : Message Input) (l : ℕ)
      → s.dispatchers k ≡ loaded y m
      → InOrder s l
      → InOrder (call_to layout k y m s) l
  unfolding put_free
  InOrder-call s k y m l w h = elim (Bool-cases (k == l)) [
    | inl p ↦ rw p (
        h
        ∙ ap (λ q. s.called l ++ (in_hand s.arguments q ++ queued s l))
            (ap s.dispatchers (sym (eq_of_beq k l p)) ∙ w)
        ∙ sym (append_assoc (s.called l) ((y.0, m) ∷ []) (queued s l))
        ∙ ap (λ j. (s.called j ++ (y.0, m) ∷ []) ++ queued s l) (sym (eq_of_beq k l p)))
    | inr p ↦ rw p h
  ]
