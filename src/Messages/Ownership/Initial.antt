-- ===== src/Messages/Ownership/Initial.antt =====
-- After `pre_init` each slot is in the free queue of its task.
use rtfm.Common.{
  ℕ, zero, suc, ◌+◌, ◌≤◌, ◌≡◌, refl, ap, ◌∙◌, ◌&&◌, [], ◌∷◌, length, length-append, arith, ◌==◌,
  nat_eq, leb, ltb, if◌then◌else◌,
}
use rtfm.Runtime.TimerQueue.{BinaryHeap, SysTick, NotReady, new}
use rtfm.Macro.Syntax.{Ident}
use rtfm.Messages.{Layout, Slot, slot_eq, Message, fill, pre_init}
use rtfm.Messages.Queue.{Spsc, Entries, count_if}
use rtfm.Messages.Steps.{boot}
use rtfm.Messages.Count.{count}
use rtfm.Messages.Ownership.{Owned, nr_slot}
use rtfm.Messages.Ownership.Queues.{count-enqueue}

module _ (F : Spsc ℕ) (R : Spsc Slot) (S : SysTick) (H : BinaryHeap (NotReady Ident))
    (Input : Type 0) (layout : Layout) where
  capacity-fill :
      (n i : ℕ) (q : F.Queue) → F.capacity (fill F R S H Input layout n i q) ≡ F.capacity q
  unfolding fill
  capacity-fill zero i q = refl
  capacity-fill (suc n) i q =
      capacity-fill n (suc i) (F.enqueue_unchecked i q) ∙ F.capacity-enqueue i q

  count-fill :
      (n i j : ℕ) (q : F.Queue)
      → length (F.items q) + n ≤ F.capacity q
      → count j (F.items (fill F R S H Input layout n i q))
        ≡ count j (F.items q) + (if leb i j && ltb j (i + n) then 1 else 0)
  unfolding fill
  count-fill zero i j q l = ground arith
  count-fill (suc n) i j q l = ground (
    arith,
    count-enqueue F i j q (omega (arith, l)),
    count-fill n (suc i) j (F.enqueue_unchecked i q) (
        omega (
          arith,
          l,
          F.capacity-enqueue i q,
          ap length (F.items-enqueue i q (omega (arith, l))),
          length-append (F.items q) (i ∷ []),
        )),
  )

  module _ (E : Entries H layout.timer_capacity) where
    pub boot-Owned :
        (syst : S.Syst) (m : Message Input)
        → Owned {F = F} {R = R} {S = S} {H = H} layout E (boot layout syst m)
    unfolding pre_init new
    boot-Owned syst m = record {
      once = λ x. ground (arith, free x, none_ready x (layout.level x.0), none_timer x);
      input = λ x h. absurd (omega (arith, h, none_ready x (layout.level x.0), none_timer x));
      baseline = λ x h. absurd (omega (arith, h, none_ready x (layout.level x.0), none_timer x));
      read = λ l x n h. cc h;
      own_ready = λ l x h. absurd (omega (arith, h, none_ready x l));
      own_dispatcher = λ l x h. absurd (omega (arith, h));
      own_timer = λ x h. absurd (omega (arith, h, none_timer x));
      free_capacity = λ t.
          capacity-fill (layout.capacity t) 0 (F.new (layout.free_capacity t))
          ∙ F.capacity-new (layout.free_capacity t);
      ready_capacity = λ l. R.capacity-new (layout.ready_capacity l);
    }
      where
        none_ready : (x : Slot) (l : ℕ) → count x (R.items (R.new (layout.ready_capacity l))) ≡ 0
        none_ready x l = ap (count x) (R.items-new (layout.ready_capacity l))

        none_timer : (x : Slot) → count_if (λ nr. nr_slot nr == x) (E.entries H.empty) ≡ 0
        none_timer x = ap (count_if (λ nr. nr_slot nr == x)) E.entries-empty

        free :
            (x : Slot)
            → count x.1 (
                F.items (
                  fill F R S H Input layout
                    (layout.capacity x.0)
                    0
                    (F.new (layout.free_capacity x.0))))
              ≡ (if ltb x.1 (layout.capacity x.0) then 1 else 0)
        free x = ground (
          arith,
          ap (count x.1) (F.items-new (layout.free_capacity x.0)),
          count-fill (layout.capacity x.0) 0 x.1 (F.new (layout.free_capacity x.0)) (
              omega (
                arith,
                ap length (F.items-new (layout.free_capacity x.0)),
                F.capacity-new (layout.free_capacity x.0),
                layout.free_fits x.0,
              )),
        )
