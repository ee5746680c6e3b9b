-- ===== src/Messages/Ownership/Full.antt =====
-- No queue is full when a slot is put in it: there are no more slots than its capacity.
use rtfm.Common.{
  ℕ, zero, suc, ◌+◌, ◌≤◌, ◌<◌, ◌≡◌, refl, sym, ap, subst, Bool-cases, inl, inr, List, [], ◌∷◌, map,
  length, length-append, In, In-map, In-flat_map, flat_map, arith, ◌==◌, eq_of_beq, beq_self,
  nat_eq, string_eq, eqb, true, false, ◌⊎◌, dec_lt,
}
use rtfm.Runtime.TimerQueue.{BinaryHeap, SysTick, NotReady}
use rtfm.Macro.Syntax.{Ident, Idents}
use rtfm.Messages.{Layout, Slot, slot_eq, total}
use rtfm.Messages.Queue.{Spsc, Entries, count_if}
use rtfm.Messages.Steps.{Machine}
use rtfm.Messages.Count.{one, count, shorter}
use rtfm.Messages.Ownership.{nr_slot, in_free, in_ready, in_timer, places, Owned}

-- The indices of a task, and the slots of a list of tasks.
below : ℕ → List ℕ
below zero = []
below (suc n) = n ∷ below n

length-below : (n : ℕ) → length (below n) ≡ n
unfolding below
length-below zero = refl
length-below (suc n) = omega (arith, length-below n)

In-below : (i n : ℕ) → i < n → In i (below n)
unfolding below
In-below i zero l = absurd (omega arith)
In-below i (suc n) l = elim (Bool-cases (eqb n i)) [
  | inl p ↦ inl (ground (arith, p))
  | inr p ↦ inr (In-below i n (ground (arith, p)))
]

slots_of : (Ident → ℕ) → Ident → List Slot
slots_of capacity t = map (λ i. (t, i)) (below (capacity t))

slots : (Ident → ℕ) → Idents → List Slot
slots capacity = flat_map (slots_of capacity)

length-map : {A B : Type 0} (f : A → B) (xs : List A) → length (map f xs) ≡ length xs
length-map f [] = refl
length-map f (x ∷ xs) = ap suc (length-map f xs)

length-slots : (capacity : Ident → ℕ) (ts : Idents) → length (slots capacity ts) ≡ total capacity ts
unfolding slots slots_of
length-slots capacity [] = refl
length-slots capacity (t ∷ ts) = omega (
  arith,
  length-append (slots_of capacity t) (slots capacity ts),
  length-map {B = Slot} (λ i. (t, i)) (below (capacity t)),
  length-below (capacity t),
  length-slots capacity ts,
)

In-slots :
    (capacity : Ident → ℕ) (ts : Idents) (x : Slot)
    → In x.0 ts
    → x.1 < capacity x.0
    → In x (slots capacity ts)
unfolding slots slots_of
In-slots capacity ts x i l =
    In-flat_map (slots_of capacity) x.0 x ts i
      (In-map (λ j. (x.0, j)) x.1 (below (capacity x.0)) (In-below x.1 (capacity x.0) l))

count-map :
    (x : Slot) (ns : List (NotReady Ident))
    → count x (map nr_slot ns) ≡ count_if (λ nr. nr_slot nr == x) ns
count-map x [] = refl
count-map x (n ∷ ns) = omega (arith, count-map x ns)

module _ {F : Spsc ℕ} {R : Spsc Slot} {S : SysTick} {H : BinaryHeap (NotReady Ident)}
    {Input : Type 0} (layout : Layout) (E : Entries H layout.timer_capacity)
    (s : Machine F R S H Input) (own : Owned layout E s) (y : Slot) where
  pub placed : (x : Slot) → 0 < places layout E s x → x.1 < layout.capacity x.0
  placed x l = ground (arith, own.once x)

  at_most : (x : Slot) → places layout E s x ≤ 1
  at_most x = ground (arith, own.once x)

  pub free_room :
      ((x : Slot) → one y x + in_free s.store x ≤ places layout E s x)
      → length (F.items (s.store.free y.0)) < F.capacity (s.store.free y.0)
  free_room held = omega (
    arith,
    shorter y.1 (F.items (s.store.free y.0)) (below (layout.capacity y.0))
        (λ i. omega (arith, same i, held (y.0, i), at_most (y.0, i)))
        (λ i l.
          In-below i (layout.capacity y.0)
            (placed (y.0, i) (omega (arith, same i, held (y.0, i))))),
    length-below (layout.capacity y.0),
    own.free_capacity y.0,
    layout.free_fits y.0,
  )
    where
      same : (i : ℕ) → one y.1 i ≡ one y (y.0, i)
      same i = ground (arith, beq_self y.0)

  pub ready_room :
      ((x : Slot) → one y x + in_ready layout s.store x ≤ places layout E s x)
      → length (R.items (s.store.ready (layout.level y.0)))
        < R.capacity (s.store.ready (layout.level y.0))
  ready_room held = omega (
    arith,
    shorter y (R.items (s.store.ready l)) (slots layout.capacity (layout.tasks l))
        (λ x. most x (Bool-cases (layout.level x.0 == l))) (λ x h. found x h (at x h)),
    length-slots layout.capacity (layout.tasks l),
    own.ready_capacity l,
    layout.ready_fits l,
  )
    where
      l : ℕ
      l = layout.level y.0

      there :
          (x : Slot)
          → layout.level x.0 ≡ l
          → in_ready layout s.store x ≡ count x (R.items (s.store.ready l))
      there x e = ap (λ k. count x (R.items (s.store.ready k))) e

      at : (x : Slot) → 0 < one y x + count x (R.items (s.store.ready l)) → layout.level x.0 ≡ l
      at x h = elim (Bool-cases (y == x)) [
        | inl p ↦ ap (λ z. layout.level z.0) (sym (eq_of_beq y x p))
        | inr p ↦ own.own_ready l x (ground (arith, p, h))
      ]

      most :
          (x : Slot)
          → ((layout.level x.0 == l) ≡ true) ⊎ ((layout.level x.0 == l) ≡ false)
          → one y x + count x (R.items (s.store.ready l)) ≤ 1
      most x (inl p) = omega (arith, there x (eq_of_beq (layout.level x.0) l p), held x, at_most x)
      most x (inr p) = elim (dec_lt 0 (one y x + count x (R.items (s.store.ready l)))) [
        | yes h ↦ ground (arith, p, at x h)
        | no h ↦ omega arith
      ]

      found :
          (x : Slot)
          → 0 < one y x + count x (R.items (s.store.ready l))
          → layout.level x.0 ≡ l
          → In x (slots layout.capacity (layout.tasks l))
      found x h e =
          let lt = placed x (omega (arith, held x, there x e, h)) in
          In-slots layout.capacity (layout.tasks l) x
            (subst (λ k. In x.0 (layout.tasks k)) e (layout.in_tasks x.0 (omega arith))) lt

  pub timer_room :
      ((x : Slot) → one y x + in_timer layout E s.store x ≤ places layout E s x)
      → In y.0 layout.timer_tasks
      → length (E.entries s.store.timer.queue) < layout.timer_capacity
  timer_room held i = omega (
    arith,
    shorter y (map nr_slot (E.entries s.store.timer.queue))
        (slots layout.capacity layout.timer_tasks)
        (λ x. omega (arith, counted x, held x, at_most x))
        (λ x h.
          In-slots layout.capacity layout.timer_tasks x (member x h)
            (placed x (omega (arith, counted x, held x, h)))),
    length-map nr_slot (E.entries s.store.timer.queue),
    length-slots layout.capacity layout.timer_tasks,
    layout.timer_fits,
  )
    where
      counted :
          (x : Slot)
          → count x (map nr_slot (E.entries s.store.timer.queue)) ≡ in_timer layout E s.store x
      counted x = count-map x (E.entries s.store.timer.queue)

      member :
          (x : Slot)
          → 0 < one y x + count x (map nr_slot (E.entries s.store.timer.queue))
          → In x.0 layout.timer_tasks
      member x h = elim (Bool-cases (y == x)) [
        | inl p ↦ subst (λ z. In z.0 layout.timer_tasks) (eq_of_beq y x p) i
        | inr p ↦ own.own_timer x (ground (arith, p, h, counted x))
      ]
