-- ===== src/Messages/Ownership/Queues.antt =====
-- Where an operation of a queue moves a slot.
use rtfm.Common.{
  ℕ, ◌+◌, ◌<◌, ◌≡◌, refl, sym, ap, ◌∙◌, Bool-cases, inl, inr, none, some, List, [], ◌∷◌, length,
  arith, Eq, ◌==◌, eq_of_beq, nat_eq, string_eq, if◌then◌else◌, some_injective,
}
use rtfm.Runtime.TimerQueue.{BinaryHeap, SysTick, NotReady}
use rtfm.Macro.Syntax.{Ident}
use rtfm.Messages.{Layout, Slot, slot_eq, Store, take_free, push_ready, pop_ready, put_free}
use rtfm.Messages.Queue.{Spsc}
use rtfm.Messages.Count.{one, count, count-append}
use rtfm.Messages.Ownership.{in_free}

module _ {A : Type 0} (Q : Spsc A) where
  pub dequeued :
      (q : Q.Queue) (a : A) → (Q.dequeue q).0 ≡ some a → Q.items q ≡ a ∷ Q.items (Q.dequeue q).1
  dequeued q a e = go (Q.items q) refl
    where
      go : (xs : List A) → Q.items q ≡ xs → xs ≡ a ∷ Q.items (Q.dequeue q).1
      go [] p = cc (Q.dequeue-none q p, e)
      go (x ∷ xs) p =
          let (h, t) = Q.dequeue-some q x xs p in cc (h, t, e, some_injective (sym h ∙ e))

  pub dequeued_none : (q : Q.Queue) → (Q.dequeue q).0 ≡ none → Q.dequeue q ≡ (none, q)
  dequeued_none q e = go (Q.items q) refl
    where
      go : (xs : List A) → Q.items q ≡ xs → Q.dequeue q ≡ (none, q)
      go [] p = Q.dequeue-none q p
      go (x ∷ xs) p = let (h, t) = Q.dequeue-some q x xs p in cc (h, e)

  pub dequeued_nil : (q : Q.Queue) → (Q.dequeue q).0 ≡ none → Q.items q ≡ []
  dequeued_nil q e = go (Q.items q) refl
    where
      go : (xs : List A) → Q.items q ≡ xs → xs ≡ []
      go [] p = refl
      go (x ∷ xs) p = let (h, t) = Q.dequeue-some q x xs p in cc (h, e)

  module _ ⦃e : Eq A⦄ where
    pub count-enqueue :
        (a x : A) (q : Q.Queue)
        → length (Q.items q) < Q.capacity q
        → count x (Q.items (Q.enqueue_unchecked a q)) ≡ count x (Q.items q) + one a x
    count-enqueue a x q l =
        rw (Q.items-enqueue a q l) (omega (arith, count-append (λ y. y == x) (Q.items q) (a ∷ [])))

    pub count-dequeue :
        (a x : A) (q : Q.Queue)
        → (Q.dequeue q).0 ≡ some a
        → count x (Q.items (Q.dequeue q).1) + one a x ≡ count x (Q.items q)
    count-dequeue a x q h = rw (dequeued q a h) (omega arith)

module _ {F : Spsc ℕ} {R : Spsc Slot} {S : SysTick} {H : BinaryHeap (NotReady Ident)}
    {Input : Type 0} (layout : Layout) (s : Store F R S H Input) where
  pub in_free-take_free :
      (y x : Slot)
      → (take_free layout y.0 s).0 ≡ some y.1
      → in_free (take_free layout y.0 s).1 x + one y x ≡ in_free s x
  unfolding take_free
  in_free-take_free y x h = elim (Bool-cases (y.0 == x.0)) [
    | inl p ↦ ground (
      arith,
      p,
      ap (λ t. count x.1 (F.items (s.free t))) (eq_of_beq y.0 x.0 p),
      count-dequeue F y.1 x.1 (s.free y.0) h,
    )
    | inr p ↦ ground (arith, p)
  ]

  pub take_free-none : (t : Ident) → (take_free layout t s).0 ≡ none → F.items (s.free t) ≡ []
  unfolding take_free
  take_free-none t e = dequeued_nil F (s.free t) e

  pub in_free-put_free :
      (y x : Slot)
      → length (F.items (s.free y.0)) < F.capacity (s.free y.0)
      → in_free (put_free layout y s) x ≡ in_free s x + one y x
  unfolding put_free
  in_free-put_free y x l = elim (Bool-cases (y.0 == x.0)) [
    | inl p ↦ ground (
      arith,
      p,
      ap (λ t. count x.1 (F.items (s.free t))) (eq_of_beq y.0 x.0 p),
      count-enqueue F y.1 x.1 (s.free y.0) l,
    )
    | inr p ↦ ground (arith, p)
  ]

  -- The entries of a ready queue with one more, or one less.
  pub count-push_ready :
      (y x : Slot) (l : ℕ)
      → length (R.items (s.ready (layout.level y.0))) < R.capacity (s.ready (layout.level y.0))
      → count x (R.items ((push_ready layout y s).ready l))
        ≡ count x (R.items (s.ready l)) + (if layout.level y.0 == l then one y x else 0)
  unfolding push_ready
  count-push_ready y x l h = elim (Bool-cases (layout.level y.0 == l)) [
    | inl p ↦ ground (
      arith,
      p,
      ap (λ k. count x (R.items (s.ready k))) (eq_of_beq (layout.level y.0) l p),
      count-enqueue R y x (s.ready (layout.level y.0)) h,
    )
    | inr p ↦ ground (arith, p)
  ]

  pub count-pop_ready :
      (y x : Slot) (k l : ℕ)
      → (pop_ready layout k s).0 ≡ some y
      → count x (R.items ((pop_ready layout k s).1.ready l)) + (if k == l then one y x else 0)
        ≡ count x (R.items (s.ready l))
  unfolding pop_ready
  count-pop_ready y x k l h = elim (Bool-cases (k == l)) [
    | inl p ↦ ground (
      arith,
      p,
      ap (λ k. count x (R.items (s.ready k))) (eq_of_beq k l p),
      count-dequeue R y x (s.ready k) h,
    )
    | inr p ↦ ground (arith, p)
  ]
