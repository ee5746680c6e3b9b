-- ===== src/Messages.antt =====
-- The message passing of the code that macros/src/codegen.rs generates: for each task a free queue
-- of slots and the arrays of the inputs and of the baselines, for each priority a ready queue, and
-- the timer queue. The state of the generated statics, the generated functions on it, and what
-- they do between two points at which another handler may run.
pub mod Queue
pub mod Steps
pub mod Count
pub mod Ownership
pub mod Fifo
pub mod Calls
pub mod Analysed
use rtfm.Common.{
  ℕ, zero, suc, ◌+◌, ◌≤◌, ◌<◌, ◌≡◌, Bool, true, false, ◌&&◌, ap, ap₂, arith, eq_of_beq, beq_of_eq,
  subst, Bool-cases, inl, inr, List, [], ◌∷◌, Option, none, some, Outcome, ok, panic, ◌>>=◌, ◌>>◌,
  assert, expect, Eq, ◌==◌, nat_eq, string_eq, ltb, In, if◌then◌else◌,
}
use rtfm.Runtime.Clock.{Instant}
use rtfm.Runtime.TimerQueue.{BinaryHeap, SysTick, NotReady, TimerQueue, new, enqueue_unchecked}
use rtfm.Macro.Syntax.{Ident, Idents}
use Queue.{Spsc}

abbrev pub total : (Ident → ℕ) → Idents → ℕ
total f [] = 0
total f (t ∷ ts) = f t + total f ts

-- What the generated code has of the analysis: the priority of each task, the number of its
-- slots (none for a name that is not a task) and the capacity of its free queue, the tasks and the
-- capacity of each dispatcher, and those of the timer queue; the ceiling under which the producers
-- of each ready queue claim it, and the priority of the handler of SysTick. That handler is one of
-- the producers, and `timer_locked` says that the claims exclude it. The analysis does not see to
-- that: it takes the ceilings from the callers of `spawn` only, so for an application with tasks in
-- the timer queue it is a condition, without which SysTick can preempt an `enqueue_unchecked`.
pub record Layout : Type 0 where
  pub level : Ident → ℕ
  pub capacity : Ident → ℕ
  pub free_capacity : Ident → ℕ
  pub tasks : ℕ → Idents
  pub ready_capacity : ℕ → ℕ
  pub timer_tasks : Idents
  pub timer_capacity : ℕ
  pub ready_ceiling : ℕ → ℕ
  pub timer_priority : ℕ
  pub in_tasks : (t : Ident) → 0 < capacity t → In t (tasks (level t))
  pub free_fits : (t : Ident) → capacity t ≤ free_capacity t
  pub ready_fits : (l : ℕ) → total capacity (tasks l) ≤ ready_capacity l
  pub timer_fits : total capacity timer_tasks ≤ timer_capacity
  pub timer_locked : (t : Ident) → In t timer_tasks → timer_priority ≤ ready_ceiling (level t)

-- A place in the arrays of a task.
abbrev pub Slot : Type 0
Slot = Ident × ℕ

abbrev same_slot : Slot → Slot → Bool
same_slot (t, i) (u, j) = (t == u) && (i == j)

instance abbrev pub slot_eq : Eq Slot
slot_eq = record {
  beq = same_slot;
  beq_iff = λ x y. (
    λ h.
        ap₂ (λ t i. (t, i)) (eq_of_beq x.0 y.0 (ground (arith, h)))
          (eq_of_beq x.1 y.1 (ground (arith, h))),
    λ h. ground (arith, beq_of_eq x.0 y.0 (ap (λ z. z.0) h), beq_of_eq x.1 y.1 (ap (λ z. z.1) h)),
  );
}

module _ {K V : Type 0} ⦃e : Eq K⦄ where
  -- A write to a table.
  abbrev pub put : K → V → (K → V) → K → V
  put k v f j = if k == j then v else f j

  -- What holds of the new entry and of the old ones holds of all.
  pub put-All :
      (P : K → V → Type 0) (k : K) (v : V) (f : K → V)
      → P k v
      → ((j : K) → P j (f j))
      → (j : K) → P j (put k v f j)
  put-All P k v f new old j = elim (Bool-cases (k == j)) [
    | inl p ↦ rw p (subst (λ i. P i v) (eq_of_beq k j p) new)
    | inr p ↦ rw p (old j)
  ]

module _ (Input : Type 0) where
  -- The inputs of a message (the tuples of all tasks as one type), and its baseline.
  pub record Message : Type 0 where
    pub input : Input
    pub baseline : Instant

module _ (F : Spsc ℕ) (R : Spsc Slot) (S : SysTick) (H : BinaryHeap (NotReady Ident))
    (Input : Type 0) where
  -- The generated statics, and which interrupts were pended. An entry of an array is none until it
  -- is written: the arrays start as `mem::uninitialized()`.
  pub record Store : Type 0 where
    pub free : Ident → F.Queue
    pub inputs : Slot → Option Input
    pub scheduleds : Slot → Option Instant
    pub ready : ℕ → R.Queue
    pub timer : TimerQueue S H
    pub pended : ℕ → Bool

module _ {F : Spsc ℕ} {R : Spsc Slot} {S : SysTick} {H : BinaryHeap (NotReady Ident)}
    {Input : Type 0} (layout : Layout) where
  -- `(#free { #priority }).claim(|f| f.split().1.dequeue())`.
  unfoldable pub take_free : Ident → Store F R S H Input → Option ℕ × Store F R S H Input
  take_free t s = let r = F.dequeue (s.free t) in (r.0, record s { free = put t r.1 s.free })

  -- `ptr::write(#inputs.get_mut().get_unchecked_mut(..), ..)`. Out of bounds the behaviour is
  -- undefined, here a panic.
  unfoldable pub write_input : Slot → Input → Store F R S H Input → Outcome (Store F R S H Input)
  write_input slot input s = do
    assert (ltb slot.1 (layout.capacity slot.0))
    ok (record s { inputs = put slot (some input) s.inputs })

  -- `ptr::write(#scheduleds.get_mut().get_unchecked_mut(..), ..)`.
  unfoldable pub write_scheduled :
      Slot → Instant → Store F R S H Input → Outcome (Store F R S H Input)
  write_scheduled slot instant s = do
    assert (ltb slot.1 (layout.capacity slot.0))
    ok (record s { scheduleds = put slot (some instant) s.scheduleds })

  -- `#ready { #priority }.claim(|rq| rq.split().0.enqueue_unchecked(..))`.
  unfoldable pub push_ready : Slot → Store F R S H Input → Store F R S H Input
  push_ready slot s =
      let l = layout.level slot.0 in
      record s { ready = put l (R.enqueue_unchecked slot (s.ready l)) s.ready }

  -- `rtfm::pend(#device::Interrupt::#dispatcher)`.
  unfoldable pub pend : ℕ → Store F R S H Input → Store F R S H Input
  pend level s = record s { pended = put level true s.pended }

  -- `({#timer_queue { #priority }}).claim(|tq| tq.enqueue_unchecked(nr))`.
  unfoldable pub push_timer : Slot → Instant → Store F R S H Input → Store F R S H Input
  push_timer slot instant s =
      let nr : NotReady Ident = record { index = slot.1; instant = instant; task = slot.0 } in
      record s { timer = enqueue_unchecked S H nr s.timer }

  -- `#ready_alias.get_mut().split().1.dequeue()`.
  unfoldable pub pop_ready : ℕ → Store F R S H Input → Option Slot × Store F R S H Input
  pop_ready l s = let r = R.dequeue (s.ready l) in (r.0, record s { ready = put l r.1 s.ready })

  -- The two `ptr::read` of an arm of the dispatcher. To read what was never written is undefined
  -- behaviour, here a panic.
  unfoldable pub read_slot : Slot → Store F R S H Input → Outcome (Message Input)
  read_slot slot s = do
    assert (ltb slot.1 (layout.capacity slot.0))
    baseline ← expect (s.scheduleds slot)
    input ← expect (s.inputs slot)
    ok (record { input = input; baseline = baseline })

  -- `#free.get_mut().split().0.enqueue_unchecked(index)`.
  unfoldable pub put_free : Slot → Store F R S H Input → Store F R S H Input
  put_free slot s = record s {
    free = put slot.0 (F.enqueue_unchecked slot.1 (s.free slot.0)) s.free;
  }

  -- The generated `spawn` function of a task, without preemption: the input comes back in an error.
  unfoldable pub spawn :
      Ident → Message Input → Store F R S H Input → Outcome (Option Input × Store F R S H Input)
  unfolding take_free write_input write_scheduled push_ready pend
  spawn t m s =
      let r = take_free t s in
      elim r.0 [
        | none ↦ ok (some m.input, r.1)
        | some index ↦ do
          s₁ ← write_input (t, index) m.input r.1
          s₂ ← write_scheduled (t, index) m.baseline s₁
          ok (none, pend (layout.level t) (push_ready (t, index) s₂))
      ]

  -- The generated `schedule` function of a task.
  unfoldable pub schedule :
      Ident → Message Input → Store F R S H Input → Outcome (Option Input × Store F R S H Input)
  unfolding take_free write_input write_scheduled push_timer
  schedule t m s =
      let r = take_free t s in
      elim r.0 [
        | none ↦ ok (some m.input, r.1)
        | some index ↦ do
          s₁ ← write_input (t, index) m.input r.1
          s₂ ← write_scheduled (t, index) m.baseline s₁
          ok (none, push_timer (t, index) m.baseline s₂)
      ]

  -- An arm of the closure that `SysTick` hands to `sys_tick`.
  unfoldable pub forward : Slot → Store F R S H Input → Store F R S H Input
  unfolding push_ready pend
  forward slot s = pend (layout.level slot.0) (push_ready slot s)

  -- A round of the dispatcher's loop, up to the call of the task: none if the ready queue is empty.
  unfoldable pub receive :
      ℕ → Store F R S H Input → Outcome (Option (Slot × Message Input) × Store F R S H Input)
  unfolding pop_ready read_slot put_free
  receive l s =
      let r = pop_ready l s in
      elim r.0 [
        | none ↦ ok (none, r.1)
        | some slot ↦ do m ← read_slot slot r.1; ok (some (slot, m), put_free slot r.1)
      ]

module _ (F : Spsc ℕ) (R : Spsc Slot) (S : SysTick) (H : BinaryHeap (NotReady Ident))
    (Input : Type 0) (layout : Layout) where
  -- `for i in 0..#capacity { #alias.get_mut().enqueue_unchecked(i); }`, from `i` on.
  unfoldable pub fill : ℕ → ℕ → F.Queue → F.Queue
  fill zero i q = q
  fill (suc n) i q = fill n (suc i) (F.enqueue_unchecked i q)

  -- `pre_init`: the statics are set, and the free queues are filled. (Without tasks in the timer
  -- queue there is no such queue, and nothing uses the one here.)
  unfoldable pub pre_init : S.Syst → Store F R S H Input
  unfolding fill new
  pre_init syst = record {
    free = λ t. fill (layout.capacity t) 0 (F.new (layout.free_capacity t));
    inputs = λ slot. none;
    scheduleds = λ slot. none;
    ready = λ l. R.new (layout.ready_capacity l);
    timer = new S H syst;
    pended = λ l. false;
  }
