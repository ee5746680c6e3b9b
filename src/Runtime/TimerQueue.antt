-- ===== src/Runtime/TimerQueue.antt =====
-- The timer queue of src/tq.rs. The heap of `heapless` and the registers SYST and ICSR of
-- `cortex-m` are interfaces; each reading of the cycle counter is an argument.
pub mod Delivery
use rtfm.Common.{
  ℕ, zero, suc, ◌+◌, ◌^◌, ◌≡◌, min, Ordering, Bool, true, false, Option, none, some, eqb,
  if◌then◌else◌,
}
use rtfm.Runtime.Clock.{Instant, wrapping_sub, is_negative, now, cmp}

-- `BinaryHeap`, as its documentation gives it: `peek` shows what `pop` takes, and each operation
-- changes the number of entries by one. The capacity is the caller's concern (`unchecked`).
pub record BinaryHeap (A : Type 0) : Type 1 where
  pub Heap : Type 0
  pub empty : Heap
  pub peek : Heap → Option A
  pub push_unchecked : A → Heap → Heap
  pub pop_unchecked : Heap → A × Heap
  pub len : Heap → ℕ
  pub peek-empty : peek empty ≡ none
  pub pop-peek : (h : Heap) (a : A) → peek h ≡ some a → (pop_unchecked h).0 ≡ a
  pub len-pop : (h : Heap) (a : A) → peek h ≡ some a → suc (len (pop_unchecked h).1) ≡ len h
  pub len-push : (a : A) (h : Heap) → len (push_unchecked a h) ≡ suc (len h)

-- The SysTick timer, and the pending bit of its exception.
pub record SysTick : Type 1 where
  pub Syst : Type 0
  pub enable_interrupt : Syst → Syst
  pub disable_interrupt : Syst → Syst
  pub set_reload : ℕ → Syst → Syst
  pub clear_current : Syst → Syst
  pub set_pending : Syst → Syst

pub record NotReady (T : Type 0) : Type 0 where
  pub index : ℕ
  pub instant : Instant
  pub task : T

unfoldable pub compare_not_ready : {T : Type 0} → NotReady T → NotReady T → Ordering
compare_not_ready self other = cmp self.instant other.instant

unfoldable pub eq_not_ready : {T : Type 0} → NotReady T → NotReady T → Bool
eq_not_ready self other = eqb self.instant.bits other.instant.bits

abbrev is_lt : Ordering → Bool
is_lt Ordering.lt = true
is_lt order = false

module _ (S : SysTick) {T : Type 0} (H : BinaryHeap (NotReady T)) where
  pub record TimerQueue : Type 0 where
    pub syst : S.Syst
    pub queue : H.Heap

  unfoldable pub new : S.Syst → TimerQueue
  new syst = record { syst = syst; queue = H.empty }

  unfoldable pub enqueue_unchecked : NotReady T → TimerQueue → TimerQueue
  enqueue_unchecked nr self =
      let syst : S.Syst = elim (H.peek self.queue) [
        | none ↦ S.set_pending (S.enable_interrupt self.syst)
        | some head ↦
            if is_lt (cmp nr.instant head.instant) then S.set_pending self.syst else self.syst
      ] in
      record { syst = syst; queue = H.push_unchecked nr self.queue }

  -- The closure that `isr` runs under `claim` in each round.
  unfoldable pub poll : ℕ → TimerQueue → Option (T × ℕ) × TimerQueue
  poll get_cycle_count tq = elim (H.peek tq.queue) [
    | none ↦ (none, record tq { syst = S.disable_interrupt tq.syst })
    | some p ↦
        let diff : ℕ = wrapping_sub p.instant.bits (now get_cycle_count).bits in
        if is_negative diff
        then (let m = H.pop_unchecked tq.queue in
            (some (m.0.task, m.0.index), record tq { queue = m.1 }))
        else (none, record tq { syst = S.clear_current (S.set_reload (min 16777215 diff) tq.syst) })
  ]

  -- The loop of `isr`. Round `k` reads `clock k` from the cycle counter. The result is none if the
  -- fuel does not suffice, and otherwise what the calls of `f` and the rounds leave.
  unfoldable pub isr :
      {D : Type 0} → (T → ℕ → D → D) → (ℕ → ℕ) → ℕ → ℕ → D → TimerQueue → Option (D × TimerQueue)
  unfolding poll
  isr f clock zero k d tq = none
  isr f clock (suc fuel) k d tq =
      let next = poll (clock k) tq in
      elim next.0 [
        | none ↦ some (d, next.1)
        | some m ↦ isr f clock fuel (suc k) (f m.0 m.1 d) next.1
      ]
