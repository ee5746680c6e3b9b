-- ===== src/Runtime/TimerQueue/Delivery.antt =====
-- What a round of the timer queue's handler does, and that its loop ends with nothing overdue.
use rtfm.Common.{
  List, [], ◌∷◌, length, subst, ℕ, zero, suc, ◌+◌, ◌-◌, ◌^◌, ◌%◌, ◌<◌, ◌≡◌, refl, ◌⊎◌, inl, inr,
  min, false, none, some, Option-cases, Bool-cases, arith, ltb, if◌then◌else◌,
}
use rtfm.Runtime.Clock.{wrapping_sub, is_negative, now, at}
use rtfm.Runtime.TimerQueue.{BinaryHeap, SysTick, NotReady, TimerQueue, poll, isr}

-- The sign of the wrapped difference is that of the difference.
overdue :
    (t u : ℕ)
    → t < u + 2 ^ 31
    → u < t + 2 ^ 31
    → is_negative (wrapping_sub (t % 2 ^ 32) (u % 2 ^ 32)) ≡ ltb t u
unfolding is_negative wrapping_sub
overdue t u h k = ground arith

remaining :
    (t u : ℕ)
    → t < u + 2 ^ 31
    → u < t + 2 ^ 31
    → ltb t u ≡ false
    → wrapping_sub (t % 2 ^ 32) (u % 2 ^ 32) ≡ t - u
unfolding wrapping_sub
remaining t u h k l = ground arith

module _ (S : SysTick) {T : Type 0} (H : BinaryHeap (NotReady T)) where
  -- A round at the time `u`, with a first message for the time `t` less than 2 ^ 31 cycles away: if
  -- `t` has passed, the message is taken and delivered; otherwise it stays, and SysTick is set to the
  -- cycles that are left, or to its maximum if they are more.
  pub poll-at :
      (tq : TimerQueue S H) (p : NotReady T) (t u : ℕ)
      → H.peek tq.queue ≡ some p
      → p.instant ≡ at t
      → t < u + 2 ^ 31
      → u < t + 2 ^ 31
      → poll S H (u % 2 ^ 32) tq ≡ (
          if ltb t u
          then (some (p.task, p.index), record tq { queue = (H.pop_unchecked tq.queue).1 })
          else (
            none,
            record tq { syst = S.clear_current (S.set_reload (min 16777215 (t - u)) tq.syst) },
          ))
  unfolding poll now
  poll-at tq p t u head e h k =
      ground (arith, head, e, overdue t u h k, remaining t u h k, H.pop-peek tq.queue p head)

  -- At the counter value `v` no message is overdue: there is none, or the first one is not.
  abbrev pub Settled : ℕ → TimerQueue S H → Type 0
  Settled v tq =
      (H.peek tq.queue ≡ none)
      ⊎ ((p : NotReady T) × (H.peek tq.queue ≡ some p)
          × (is_negative (wrapping_sub p.instant.bits v) ≡ false))

  -- A round that delivers takes one message; one that does not leaves nothing overdue.
  poll-cases :
      (v : ℕ) (tq : TimerQueue S H)
      → (((poll S H v tq).0 ≡ none)
          × (H.len (poll S H v tq).1.queue ≡ H.len tq.queue)
          × Settled v (poll S H v tq).1)
        ⊎ ((m : T × ℕ) × ((poll S H v tq).0 ≡ some m)
            × (suc (H.len (poll S H v tq).1.queue) ≡ H.len tq.queue))
  unfolding poll now
  poll-cases v tq = elim (Option-cases (H.peek tq.queue)) [
    | inl e ↦ inl (rw (e, poll) (refl, refl, inl e))
    | inr (p, e) ↦ elim (Bool-cases (is_negative (wrapping_sub p.instant.bits v))) [
      | inl n ↦ inr (
          rw (e, n, poll)
            (
              ((H.pop_unchecked tq.queue).0.task, (H.pop_unchecked tq.queue).0.index),
              refl,
              H.len-pop tq.queue p e,
            ))
      | inr n ↦ inl (rw (e, n, poll) (refl, refl, inr (p, e, n)))
    ]
  ]

  same_round : (k : ℕ) → k ≡ k + 0
  same_round k = omega arith

  next_round : (k n : ℕ) → suc k + n ≡ k + suc n
  next_round k n = omega arith

  -- The calls of the closure for a list of messages.
  abbrev pub deliver : {D : Type 0} → (T → ℕ → D → D) → List (T × ℕ) → D → D
  deliver f [] d = d
  deliver f (m ∷ ms) d = deliver f ms (f m.0 m.1 d)

  -- With fuel above the number of messages the handler of the timer queue returns. It has called
  -- its closure once for each message that it took from the queue, one in each round but the last,
  -- and at the reading of the counter in the last round, whose number is that of the messages
  -- delivered, the queue that it leaves is empty or its first message is not overdue.
  pub isr-Settled :
      {D : Type 0} (f : T → ℕ → D → D) (clock : ℕ → ℕ) (fuel k : ℕ) (d : D) (tq : TimerQueue S H)
      → H.len tq.queue < fuel
      → (ms : List (T × ℕ)) × (rest : TimerQueue S H) × (isr S H f clock fuel k d tq
          ≡ some (deliver f ms d, rest))
        × (H.len rest.queue + length ms ≡ H.len tq.queue)
        × Settled (clock (k + length ms)) rest
  unfolding isr
  isr-Settled f clock zero k d tq l = absurd (omega arith)
  isr-Settled f clock (suc fuel) k d tq l = elim (poll-cases (clock k) tq) [
    | inl (e, same, s) ↦ (
      [],
      (poll S H (clock k) tq).1,
      rw (e, isr) refl,
      omega (arith, same),
      subst (λ j. Settled (clock j) (poll S H (clock k) tq).1) (same_round k) s,
    )
    | inr (m, e, n) ↦
        let (ms, rest, q, count, s) =
          isr-Settled f clock fuel (suc k) (f m.0 m.1 d) (poll S H (clock k) tq).1 (omega arith) in
        (
          m ∷ ms,
          rest,
          rw (e, isr) q,
          omega (arith, n, count),
          subst (λ j. Settled (clock j) rest) (next_round k (length ms)) s,
        )
  ]
