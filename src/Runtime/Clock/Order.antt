-- ===== src/Runtime/Clock/Order.antt =====
-- How `Instant`'s order relates to the order of the true times.
use rtfm.Common.{ℕ, eqb, if◌then◌else◌, ◌+◌, ◌^◌, ◌<◌, ◌≡◌, compare, Ordering, arith}
use rtfm.Runtime.Clock.{Instant, wrapping_sub, cmp, at}

-- Of two times less than 2 ^ 31 cycles apart the instants compare as the times do, also when the
-- counter has wrapped between them.
pub cmp-compare : (t u : ℕ) → t < u + 2 ^ 31 → u < t + 2 ^ 31 → cmp (at t) (at u) ≡ compare t u
unfolding cmp
cmp-compare t u h k = ground arith

abbrev pub opposite : Ordering → Ordering
opposite Ordering.lt = Ordering.gt
opposite Ordering.eq = Ordering.eq
opposite Ordering.gt = Ordering.lt

-- Exchanging two instants turns their order around, except for instants exactly 2 ^ 31 cycles
-- apart: each of those is below the other.
pub cmp_swap :
    (a b : Instant)
    → a.bits < 2 ^ 32
    → b.bits < 2 ^ 32
    → cmp b a
      ≡ (if eqb (wrapping_sub a.bits b.bits) (2 ^ 31) then Ordering.lt else opposite (cmp a b))
unfolding cmp
cmp_swap a b ha hb = ground arith

-- It is no order on all instants: two steps forward of less than 2 ^ 31 cycles each that add up
-- to more lead to an instant that counts as earlier.
pub cmp_not_transitive :
    (t d e : ℕ)
    → 0 < d
    → d < 2 ^ 31
    → 0 < e
    → e < 2 ^ 31
    → 2 ^ 31 < d + e
    → (cmp (at t) (at (t + d)) ≡ Ordering.lt)
      × (cmp (at (t + d)) (at (t + d + e)) ≡ Ordering.lt)
      × (cmp (at t) (at (t + d + e)) ≡ Ordering.gt)
unfolding cmp
cmp_not_transitive t d e hd hd' he he' h = ground arith
