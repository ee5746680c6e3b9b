-- ===== src/Runtime/Clock/Arithmetic.antt =====
-- Instants and durations: what goes forward comes back.
use rtfm.Common.{
  ℕ, ◌+◌, ◌%◌, ◌^◌, ◌≤◌, ◌<◌, ◌≡◌, ◌⊎◌, Bool, ◌&&◌, arith, if◌then◌else◌, ltb, leb, ok, panic,
  ◌>>=◌,
}
use rtfm.Runtime.Clock.{
  Instant, Duration, duration_since, add_assign, sub_assign, add_durations, sub_durations, at,
}

-- Going forward by a duration below 2 ^ 31 cycles and back again returns the same instant, without a
-- panic, in any build.
pub sub_assign-add_assign :
    (debug : Bool) (i : Instant) (d : Duration)
    → i.bits < 2 ^ 32
    → d.cycles < 2 ^ 31
    → (add_assign debug i d >>= λ j. sub_assign debug j d) ≡ ok i
unfolding add_assign sub_assign
sub_assign-add_assign debug i d hi hd = ground arith

-- The duration from a time to one less than 2 ^ 31 cycles later: it is the difference, except that a
-- build with overflow checks panics if the counter passes 2 ^ 31 in between.
pub duration_since-at :
    (debug : Bool) (u d : ℕ)
    → d < 2 ^ 31
    → duration_since debug (at (u + d)) (at u) ≡ (
        if debug && ltb (u % 2 ^ 32) (2 ^ 31) && leb (2 ^ 31) ((u + d) % 2 ^ 32)
        then panic
        else ok (record { cycles = d }))
unfolding duration_since
duration_since-at debug u d h = ground arith

-- The duration to a time that is later by up to 2 ^ 31 cycles is a panic, in any build.
pub duration_since_later :
    (debug : Bool) (u d : ℕ) → 0 < d → d ≤ 2 ^ 31 → duration_since debug (at u) (at (u + d)) ≡ panic
unfolding duration_since
duration_since_later debug u d h k = ground arith

-- Taking a summand from the sum of two durations returns the other, if the build checks overflow or
-- the sum fits 32 bits.
pub sub_durations-add_durations :
    (debug : Bool) (a b s : Duration)
    → a.cycles < 2 ^ 32
    → b.cycles < 2 ^ 32
    → add_durations debug a b ≡ ok s
    → (debug ≡ Bool.true) ⊎ (a.cycles + b.cycles < 2 ^ 32)
    → sub_durations debug s b ≡ ok a
unfolding add_durations sub_durations
sub_durations-add_durations debug a b s ha hb e h = ground arith
