-- ===== src/Runtime/Clock.antt =====
-- `Instant` and `Duration` of src/lib.rs. An `i32` and a `u32` are their bit patterns, numbers
-- below 2 ^ 32; `as` between the two keeps the pattern. `debug` says whether the build checks
-- overflow and runs `debug_assert!`, as cargo's dev profile does.
pub mod Order
pub mod Arithmetic
use rtfm.Common.{
  ℕ, ◌+◌, ◌-◌, ◌%◌, ◌^◌, ◌<◌, Ordering, Bool, true, false, ◌&&◌, ◌||◌, not, ltb, leb, eqb,
  if◌then◌else◌, Outcome, ok, panic, ◌>>=◌, ◌>>◌, assert,
}

pub record Instant : Type 0 where
  pub bits : ℕ

pub record Duration : Type 0 where
  pub cycles : ℕ

-- `i32::wrapping_add` and `i32::wrapping_sub`.
unfoldable pub wrapping_add : ℕ → ℕ → ℕ
wrapping_add a b = (a + b) % 2 ^ 32

unfoldable pub wrapping_sub : ℕ → ℕ → ℕ
wrapping_sub a b = (a + 2 ^ 32 - b) % 2 ^ 32

-- The pattern stands for a negative number.
unfoldable pub is_negative : ℕ → Bool
is_negative a = leb (2 ^ 31) a

-- The number that the pattern stands for, plus 2 ^ 31.
abbrev pub biased : ℕ → ℕ
biased a = (a + 2 ^ 31) % 2 ^ 32

-- The difference of the two signed numbers does not fit an `i32`.
unfoldable pub sub_overflows : ℕ → ℕ → Bool
sub_overflows a b = leb (biased b + 2 ^ 31) (biased a) || ltb (biased a + 2 ^ 31) (biased b)

-- `a - b` on `i32`: a panic where the build checks overflow, otherwise the wrapped difference.
unfoldable pub checked_sub : Bool → ℕ → ℕ → Outcome ℕ
unfolding wrapping_sub sub_overflows
checked_sub debug a b = if debug && sub_overflows a b then panic else ok (wrapping_sub a b)

unfoldable pub artificial : ℕ → Instant
artificial timestamp = record { bits = timestamp }

-- `get_cycle_count` is the `u32` that the cycle counter holds.
unfoldable pub now : ℕ → Instant
now get_cycle_count = record { bits = get_cycle_count }

unfoldable pub duration_since : Bool → Instant → Instant → Outcome Duration
unfolding checked_sub is_negative
duration_since debug self earlier = do
  diff ← checked_sub debug self.bits earlier.bits
  assert (not (is_negative diff))
  ok (record { cycles = diff })

-- `Instant::now() - *self`.
unfoldable pub elapsed : Bool → ℕ → Instant → Outcome Duration
unfolding duration_since now
elapsed debug get_cycle_count self = duration_since debug (now get_cycle_count) self

-- `debug_assert!(dur.0 < (1 << 31))`.
abbrev pub debug_assert_short : Bool → Duration → Outcome (Unit {0})
debug_assert_short debug dur = assert (not debug || ltb dur.cycles (2 ^ 31))

unfoldable pub add_assign : Bool → Instant → Duration → Outcome Instant
unfolding wrapping_add
add_assign debug self dur = do
  debug_assert_short debug dur
  ok (record { bits = wrapping_add self.bits dur.cycles })

unfoldable pub sub_assign : Bool → Instant → Duration → Outcome Instant
unfolding wrapping_sub
sub_assign debug self dur = do
  debug_assert_short debug dur
  ok (record { bits = wrapping_sub self.bits dur.cycles })

-- `Ord::cmp`: the sign of the wrapped difference.
unfoldable pub cmp : Instant → Instant → Ordering
unfolding wrapping_sub is_negative
cmp self rhs =
    let diff = wrapping_sub self.bits rhs.bits in
    if eqb diff 0 then Ordering.eq else if is_negative diff then Ordering.lt else Ordering.gt

-- `Duration + Duration` and `Duration - Duration`, on plain `u32`.
unfoldable pub add_durations : Bool → Duration → Duration → Outcome Duration
add_durations debug self other =
    if debug && leb (2 ^ 32) (self.cycles + other.cycles)
    then panic
    else ok (record { cycles = (self.cycles + other.cycles) % 2 ^ 32 })

unfoldable pub sub_durations : Bool → Duration → Duration → Outcome Duration
sub_durations debug self rhs =
    if debug && ltb self.cycles rhs.cycles
    then panic
    else ok (record { cycles = (self.cycles + 2 ^ 32 - rhs.cycles) % 2 ^ 32 })

-- `U32Ext::cycles`.
unfoldable pub cycles : ℕ → Duration
cycles self = record { cycles = self }

-- What the cycle counter shows at the true time `t`, the number of cycles since it was started.
abbrev pub at : ℕ → Instant
at t = record { bits = t % 2 ^ 32 }
