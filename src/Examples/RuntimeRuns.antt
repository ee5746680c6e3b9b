-- ===== src/Examples/RuntimeRuns.antt =====
-- The theorems on the runtime at the example device.
use rtfm.Common.{ℕ, ◌+◌, ◌≤◌, ◌≡◌, refl, true, false, Ordering, Outcome, ok, panic, ◌>>=◌, arith}
use rtfm.Runtime.Core.{run, run_restores}
use rtfm.Runtime.Priority.{shl8, sub8, logical2hw, logical2hw-hw}
use rtfm.Runtime.Clock.{Instant, duration_since, add_assign, sub_assign, add_durations, cmp, at}
use rtfm.Runtime.Clock.Order.{cmp-compare, cmp_not_transitive}
use rtfm.Runtime.Clock.Arithmetic.{sub_assign-add_assign, duration_since-at, duration_since_later}
use rtfm.Runtime.Mutex.{Context, claim, claim_masking}
use rtfm.Runtime.Mutex.Section.{Nesting, leave}
use rtfm.Runtime.Mutex.Protects.{IsBlocked, claim_protects}
use rtfm.Runtime.Mutex.Restores.{Keeps, claim-Keeps, claim_masking-Keeps}
use rtfm.Examples.Device.{Registers, registers, device}

-- A closure that counts, and returns the count.
abbrev increment : Context device ℕ → Outcome (ℕ × Context device ℕ)
increment c = ok (c.memory, record c { memory = c.memory + 1 })

abbrev at_one : Context device ℕ
at_one = record { priority = 1; core = registers 0 false; memory = 7 }

increment-Keeps : Keeps device increment
increment-Keeps c r c' e = ground arith

logical2hw-hw_example : logical2hw true 2 3 ≡ ok 192
logical2hw-hw_example = logical2hw-hw true 2 3 (omega arith) (omega arith) (omega arith)

claim_protects_example :
    (n : Nesting device) × (c : Context device ℕ) × (claim device true 2 increment at_one
      ≡ (increment c >>= λ y. leave device true 1 n y.1 >>= λ c'. ok (y.0, c')))
    × (2 ≤ c.priority)
    × (c.memory ≡ 7)
    × IsBlocked device c.core 2
claim_protects_example =
    claim_protects device (omega arith) (omega arith) true 2 increment at_one (omega arith)
      (omega arith) 2 (omega arith) (omega arith)

-- BASEPRI ends at the register value of priority 1.
abbrev after_claim : Context device ℕ
after_claim = record { priority = 1; core = registers 224 false; memory = 8 }

claim_run : claim device true 2 (claim device true 8 increment) at_one ≡ ok (7, after_claim)
unfolding claim logical2hw shl8 sub8
claim_run = refl

claim-Keeps_example : (1 ≡ at_one.priority) × (false ≡ device.is_masked at_one.core)
claim-Keeps_example =
    claim-Keeps device true 2 (claim device true 8 increment)
      (λ c r c' e. claim-Keeps device true 8 increment increment-Keeps c r c' e) at_one 7
      after_claim claim_run

masking_run :
    claim_masking device 2 increment at_one
    ≡ ok (7, record { priority = 1; core = registers 0 false; memory = 8 })
unfolding claim_masking
masking_run = refl

claim_masking-Keeps_example : (1 ≡ at_one.priority) × (false ≡ at_one.core.primask)
claim_masking-Keeps_example =
    claim_masking-Keeps device 2 increment increment-Keeps at_one 7
      (record { priority = 1; core = registers 0 false; memory = 8 }) masking_run

-- A handler that leaves another BASEPRI behind.
abbrev handler : Registers → Outcome (ℕ × Registers)
handler c = ok (5, registers 96 c.primask)

handler-run : run device handler (registers 32 false) ≡ ok (5, registers 32 false)
unfolding run
handler-run = refl

run_restores_example :
    ((registers 32 false).basepri ≡ (registers 32 false).basepri)
    × ((c'' : Registers) × (handler (registers 32 false) ≡ ok (5, c''))
        × (registers 32 false ≡ record c'' { basepri = 32 }))
run_restores_example =
    run_restores device handler (registers 32 false) (registers 32 false) 5 handler-run

cmp-compare_example : cmp (at 4294967290) (at 4294967300) ≡ Ordering.lt
cmp-compare_example = cmp-compare 4294967290 4294967300 (omega arith) (omega arith)

abbrev low : Instant
low = record { bits = 5 }

abbrev high : Instant
high = record { bits = 2147483653 }

cmp_not_transitive_example :
    (cmp (at 0) (at 2000000000) ≡ Ordering.lt)
    × (cmp (at 2000000000) (at 4000000000) ≡ Ordering.lt)
    × (cmp (at 0) (at 4000000000) ≡ Ordering.gt)
cmp_not_transitive_example =
    cmp_not_transitive 0 2000000000 2000000000 (omega arith) (omega arith) (omega arith)
      (omega arith) (omega arith)

sub_assign-add_assign_example :
    (add_assign true high (record { cycles = 2147483647 }) >>= λ j.
    sub_assign true j (record { cycles = 2147483647 }))
    ≡ ok high
sub_assign-add_assign_example =
    sub_assign-add_assign true high (record { cycles = 2147483647 }) (omega arith) (omega arith)

duration_since-at_example : duration_since true (at 2147483653) (at 2147483643) ≡ panic
duration_since-at_example = duration_since-at true 2147483643 10 (omega arith)

duration_since_later_example : duration_since false (at 10) (at 20) ≡ panic
duration_since_later_example = duration_since_later false 10 10 (omega arith) (omega arith)

sum :
    add_durations true (record { cycles = 3 }) (record { cycles = 4 }) ≡ ok (record { cycles = 7 })
unfolding add_durations
sum = refl
