-- ===== src/Macro/Codegen/Sizes.antt =====
-- `mk_typenum_capacity` of macros/src/codegen.rs: the capacities of the generated queues, on `u8`.
use rtfm.Common.{
  ℕ, zero, suc, ◌+◌, ◌≤◌, ◌^◌, ◌≡◌, refl, ap, Bool, true, Bool-cases, inl, inr, Option, none, some,
  Outcome, ok, leb, arith, expect, if◌then◌else◌,
}

-- `checked_next_power_of_two` on `u8`: the first of the powers of two from 2 ^ k on, of which the
-- fuel counts those that are left, that is not below the number.
unfoldable pub first_power : ℕ → ℕ → ℕ → Option ℕ
first_power zero k n = none
first_power (suc fuel) k n =
    let rest = first_power fuel (suc k) n in if leb n (2 ^ k) then some (2 ^ k) else rest

unfoldable pub mk_typenum_capacity : ℕ → Bool → Outcome ℕ
unfolding first_power
mk_typenum_capacity capacity power_of_two =
    if power_of_two then expect (first_power 8 0 capacity) else ok capacity

first_power-some :
    (fuel k n : ℕ) → n ≤ 2 ^ (k + fuel) → (p : ℕ) × (first_power (suc fuel) k n ≡ some p) × (n ≤ p)
unfolding first_power
first_power-some zero k n l = (
  2 ^ k,
  ground (arith, ap (λ j. 2 ^ j) (add_zero k)),
  omega (arith, ap (λ j. 2 ^ j) (add_zero k)),
)
  where
    add_zero : (j : ℕ) → j + 0 ≡ j
    add_zero j = omega arith
first_power-some (suc fuel) k n l = elim (Bool-cases (leb n (2 ^ k))) [
  | inl p ↦ (2 ^ k, rw (p, first_power) refl, ground (arith, p))
  | inr p ↦
      let (q, e, le) =
        first_power-some fuel (suc k) n (omega (arith, ap (λ j. 2 ^ j) (add_suc k fuel))) in
      (q, rw (p, first_power) e, le)
]
  where
    add_suc : (j i : ℕ) → j + suc i ≡ suc j + i
    add_suc j i = omega arith

-- A capacity up to 128 is rounded up; a greater one is a panic of the macro.
pub mk_typenum_capacity-ok :
    (n : ℕ) → n ≤ 128 → (p : ℕ) × (mk_typenum_capacity n true ≡ ok p) × (n ≤ p)
unfolding mk_typenum_capacity
mk_typenum_capacity-ok n l =
    let (p, e, le) = first_power-some 7 0 n l in (p, rw (e, mk_typenum_capacity) refl, le)
