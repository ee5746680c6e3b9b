-- ===== src/Runtime/Priority.antt =====
-- `logical2hw` of src/lib.rs, on `u8`, and the arithmetic that it stands on.
use rtfm.Common.{
  ℕ, zero, suc, ◌+◌, ◌-◌, ◌*◌, ◌%◌, ◌^◌, ◌≤◌, ◌<◌, ◌≡◌, refl, ◌↔◌, Bool, Outcome, ok, panic, ◌>>=◌,
  arith, ltb, leb, dec_lt, if◌then◌else◌,
}

-- `a << n` on `u8`: bits that leave at the top are lost; a shift by 8 or more panics where the
-- build checks overflow, and otherwise shifts by `n % 8`.
unfoldable pub shl8 : Bool → ℕ → ℕ → Outcome ℕ
shl8 debug a n =
    if leb 8 n then if debug then panic else ok (a * 2 ^ (n % 8) % 256) else ok (a * 2 ^ n % 256)

-- `a - b` on `u8`.
unfoldable pub sub8 : Bool → ℕ → ℕ → Outcome ℕ
sub8 debug a b = if ltb a b then if debug then panic else ok ((a + 256 - b) % 256) else ok (a - b)

unfoldable pub logical2hw : Bool → ℕ → ℕ → Outcome ℕ
unfolding shl8 sub8
logical2hw debug logical nvic_prio_bits = do
  levels ← shl8 debug 1 nvic_prio_bits
  flipped ← sub8 debug levels logical
  unused ← sub8 debug 8 nvic_prio_bits
  shl8 debug flipped unused

-- The register value of a logical priority, written as one expression.
abbrev pub hw : ℕ → ℕ → ℕ
hw nvic_prio_bits logical = (2 ^ nvic_prio_bits - logical) * 2 ^ (8 - nvic_prio_bits) % 256

-- A fact about each width that the code supports.
by_bits {ℓ} :
    (P : ℕ → Type ℓ) → P 1 → P 2 → P 3 → P 4 → P 5 → P 6 → P 7 → (n : ℕ) → 0 < n → n < 8 → P n
by_bits P a b c d e f g zero l h = absurd (omega arith)
by_bits P a b c d e f g (suc zero) l h = a
by_bits P a b c d e f g (suc (suc zero)) l h = b
by_bits P a b c d e f g (suc (suc (suc zero))) l h = c
by_bits P a b c d e f g (suc (suc (suc (suc zero)))) l h = d
by_bits P a b c d e f g (suc (suc (suc (suc (suc zero))))) l h = e
by_bits P a b c d e f g (suc (suc (suc (suc (suc (suc zero)))))) l h = f
by_bits P a b c d e f g (suc (suc (suc (suc (suc (suc (suc zero))))))) l h = g
by_bits P a b c d e f g (suc (suc (suc (suc (suc (suc (suc (suc n)))))))) l h = absurd (omega arith)

-- Within the widths 1 to 7 and the priorities of the device nothing overflows, in any build.
pub logical2hw-hw :
    (debug : Bool) (logical nvic_prio_bits : ℕ)
    → 0 < nvic_prio_bits
    → nvic_prio_bits < 8
    → logical ≤ 2 ^ nvic_prio_bits
    → logical2hw debug logical nvic_prio_bits ≡ ok (hw nvic_prio_bits logical)
unfolding logical2hw
logical2hw-hw debug logical n l h =
    by_bits (λ n. logical ≤ 2 ^ n → logical2hw debug logical n ≡ ok (hw n logical))
      (λ k. ground arith) (λ k. ground arith) (λ k. ground arith) (λ k. ground arith)
      (λ k. ground arith) (λ k. ground arith) (λ k. ground arith) n l h

module _ (n : ℕ) (l : 0 < n) (h : n < 8) where
  -- A higher logical priority has a lower register value.
  pub hw_lt : (p q : ℕ) → 0 < p → p < q → q ≤ 2 ^ n → hw n q < hw n p
  hw_lt p q p0 pq k =
      by_bits (λ n. q ≤ 2 ^ n → hw n q < hw n p) (λ k. omega arith) (λ k. omega arith)
        (λ k. omega arith) (λ k. omega arith) (λ k. omega arith) (λ k. omega arith)
        (λ k. omega arith) n l h k

  -- Below the top priority the value is not 0, so that it does mask.
  pub hw_pos : (p : ℕ) → 0 < p → p < 2 ^ n → 0 < hw n p
  hw_pos p p0 k =
      by_bits (λ n. p < 2 ^ n → 0 < hw n p) (λ k. omega arith) (λ k. omega arith) (λ k. omega arith)
        (λ k. omega arith) (λ k. omega arith) (λ k. omega arith) (λ k. omega arith) n l h k

  -- The value uses the implemented bits of the register alone.
  pub hw_aligned : (p : ℕ) → (hw n p % 2 ^ (8 - n) ≡ 0) × (hw n p < 256)
  hw_aligned p =
      by_bits (λ n. (hw n p % 2 ^ (8 - n) ≡ 0) × (hw n p < 256)) (omega arith) (omega arith)
        (omega arith) (omega arith) (omega arith) (omega arith) (omega arith) n l h

  pub hw_zero : hw n 0 ≡ 0
  hw_zero = by_bits (λ n. hw n 0 ≡ 0) refl refl refl refl refl refl refl n l h

  pub two_le_levels : 2 ≤ 2 ^ n
  two_le_levels =
      by_bits (λ n. 2 ≤ 2 ^ n) (omega arith) (omega arith) (omega arith) (omega arith) (omega arith)
        (omega arith) (omega arith) n l h

  pub levels_le : 2 ^ n ≤ 128
  levels_le =
      by_bits (λ n. 2 ^ n ≤ 128) (omega arith) (omega arith) (omega arith) (omega arith)
        (omega arith) (omega arith) (omega arith) n l h

-- A handler of priority `p` is masked by the BASEPRI of priority `c` just if it is not above it.
pub hw_masks :
    (n p c : ℕ)
    → 0 < n
    → n < 8
    → 0 < p
    → p ≤ 2 ^ n
    → 0 < c
    → c < 2 ^ n
    → (hw n c ≤ hw n p) ↔ (p ≤ c)
hw_masks n p c l h p0 pk c0 ck =
    (λ m. ground (arith, hw_lt n l h c p c0, dec_lt c p), λ m. ground (arith, hw_lt n l h p c p0))
