-- ===== src/Runtime/Mutex/Protects.antt =====
-- What a claim protects its closure from.
use rtfm.Common.{
  ℕ, ◌≤◌, ◌<◌, ◌≡◌, refl, ◌^◌, inl, inr, ◌⊎◌, Bool, true, Outcome, ok, ◌>>=◌, arith, ℕ_discrete,
}
use rtfm.Runtime.Core.{CortexM}
use rtfm.Runtime.Priority.{shl8, hw, logical2hw-hw, hw_masks, hw_pos, hw_aligned, levels_le}
use rtfm.Runtime.Mutex.{Context, claim}
use rtfm.Runtime.Mutex.Section.{Nesting, nested, masked, raised, enter, leave, claim-enter-leave}

-- The core does not start a handler of logical priority `p`: PRIMASK is set, or BASEPRI is not 0
-- and the handler's register value is not below it.
abbrev pub IsBlocked : (m : CortexM) → m.Core → ℕ → Type 0
IsBlocked m core p =
    (m.is_masked core ≡ true)
    ⊎ ((0 < m.read_basepri core) × (m.read_basepri core ≤ hw m.prio_bits p))

-- `1 << NVIC_PRIO_BITS` does not overflow at the widths that the code supports.
pub shl8_levels : (debug : Bool) (n : ℕ) → 0 < n → n < 8 → shl8 debug 1 n ≡ ok (2 ^ n)
unfolding shl8
shl8_levels debug n l h = ground (arith, levels_le n l h)

module _ (m : CortexM) (l : 0 < m.prio_bits) (h : m.prio_bits < 8) where
  -- The write that a raised BASEPRI makes reads back.
  pub read-write_hw :
      (p : ℕ) (c : m.Core)
      → m.read_basepri (m.write_basepri (hw m.prio_bits p) c) ≡ hw m.prio_bits p
  read-write_hw p c =
      m.read-write (hw m.prio_bits p) c (hw_aligned m.prio_bits l h p).1
        (hw_aligned m.prio_bits l h p).0

module _ (m : CortexM) (l : 0 < m.prio_bits) (h : m.prio_bits < 8) {D : Type 0} where
  pub enter_top :
      (debug : Bool) (ceiling : ℕ) (ctx : Context m D)
      → ctx.priority < ceiling
      → ceiling ≡ 2 ^ m.prio_bits
      → enter m debug ceiling ctx
        ≡ ok (masked ctx.core, record ctx { priority = 255; core = m.disable ctx.core })
  unfolding enter
  enter_top debug ceiling ctx below top = ground (arith, shl8_levels debug m.prio_bits l h)

  pub enter_raised :
      (debug : Bool) (ceiling : ℕ) (ctx : Context m D)
      → ctx.priority < ceiling
      → ceiling < 2 ^ m.prio_bits
      → enter m debug ceiling ctx
        ≡ ok (
          raised,
          record ctx {
            priority = ceiling;
            core = m.write_basepri (hw m.prio_bits ceiling) ctx.core;
          },
        )
  unfolding enter
  enter_raised debug ceiling ctx below top =
      ground (arith, shl8_levels debug m.prio_bits l h, logical2hw-hw debug ceiling m.prio_bits l h)

  pub enter_nested :
      (debug : Bool) (ceiling : ℕ) (ctx : Context m D)
      → ceiling ≤ ctx.priority
      → enter m debug ceiling ctx ≡ ok (nested, ctx)
  unfolding enter
  enter_nested debug ceiling ctx above = ground arith

module _ (m : CortexM) {D R : Type 0} where
  -- A claim that has to protect its resource runs its closure at the ceiling at least, with the data
  -- as they were, while the core starts no handler of a priority up to the ceiling; and then leaves
  -- the section, in any build, for 1 to 7 priority bits.
  pub claim_protects :
      0 < m.prio_bits
      → m.prio_bits < 8
      → (debug : Bool) (ceiling : ℕ) (f : Context m D → Outcome (R × Context m D))
        (ctx : Context m D)
      → ctx.priority < ceiling
      → ceiling ≤ 2 ^ m.prio_bits
      → (p : ℕ) → 0 < p
      → p ≤ ceiling
      → (n : Nesting m) × (c : Context m D) × (claim m debug ceiling f ctx
          ≡ (f c >>= λ y. leave m debug ctx.priority n y.1 >>= λ c'. ok (y.0, c')))
        × (ceiling ≤ c.priority)
        × (c.memory ≡ ctx.memory)
        × IsBlocked m c.core p
  claim_protects l h debug ceiling f ctx below top p p0 k =
      elim (ℕ_discrete ceiling (2 ^ m.prio_bits)) [
        | yes e ↦ (
          masked ctx.core,
          record ctx { priority = 255; core = m.disable ctx.core },
          rw (claim-enter-leave m debug ceiling f ctx, enter_top m l h debug ceiling ctx below e)
              refl,
          omega (arith, levels_le m.prio_bits l h),
          refl,
          inl (m.is_masked-disable ctx.core),
        )
        | no ne ↦ (
          raised,
          record ctx {
            priority = ceiling;
            core = m.write_basepri (hw m.prio_bits ceiling) ctx.core;
          },
          rw
              (
                claim-enter-leave m debug ceiling f ctx,
                enter_raised m l h debug ceiling ctx below (omega arith),
              )
              refl,
          omega arith,
          refl,
          inr (
              rw (read-write_hw m l h ceiling ctx.core) (
                hw_pos m.prio_bits l h ceiling (omega arith) (omega arith),
                (hw_masks m.prio_bits p ceiling l h p0 (omega arith) (omega arith) (omega arith)).1
                    k,
              )),
        )
      ]
