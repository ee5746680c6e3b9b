-- ===== src/Runtime/Core.antt =====
-- The processor as the runtime sees it through the `cortex-m` crate, and `run` of src/export.rs.
use rtfm.Common.{
  ℕ, ◌≡◌, Bool, true, false, Outcome, ok, >>=-eq-ok, ◌>>=◌, arith, ◌^◌, ◌%◌, ◌-◌, ◌<◌,
}

-- `cortex_m::register::basepri` and `cortex_m::interrupt::free`, with what their documentation
-- says of them. `prio_bits` is the device's `NVIC_PRIO_BITS`: the register holds that many high
-- bits. `free` calls its closure with interrupts off, and then enables them again if they were
-- enabled before; otherwise it leaves PRIMASK as the closure did.
pub record CortexM : Type 1 where
  pub Core : Type 0
  pub prio_bits : ℕ
  pub read_basepri : Core → ℕ
  pub write_basepri : ℕ → Core → Core
  pub is_masked : Core → Bool
  pub disable : Core → Core
  pub restore : Core → Core → Core
  pub free : {R : Type 0} → (Core → Outcome (R × Core)) → Core → Outcome (R × Core)
  pub read-write :
      (v : ℕ) (c : Core)
      → v < 256
      → v % 2 ^ (8 - prio_bits) ≡ 0
      → read_basepri (write_basepri v c) ≡ v
  pub read-write_read :
      (b c : Core) → read_basepri (write_basepri (read_basepri b) c) ≡ read_basepri b
  pub is_masked-write : (v : ℕ) (c : Core) → is_masked (write_basepri v c) ≡ is_masked c
  pub is_masked-disable : (c : Core) → is_masked (disable c) ≡ true
  pub read-disable : (c : Core) → read_basepri (disable c) ≡ read_basepri c
  pub is_masked-restore : (b c : Core) → is_masked b ≡ false → is_masked (restore b c) ≡ false
  pub restore-masked : (b c : Core) → is_masked b ≡ true → restore b c ≡ c
  pub read-restore : (b c : Core) → read_basepri (restore b c) ≡ read_basepri c
  pub free_lem :
      (R : Type 0) (f : Core → Outcome (R × Core)) (c : Core)
      → free f c ≡ (f (disable c) >>= λ x. ok (x.0, restore c x.1))

module _ (m : CortexM) where
  open m use {Core, read_basepri, write_basepri, read-write_read}

  -- `run` on a core with BASEPRI.
  unfoldable pub run : {R : Type 0} → (Core → Outcome (R × Core)) → Core → Outcome (R × Core)
  run f c = f c >>= λ (x : _ × Core). ok (x.0, write_basepri (read_basepri c) x.1)

  -- Whatever the handler does to BASEPRI, the register has its former value when `run` returns,
  -- and `run` returns what the handler does.
  pub run_restores :
      {R : Type 0} (f : Core → Outcome (R × Core)) (c c' : Core) (r : R)
      → run f c ≡ ok (r, c')
      → (read_basepri c' ≡ read_basepri c)
        × ((c'' : Core) × (f c ≡ ok (r, c'')) × (c' ≡ write_basepri (read_basepri c) c''))
  unfolding run
  run_restores f c c' r h =
      let (x, p, q) = >>=-eq-ok (f c) (λ x. ok (x.0, write_basepri (read_basepri c) x.1)) h in
      (ground (arith, q, read-write_read c x.1), (x.1, ground (arith, p, q), ground (arith, q)))
