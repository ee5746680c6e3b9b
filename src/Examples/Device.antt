-- ===== src/Examples/Device.antt =====
-- A core with three priority bits, as the `cortex-m` crate would show it.
use rtfm.Common.{ℕ, refl, Bool, true, false, ok, ◌>>=◌, if◌then◌else◌, Bool-cases, inl, inr}
use rtfm.Runtime.Core.{CortexM}

pub record Registers : Type 0 where
  pub basepri : ℕ
  pub primask : Bool

abbrev pub registers : ℕ → Bool → Registers
registers b p = record { basepri = b; primask = p }

abbrev pub device : CortexM
device = record {
  Core = Registers;
  prio_bits = 3;
  read_basepri = λ c. c.basepri;
  write_basepri = λ v c. record c { basepri = v };
  is_masked = λ c. c.primask;
  disable = λ c. record c { primask = true };
  restore = λ b c. if b.primask then c else record c { primask = false };
  free = λ f c. f (record c { primask = true }) >>= λ x.
      ok (x.0, if c.primask then x.1 else record x.1 { primask = false });
  read-write = λ v c h k. refl;
  read-write_read = λ b c. refl;
  is_masked-write = λ v c. refl;
  is_masked-disable = λ c. refl;
  read-disable = λ c. refl;
  is_masked-restore = λ b c e. rw e refl;
  restore-masked = λ b c e. rw e refl;
  read-restore = λ b c. elim (Bool-cases b.primask) [ inl e ↦ rw e refl | inr e ↦ rw e refl ];
  free_lem = λ R f c. refl;
}
