-- ===== src/Kernel/Hardware.antt =====
-- The stack of handlers as the interrupt controller drives it: a handler starts by the values that
-- are written to the priority registers, not by its logical priority. If the values are those that
-- `logical2hw` gives, then its steps are steps of the kernel.
use rtfm.Common.{
  ℕ, ◌≤◌, ◌<◌, ◌≡◌, false, Bool, ◌⊎◌, inl, inr, List, ◌∷◌, [], length, arith, dec_lt, ℕ_discrete,
  ap,
}
use rtfm.Runtime.Core.{CortexM}
use rtfm.Runtime.Priority.{hw, hw_lt}
use rtfm.Runtime.Mutex.Protects.{IsBlocked}
use rtfm.Kernel
use rtfm.Kernel.{System, Frame, Machine, Step, start, Reach}

module _ (m : CortexM) {Task Resource : Type 0} (system : System Task Resource m.prio_bits)
    (debug : Bool) (value : Task → ℕ → Type 0) where
  -- The controller starts a handler if its value is below that of the running handler, or if `main`
  -- runs, which has none, and if PRIMASK and BASEPRI let it. All other steps are the running
  -- handler's own, which start no handler.
  pub data HardwareStep (s u : Machine m Task Resource) : Type 0 where
    preempt :
        (t : Task) (v : ℕ) (f : Frame m Task Resource) (fs : List (Frame m Task Resource))
        → s.frames ≡ f ∷ fs
        → value t v
        → ((system.priority f.task ≡ 0) ⊎ ((w : ℕ) × value f.task w × (v < w)))
        → m.is_masked s.core ≡ false
        → ((m.read_basepri s.core ≡ 0) ⊎ (v < m.read_basepri s.core))
        → u ≡ record {
          core = s.core;
          frames =
              record {
                task = t;
                cell = system.priority t;
                initial = m.read_basepri s.core;
                claims = [];
              }
              ∷ f
              ∷ fs;
        }
        → HardwareStep s u
    run : Step m system debug s u → length u.frames ≤ length s.frames → HardwareStep s u

  pub data HardwareReach (s : Machine m Task Resource) : Machine m Task Resource → Type 0 where
    booted : HardwareReach s s
    then_step :
        {t u : Machine m Task Resource} → HardwareReach s t → HardwareStep t u → HardwareReach s u

  module _
      (values : (t : Task) (v : ℕ)
        → value t v
        → (0 < system.priority t) × (v ≡ hw m.prio_bits (system.priority t))) where
    -- A lower value is a higher priority.
    value_lt :
        (t f : Task) (v w : ℕ)
        → value t v
        → value f w
        → v < w
        → system.priority f < system.priority t
    value_lt t f v w tv fw lt =
        let (tp, te) = values t v tv in
        let (fp, fe) = values f w fw in
        elim (dec_lt (system.priority f) (system.priority t)) [
          | yes below ↦ below
          | no above ↦ elim (ℕ_discrete (system.priority f) (system.priority t)) [
            | yes same ↦ absurd (omega (arith, lt, te, fe, ap (hw m.prio_bits) same))
            | no other ↦ absurd (
                omega (
                  arith,
                  lt,
                  te,
                  fe,
                  hw_lt m.prio_bits system.bits_pos system.bits_lt (system.priority t)
                      (system.priority f) tp (omega arith) (system.priority_le f),
                ))
          ]
        ]

    pub HardwareStep-Step :
        (s u : Machine m Task Resource) → HardwareStep s u → Step m system debug s u
    HardwareStep-Step s u (run step le) = step
    HardwareStep-Step s u (preempt t v f fs e tv above free low e') =
        let (pos, same) = values t v tv in
        let higher : system.priority f.task < system.priority t = elim above [
          | inl main ↦ omega arith
          | inr (w, fw, lt) ↦ value_lt t f.task v w tv fw lt
        ] in
        let passes : ¬ (IsBlocked m s.core (system.priority t)) = λ blocked. elim blocked [
          | inl masked ↦ cc
          | inr (raised, le) ↦ elim low [
            | inl zero ↦ omega (arith, zero, raised)
            | inr lt ↦ omega (arith, lt, le, same)
          ]
        ] in
        start t f fs e pos higher passes e'

    pub HardwareReach-Reach :
        (s u : Machine m Task Resource) → HardwareReach s u → Reach m system debug s u
    HardwareReach-Reach s u booted = Kernel.here
    HardwareReach-Reach s u (then_step {t} r step) =
        Kernel.next (HardwareReach-Reach s t r) (HardwareStep-Step t u step)
