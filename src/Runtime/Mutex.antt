-- ===== src/Runtime/Mutex.antt =====
-- `Mutex::claim` of src/lib.rs, for cores with BASEPRI (`claim`) and without (`claim_masking`).

pub mod Section
pub mod Protects
pub mod Restores
use rtfm.Common.{
  ℕ, ◌+◌, ◌≤◌, ◌<◌, ◌≡◌, Bool, true, false, Outcome, ok, panic, ◌>>=◌, arith, ltb, eqb,
  if◌then◌else◌,
}
use rtfm.Runtime.Core.{CortexM}
use rtfm.Runtime.Priority.{shl8, logical2hw}

-- What a claim reads and writes: the cell that holds the priority of the task, the core and the
-- protected data.
pub record Context (m : CortexM) (D : Type 0) : Type 0 where
  pub priority : ℕ
  pub core : m.Core
  pub memory : D

module _ (m : CortexM) {D R : Type 0} where
  -- `interrupt::free(|_| f(..))` over the whole context.
  abbrev pub free_context :
      (Context m D → Outcome (R × Context m D)) → Context m D → Outcome (R × Context m D)
  free_context f ctx =
      m.free
        (λ core. f (record ctx { core = core }) >>= λ (x : R × Context m D).
          ok ((x.0, (x.1.priority, x.1.memory)), x.1.core))
        ctx.core
      >>= λ (y : (R × (ℕ × D)) × m.Core).
          ok (y.0.0, record { priority = y.0.1.0; core = y.1; memory = y.0.1.1 })

  unfoldable pub claim :
      Bool → ℕ → (Context m D → Outcome (R × Context m D)) → Context m D → Outcome (R × Context m D)
  claim debug ceiling f ctx =
      let current = ctx.priority in
      if ltb ctx.priority ceiling
      then (do
        top ← shl8 debug 1 m.prio_bits
        if eqb ceiling top
            then (do
              (r, ctx') ← free_context f (record ctx { priority = 255 })
              ok (r, record ctx' { priority = current }))
            else (do
              raised ← logical2hw debug ceiling m.prio_bits
              (r, ctx') ←
                  f (record ctx { priority = ceiling; core = m.write_basepri raised ctx.core })
              lowered ← logical2hw debug current m.prio_bits
              ok (r, record ctx' { core = m.write_basepri lowered ctx'.core; priority = current })))
      else f ctx

  -- The variant for cores without BASEPRI.
  unfoldable pub claim_masking :
      ℕ → (Context m D → Outcome (R × Context m D)) → Context m D → Outcome (R × Context m D)
  claim_masking ceiling f ctx =
      let current = ctx.priority in
      if ltb ctx.priority ceiling
      then (do
        (r, ctx') ← free_context f (record ctx { priority = 255 })
        ok (r, record ctx' { priority = current }))
      else f ctx
