-- ===== src/Runtime/Mutex/Section.antt =====
-- A claim as a critical section: what happens before the closure runs, and after it. The kernel
-- model takes these two apart, since other tasks may run in between.
use rtfm.Common.{
  ℕ, ◌≡◌, refl, Bool, outcome_laws, Outcome, ok, panic, ◌>>=◌, ltb, eqb, if◌then◌else◌,
}
use rtfm.Runtime.Core.{CortexM}
use rtfm.Runtime.Priority.{shl8, logical2hw}
use rtfm.Runtime.Mutex.{Context, claim, free_context}

-- What `leave` has to undo: nothing, a PRIMASK set over the core that is kept, or a raised BASEPRI.
pub data Nesting (m : CortexM) : Type 0 where
  nested : Nesting m
  masked : m.Core → Nesting m
  raised : Nesting m

module _ (m : CortexM) {D : Type 0} where
  unfoldable pub enter : Bool → ℕ → Context m D → Outcome (Nesting m × Context m D)
  enter debug ceiling ctx =
      if ltb ctx.priority ceiling
      then (do
        top ← shl8 debug 1 m.prio_bits
        if eqb ceiling top
            then ok (masked ctx.core, record ctx { priority = 255; core = m.disable ctx.core })
            else (do
              value ← logical2hw debug ceiling m.prio_bits
              ok (
                raised,
                record ctx { priority = ceiling; core = m.write_basepri value ctx.core },
              )))
      else ok (nested, ctx)

  unfoldable pub leave : Bool → ℕ → Nesting m → Context m D → Outcome (Context m D)
  leave debug current nested ctx = ok ctx
  leave debug current (masked before) ctx =
      ok (record ctx { core = m.restore before ctx.core; priority = current })
  leave debug current raised ctx = do
    value ← logical2hw debug current m.prio_bits
    ok (record ctx { core = m.write_basepri value ctx.core; priority = current })

module _ (m : CortexM) {D R : Type 0} where
  abbrev Unfree : m.Core → Outcome (R × Context m D) → Outcome (R × Context m D)
  Unfree before o = o >>= λ x. ok (x.0, record x.1 { core = m.restore before x.1.core })

  abbrev pack : R × Context m D → Outcome ((R × (ℕ × D)) × m.Core)
  pack x = ok ((x.0, (x.1.priority, x.1.memory)), x.1.core)

  abbrev unpack : (R × (ℕ × D)) × m.Core → Outcome (R × Context m D)
  unpack y = ok (y.0.0, record { priority = y.0.1.0; core = y.1; memory = y.0.1.1 })

  -- `free_context` is the closure on a core with interrupts off, and the restored PRIMASK.
  pub free_context_lem :
      (f : Context m D → Outcome (R × Context m D)) (ctx : Context m D)
      → free_context m f ctx ≡ Unfree ctx.core (f (record ctx { core = m.disable ctx.core }))
  free_context_lem f ctx =
      rw (m.free_lem _ _ ctx.core) (step (f (record ctx { core = m.disable ctx.core })))
    where
      step :
          (o : Outcome (R × Context m D))
          → (((o >>= pack) >>= λ x. ok (x.0, m.restore ctx.core x.1)) >>= unpack)
            ≡ Unfree ctx.core o
      step (ok x) = refl
      step panic = refl

  -- The claim is its entry, the closure and its exit.
  pub claim-enter-leave :
      (debug : Bool) (ceiling : ℕ) (f : Context m D → Outcome (R × Context m D)) (ctx : Context m D)
      → claim m debug ceiling f ctx ≡ (
          enter m debug ceiling ctx >>= λ x.
          f x.1 >>= λ y. leave m debug ctx.priority x.0 y.1 >>= λ c. ok (y.0, c))
  unfolding claim enter leave
  claim-enter-leave debug ceiling f ctx = simp (outcome_laws, free_context_lem)
