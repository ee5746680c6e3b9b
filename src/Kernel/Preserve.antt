-- ===== src/Kernel/Preserve.antt =====
-- The two ends of a claim keep the relation of Kernel/Guard.antt.
use rtfm.Common.{
  ℕ, ◌<◌, ◌^◌, ◌≡◌, refl, sym, subst, Bool, true, false, List, ◌∷◌, ok, arith, ◌∙◌, ap,
  ok-injective, dec_lt, ℕ_discrete, ◌>>=◌,
}
use rtfm.Runtime.Core.{CortexM}
use rtfm.Runtime.Priority.{hw, logical2hw-hw, levels_le}
use rtfm.Runtime.Mutex.{Context}
use rtfm.Runtime.Mutex.Section.{Nesting, nested, masked, raised, enter, leave}
use rtfm.Runtime.Mutex.Protects.{enter_top, enter_raised, enter_nested, read-write_hw}
use rtfm.Kernel.{System, Claim}
use rtfm.Kernel.Guard.{Guard, Guard-rebase, Guard-masked}

module _ (m : CortexM) {Task Resource : Type 0} (system : System Task Resource m.prio_bits)
    (debug : Bool) where
  -- The relation at the registers of a core.
  abbrev pub GuardAt : ℕ → Context m (Unit {0}) → List (Claim m Resource) → Type 0
  GuardAt p ctx cs =
      Guard m system p ctx.priority (m.read_basepri ctx.core) (m.is_masked ctx.core) cs

  unmasked :
      (p cell b : ℕ) (mask : Bool) (cs : List (Claim m Resource))
      → Guard m system p cell b mask cs
      → cell < 2 ^ m.prio_bits
      → mask ≡ false
  unmasked p cell b false cs g h = refl
  unmasked p cell b true cs g h = absurd (
      omega (
        arith,
        Guard-masked m system p cell b cs g,
        levels_le m.prio_bits system.bits_pos system.bits_lt,
      ))

  pub enter-GuardAt :
      (p : ℕ) (ctx c : Context m (Unit {0})) (r : Resource) (n : Nesting m)
      (cs : List (Claim m Resource))
      → GuardAt p ctx cs
      → enter m debug (system.ceiling r) ctx ≡ ok (n, c)
      → GuardAt p c ((r, ctx.priority, n) ∷ cs)
  enter-GuardAt p ctx c r n cs g e = elim (dec_lt ctx.priority (system.ceiling r)) [
    | no above ↦
        settle (nested, ctx)
          (enter_nested m system.bits_pos system.bits_lt debug (system.ceiling r) ctx (omega arith))
          (omega arith, refl, g)
    | yes below ↦ elim (ℕ_discrete (system.ceiling r) (2 ^ m.prio_bits)) [
      | yes top ↦
          let off =
            unmasked p ctx.priority (m.read_basepri ctx.core) (m.is_masked ctx.core) cs g
              (omega arith) in
          settle (masked ctx.core, record ctx { priority = 255; core = m.disable ctx.core })
            (enter_top m system.bits_pos system.bits_lt debug (system.ceiling r) ctx below top)
            (
              omega (arith, levels_le m.prio_bits system.bits_pos system.bits_lt),
              refl,
              omega (arith, levels_le m.prio_bits system.bits_pos system.bits_lt),
              m.is_masked-disable ctx.core,
              off,
              rw (m.read-disable ctx.core) (rw off at g),
            )
      | no low ↦
          let off =
            unmasked p ctx.priority (m.read_basepri ctx.core) (m.is_masked ctx.core) cs g
              (omega (arith, system.ceiling_le r)) in
          settle
            (
              raised,
              record ctx {
                priority = system.ceiling r;
                core = m.write_basepri (hw m.prio_bits (system.ceiling r)) ctx.core;
              },
            )
            (enter_raised m system.bits_pos system.bits_lt debug (system.ceiling r) ctx below
              (omega (arith, system.ceiling_le r)))
            (
              omega arith,
              below,
              omega (arith, system.ceiling_le r),
              read-write_hw m system.bits_pos system.bits_lt (system.ceiling r) ctx.core,
              m.is_masked-write (hw m.prio_bits (system.ceiling r)) ctx.core ∙ off,
              Guard-rebase m system p ctx.priority (m.read_basepri ctx.core) cs (rw off at g),
            )
    ]
  ]
    where
      settle :
          (x : Nesting m × Context m (Unit {0}))
          → enter m debug (system.ceiling r) ctx ≡ ok x
          → GuardAt p x.1 ((r, ctx.priority, x.0) ∷ cs)
          → GuardAt p c ((r, ctx.priority, n) ∷ cs)
      settle x e' g' =
          subst (λ y. GuardAt p y.1 ((r, ctx.priority, y.0) ∷ cs)) (ok-injective (sym e' ∙ e)) g'

  pub leave-GuardAt :
      (p : ℕ) (ctx c : Context m (Unit {0})) (r : Resource) (current : ℕ) (n : Nesting m)
      (cs : List (Claim m Resource))
      → GuardAt p ctx ((r, current, n) ∷ cs)
      → leave m debug current n ctx ≡ ok c
      → GuardAt p c cs
  unfolding leave
  leave-GuardAt p ctx c r current nested cs g e =
      subst (λ y. GuardAt p y cs) (ok-injective e)
        (subst (λ k. Guard m system p k (m.read_basepri ctx.core) (m.is_masked ctx.core) cs)
          (sym g.1) g.2)
  leave-GuardAt p ctx c r current (masked before) cs g e =
      subst (λ y. GuardAt p y cs) (ok-injective e)
        (rw (m.read-restore before ctx.core, m.is_masked-restore before ctx.core, g.4) g.5)
  leave-GuardAt p ctx c r current raised cs g e =
      subst (λ y. GuardAt p y cs)
        (ok-injective (
          ap
            (λ o.
              o >>= λ v. ok (record ctx { core = m.write_basepri v ctx.core; priority = current }))
            (sym (
              logical2hw-hw debug current m.prio_bits system.bits_pos system.bits_lt (omega arith)))
          ∙ e))
        (rw
          (
            read-write_hw m system.bits_pos system.bits_lt current ctx.core,
            m.is_masked-write (hw m.prio_bits current) ctx.core,
            g.4,
          )
          g.5)
