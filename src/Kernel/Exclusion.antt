-- ===== src/Kernel/Exclusion.antt =====
-- No two handlers on the stack may use the same resource.
use rtfm.Common.{
  ℕ, ◌≤◌, ◌<◌, ◌≡◌, refl, sym, subst, ◌⊎◌, inl, inr, Bool, false, List, [], ◌∷◌, ◌++◌, In, arith,
}
use rtfm.Runtime.Core.{CortexM}
use rtfm.Kernel.{
  System, claimed, Frame, Machine, context, IsBoot, Holds, Step, start, claim, release, finish,
  Reach, here, next,
}
use rtfm.Kernel.Guard.{Guard, Guard-le, Guard-ceiling, Guard-start}
use rtfm.Kernel.Preserve.{GuardAt, enter-GuardAt, leave-GuardAt}

module _ (m : CortexM) {Task Resource : Type 0} (system : System Task Resource m.prio_bits) where
  abbrev pub prio : Frame m Task Resource → ℕ
  prio f = system.priority f.task

  -- BASEPRI held `b` at some time.
  abbrev pub WasRead : ℕ → Type 0
  WasRead b = (c : m.Core) × (m.read_basepri c ≡ b)

  -- The frames under a handler of priority `p` that found `b` in BASEPRI.
  abbrev pub Suspended : ℕ → ℕ → List (Frame m Task Resource) → Type 0
  Suspended p b [] = Unit
  Suspended p b (g ∷ gs) =
      (g.cell < p)
      × Guard m system (prio g) g.cell b false g.claims
      × WasRead b
      × Suspended (prio g) g.initial gs

  abbrev pub Running : m.Core → List (Frame m Task Resource) → Type 0
  Running core [] = Unit
  Running core (f ∷ fs) =
      Guard m system (prio f) f.cell (m.read_basepri core) (m.is_masked core) f.claims
      × Suspended (prio f) f.initial fs

  abbrev pub Inv : Machine m Task Resource → Type 0
  Inv s = Running s.core s.frames

  pub boot-Inv : (s : Machine m Task Resource) → IsBoot m system s → Inv s
  boot-Inv s b = subst (Running s.core) (sym b.one_frame) (((sym b.idle_priority), b.unmasked), tt)

  pub Step-Inv :
      (debug : Bool) (s u : Machine m Task Resource) → Step m system debug s u → Inv s → Inv u
  Step-Inv debug s u (start t f fs e pos above free e') inv =
      let (g, sus) = subst (Running s.core) e inv in
      let (lt, off) =
        Guard-start m system s.core (prio f) f.cell (system.priority t) f.claims g above
          (system.priority_le t) free in
      subst Inv (sym e') ((refl, off), (lt, rw off at g, (s.core, refl), sus))
  Step-Inv debug s u (claim r f fs n c e acc ent e') inv =
      let (g, sus) = subst (Running s.core) e inv in
      subst Inv (sym e')
        (enter-GuardAt m system debug (prio f) (context s.core f) c r n f.claims g ent, sus)
  Step-Inv debug s u (release r current n cs f fs c e ec lv e') inv =
      let (g, sus) = subst (Running s.core) e inv in
      subst Inv (sym e') (
        leave-GuardAt m system debug (prio f) (context s.core f) c r current n cs
            (subst (λ x. GuardAt m system debug (prio f) (context s.core f) x) ec g) lv,
        sus,
      )
  Step-Inv debug s u (finish f g fs e ec e') inv =
      let (gf, sus) = subst (Running s.core) e inv in
      let off =
        (subst (λ x. Guard m system (prio f) f.cell (m.read_basepri s.core) (m.is_masked s.core) x)
          ec gf).1 in
      let (lt, gg, (c, rd), rest) = sus in
      subst Inv (sym e') (
        rw (m.is_masked-write f.initial s.core, off, ← rd, m.read-write_read c s.core)
            (rw (← rd) at gg),
        rest,
      )

  pub Reach-Inv :
      (debug : Bool) (s u : Machine m Task Resource) → Inv s → Reach m system debug s u → Inv u
  Reach-Inv debug s u inv here = inv
  Reach-Inv debug s u inv (next {t} r st) = Step-Inv debug t u st (Reach-Inv debug s t inv r)

  Suspended-lt :
      (p b : ℕ) (fs : List (Frame m Task Resource)) (g : Frame m Task Resource)
      → Suspended p b fs
      → In g fs
      → (g.cell < p) × ((r : Resource) → Holds m system g r → system.ceiling r ≤ g.cell)
  Suspended-lt p b [] g s i = absurd i
  Suspended-lt p b (h ∷ fs) g s (inl e) =
      subst (λ x. (x.cell < p) × ((r : Resource) → Holds m system x r → system.ceiling r ≤ x.cell))
        e (s.0, λ r k. within r k.1)
    where
      within :
          (r : Resource)
          → (system.ceiling r ≤ prio h) ⊎ In r (claimed h.claims)
          → system.ceiling r ≤ h.cell
      within r (inl k) = omega (arith, Guard-le m system (prio h) h.cell b false h.claims s.1)
      within r (inr k) = Guard-ceiling m system (prio h) h.cell b false h.claims r s.1 k
  Suspended-lt p b (h ∷ fs) g s (inr i) =
      let (lt, within) = Suspended-lt (prio h) h.initial fs g s.3 i in
      (omega (arith, Guard-le m system (prio h) h.cell b false h.claims s.1), within)

  Suspended-append :
      (p b : ℕ) (above : List (Frame m Task Resource)) (f : Frame m Task Resource)
      (below : List (Frame m Task Resource))
      → Suspended p b (above ++ f ∷ below)
      → Suspended (prio f) f.initial below
  Suspended-append p b [] f below s = s.3
  Suspended-append p b (h ∷ above) f below s = Suspended-append (prio h) h.initial above f below s.3

  Running-below :
      (core : m.Core) (above : List (Frame m Task Resource)) (f : Frame m Task Resource)
      (below : List (Frame m Task Resource))
      → Running core (above ++ f ∷ below)
      → Suspended (prio f) f.initial below
  Running-below core [] f below s = s.1
  Running-below core (h ∷ above) f below s = Suspended-append (prio h) h.initial above f below s.1

  -- In every state that a system reaches from its boot, two handlers on the stack never may use the
  -- same resource. (A system has 1 to 7 priority bits, priorities and ceilings that are levels of
  -- the device, and no ceiling below the priority of a user of the resource.)
  pub mutual_exclusion :
      (debug : Bool) (s u : Machine m Task Resource)
      → IsBoot m system s
      → Reach m system debug s u
      → (above : List (Frame m Task Resource)) (f : Frame m Task Resource)
        (below : List (Frame m Task Resource)) (g : Frame m Task Resource) (r : Resource)
      → u.frames ≡ above ++ f ∷ below
      → In g below
      → Holds m system f r
      → ¬ (Holds m system g r)
  mutual_exclusion debug s u boot reach above f below g r e i hf hg =
      let run = subst (Running u.core) e (Reach-Inv debug s u (boot-Inv s boot) reach) in
      let (lt, within) =
        Suspended-lt (prio f) f.initial below g (Running-below u.core above f below run) i in
      omega (arith, lt, within r hg, system.priority_le_ceiling f.task r hf.0)
