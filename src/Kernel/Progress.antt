-- ===== src/Kernel/Progress.antt =====
-- No handler on the stack blocks: each claim gets in, and the stack can be unwound.
use rtfm.Common.{
  ℕ, ◌^◌, ◌≡◌, refl, ap, subst, Bool, List, [], ◌∷◌, ok, arith, dec_lt, ℕ_discrete, ◌>>=◌,
}
use rtfm.Runtime.Core.{CortexM}
use rtfm.Runtime.Priority.{hw, logical2hw-hw}
use rtfm.Runtime.Mutex.{Context}
use rtfm.Runtime.Mutex.Section.{Nesting, nested, masked, raised, enter, leave}
use rtfm.Runtime.Mutex.Protects.{enter_top, enter_raised, enter_nested}
use rtfm.Kernel.{
  System, Claim, Frame, Machine, context, IsBoot, Step, start, claim, release, finish, Reach, here,
  next,
}
use rtfm.Kernel.Preserve.{GuardAt}
use rtfm.Kernel.Exclusion.{Inv, Running, prio, boot-Inv, Step-Inv, Reach-Inv}

module _ (m : CortexM) {Task Resource : Type 0} (system : System Task Resource m.prio_bits)
    (debug : Bool) where
  enter-ok :
      (r : Resource) (ctx : Context m (Unit {0}))
      → (n : Nesting m) × (c : Context m (Unit {0})) × (enter m debug (system.ceiling r) ctx
          ≡ ok (n, c))
  enter-ok r ctx = elim (dec_lt ctx.priority (system.ceiling r)) [
    | no above ↦ (
      nested,
      ctx,
      enter_nested m system.bits_pos system.bits_lt debug (system.ceiling r) ctx (omega arith),
    )
    | yes below ↦ elim (ℕ_discrete (system.ceiling r) (2 ^ m.prio_bits)) [
      | yes top ↦
          (_, _, enter_top m system.bits_pos system.bits_lt debug (system.ceiling r) ctx below top)
      | no low ↦ (
        _,
        _,
        enter_raised m system.bits_pos system.bits_lt debug (system.ceiling r) ctx below
            (omega (arith, system.ceiling_le r)),
      )
    ]
  ]

  leave-ok :
      (p : ℕ) (ctx : Context m (Unit {0})) (r : Resource) (current : ℕ) (n : Nesting m)
      (cs : List (Claim m Resource))
      → GuardAt m system debug p ctx ((r, current, n) ∷ cs)
      → (c : Context m (Unit {0})) × (leave m debug current n ctx ≡ ok c)
  unfolding leave
  leave-ok p ctx r current nested cs g = (_, refl)
  leave-ok p ctx r current (masked before) cs g = (_, refl)
  leave-ok p ctx r current raised cs g = (
    record ctx { core = m.write_basepri (hw m.prio_bits current) ctx.core; priority = current },
    ap (λ o. o >>= λ v. ok (record ctx { core = m.write_basepri v ctx.core; priority = current }))
        (logical2hw-hw debug current m.prio_bits system.bits_pos system.bits_lt (omega arith)),
  )

  -- From a state whose running handler has the claims, its claims can be released.
  released :
      (cs : List (Claim m Resource)) (s t : Machine m Task Resource) (f : Frame m Task Resource)
      (fs : List (Frame m Task Resource))
      → Reach m system debug s t
      → Inv m system t
      → t.frames ≡ f ∷ fs
      → f.claims ≡ cs
      → (v : Machine m Task Resource) × (g : Frame m Task Resource) × Reach m system debug s v
        × Inv m system v
        × (v.frames ≡ g ∷ fs)
        × (g.claims ≡ [])
  released [] s t f fs reach inv e ec = (t, f, reach, inv, e, ec)
  released ((r, current, n) ∷ cs) s t f fs reach inv e ec =
      let g = subst (Running m system t.core) e inv in
      let (c, lv) =
        leave-ok (prio m system f) (context t.core f) r current n cs
          (subst (λ x. GuardAt m system debug (prio m system f) (context t.core f) x) ec g.0) in
      let step = release r current n cs f fs c e ec lv refl in
      let v : Machine m Task Resource = record {
        core = c.core;
        frames = record f { cell = c.priority; claims = cs } ∷ fs;
      } in
      released cs s v (record f { cell = c.priority; claims = cs }) fs (next reach step)
        (Step-Inv m system debug t v step inv) refl refl

  unwound :
      (fs : List (Frame m Task Resource)) (s t : Machine m Task Resource)
      (f : Frame m Task Resource)
      → Reach m system debug s t
      → Inv m system t
      → t.frames ≡ f ∷ fs
      → (v : Machine m Task Resource) × (g : Frame m Task Resource) × Reach m system debug s v
        × (v.frames ≡ g ∷ [])
        × (g.claims ≡ [])
  unwound [] s t f reach inv e =
      let (v, g, r, i, ev, ec) = released f.claims s t f [] reach inv e refl in (v, g, r, ev, ec)
  unwound (h ∷ fs) s t f reach inv e =
      let (v, g, r, i, ev, ec) = released f.claims s t f (h ∷ fs) reach inv e refl in
      let step = finish g h fs ev ec refl in
      let w : Machine m Task Resource = record {
        core = m.write_basepri g.initial v.core;
        frames = h ∷ fs;
      } in
      unwound fs s w h (next r step) (Step-Inv m system debug v w step i) refl

  Step-frame :
      (s u : Machine m Task Resource)
      → Step m system debug s u
      → (f : Frame m Task Resource) × (fs : List (Frame m Task Resource)) × (u.frames ≡ f ∷ fs)
  Step-frame s u (start t f fs e pos above free e') = (_, _, ap (λ x. x.frames) e')
  Step-frame s u (claim r f fs n c e acc ent e') = (_, _, ap (λ x. x.frames) e')
  Step-frame s u (release r current n cs f fs c e ec lv e') = (_, _, ap (λ x. x.frames) e')
  Step-frame s u (finish f g fs e ec e') = (_, _, ap (λ x. x.frames) e')

  running_frame :
      (s u : Machine m Task Resource)
      → IsBoot m system s
      → Reach m system debug s u
      → (f : Frame m Task Resource) × (fs : List (Frame m Task Resource)) × (u.frames ≡ f ∷ fs)
  running_frame s u boot here = (_, _, boot.one_frame)
  running_frame s u boot (next {t} r st) = Step-frame t u st

  -- In every state that a system reaches from its boot, a claim of the running handler gets in, for
  -- any resource and in any build, and the handlers on the stack can run to their ends, without waiting for one another: by
  -- steps that release claims and finish handlers the machine reaches a state with `main` alone,
  -- which holds no claim. (A system has 1 to 7 priority bits, priorities and ceilings that are levels
  -- of the device, and no ceiling below the priority of a user of the resource.)
  pub no_deadlock :
      (s u : Machine m Task Resource)
      → IsBoot m system s
      → Reach m system debug s u
      → ((f : Frame m Task Resource) (r : Resource)
          → (n : Nesting m) × (c : Context m (Unit {0})) × (enter m debug
                (system.ceiling r)
                (context u.core f)
              ≡ ok (n, c)))
        × (v : Machine m Task Resource) × (g : Frame m Task Resource) × Reach m system debug u v
        × (v.frames ≡ g ∷ [])
        × (g.claims ≡ [])
  no_deadlock s u boot reach =
      let (f, fs, e) = running_frame s u boot reach in
      let (v, g, r, ev, ec) =
        unwound fs u u f here (Reach-Inv m system debug s u (boot-Inv m system s boot) reach) e in
      (λ f r. enter-ok r (context u.core f), v, g, r, ev, ec)
