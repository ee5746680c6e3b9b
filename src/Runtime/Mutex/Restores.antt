-- ===== src/Runtime/Mutex/Restores.antt =====
-- What a claim puts back.
use rtfm.Common.{
  true, ap, sym, ◌∙◌, ok-injective, dec_lt, ℕ, ◌<◌, ◌≡◌, inl, inr, Bool, Bool-cases, outcome_laws,
  >>=-eq-ok, Outcome, ok, ◌>>=◌, arith, lt→ltb, ltb, eqb,
}
use rtfm.Runtime.Core.{CortexM}
use rtfm.Runtime.Priority.{shl8, logical2hw}
use rtfm.Runtime.Mutex.{Context, claim, claim_masking}
use rtfm.Runtime.Mutex.Section.{
  free_context_lem, Nesting, nested, masked, raised, enter, leave, claim-enter-leave,
}

module _ (m : CortexM) where
  -- `free` around code that ends with interrupts off ends with PRIMASK as it began.
  restored :
      (before after : m.Core)
      → m.is_masked after ≡ true
      → m.is_masked (m.restore before after) ≡ m.is_masked before
  restored before after off = elim (Bool-cases (m.is_masked before)) [
    | inl p ↦ ap m.is_masked (m.restore-masked before after p) ∙ off ∙ sym p
    | inr p ↦ m.is_masked-restore before after p ∙ sym p
  ]

module _ (m : CortexM) {D : Type 0} where
  enter_raised_mask :
      (debug : Bool) (ceiling : ℕ) (ctx c : Context m D)
      → enter m debug ceiling ctx ≡ ok (raised, c)
      → m.is_masked c.core ≡ m.is_masked ctx.core
  unfolding enter
  enter_raised_mask debug ceiling ctx c e = elim (Bool-cases (ltb ctx.priority ceiling)) [
    | inr p ↦ ground arith
    | inl p ↦
        let (top, _, e') = >>=-eq-ok (shl8 debug 1 m.prio_bits) _ (rw p at e) in
        elim (Bool-cases (eqb ceiling top)) [
          | inl t ↦ ground arith
          | inr t ↦
              let (v, _, w) = >>=-eq-ok (logical2hw debug ceiling m.prio_bits) _ (rw t at e') in
              ground (arith, w, m.is_masked-write v ctx.core)
        ]
  ]

  enter_masked :
      (debug : Bool) (ceiling : ℕ) (ctx c : Context m D) (before : m.Core)
      → enter m debug ceiling ctx ≡ ok (masked before, c)
      → (before ≡ ctx.core) × (m.is_masked c.core ≡ true)
  unfolding enter
  enter_masked debug ceiling ctx c before e = elim (Bool-cases (ltb ctx.priority ceiling)) [
    | inr p ↦ ground arith
    | inl p ↦
        let (top, _, e') = >>=-eq-ok (shl8 debug 1 m.prio_bits) _ (rw p at e) in
        elim (Bool-cases (eqb ceiling top)) [
          | inl t ↦ ground (arith, m.is_masked-disable ctx.core)
          | inr t ↦
              let (v, _, w) = >>=-eq-ok (logical2hw debug ceiling m.prio_bits) _ (rw t at e') in
              ground arith
        ]
  ]

  -- The PRIMASK and the priority that a section ends with, if the closure keeps both.
  section_restores :
      (debug : Bool) (ceiling : ℕ) (ctx c c' c'' : Context m D) (n : Nesting m)
      → enter m debug ceiling ctx ≡ ok (n, c)
      → c'.priority ≡ c.priority
      → m.is_masked c'.core ≡ m.is_masked c.core
      → leave m debug ctx.priority n c' ≡ ok c''
      → (c''.priority ≡ ctx.priority) × (m.is_masked c''.core ≡ m.is_masked ctx.core)
  unfolding enter leave
  section_restores debug ceiling ctx c c' c'' nested e p q h = ground arith
  section_restores debug ceiling ctx c c' c'' (masked before) e p q h =
      let (at, off) = enter_masked debug ceiling ctx c before e in
      ground (arith, restored m before c'.core (q ∙ off), ap m.is_masked at)
  section_restores debug ceiling ctx c c' c'' raised e p q h =
      let (v, _, w) = >>=-eq-ok (logical2hw debug ctx.priority m.prio_bits) _ h in
      ground (arith, w, m.is_masked-write v c'.core, enter_raised_mask debug ceiling ctx c e)

module _ (m : CortexM) {D R : Type 0} where
  -- A closure that ends with the priority and the PRIMASK with which it began.
  abbrev pub Keeps : (Context m D → Outcome (R × Context m D)) → Type 0
  Keeps f =
      (ctx : Context m D) (r : R) (ctx' : Context m D)
      → f ctx ≡ ok (r, ctx')
      → (ctx'.priority ≡ ctx.priority) × (m.is_masked ctx'.core ≡ m.is_masked ctx.core)

  -- A claim around such a closure ends with the priority and the PRIMASK with which it began,
  -- whatever the ceiling.
  pub claim-Keeps :
      (debug : Bool) (ceiling : ℕ) (f : Context m D → Outcome (R × Context m D))
      → Keeps f
      → (ctx : Context m D) (r : R) (ctx' : Context m D)
      → claim m debug ceiling f ctx ≡ ok (r, ctx')
      → (ctx'.priority ≡ ctx.priority) × (m.is_masked ctx'.core ≡ m.is_masked ctx.core)
  claim-Keeps debug ceiling f k ctx r ctx' h =
      let (x, p, q) =
        >>=-eq-ok (enter m debug ceiling ctx) _
          (rw (claim-enter-leave m debug ceiling f ctx) at h) in
      let (y, p', q') = >>=-eq-ok (f x.1) _ q in
      let (c, p'', q'') = >>=-eq-ok (leave m debug ctx.priority x.0 y.1) _ q' in
      let (kp, km) = k x.1 y.0 y.1 p' in
      let both = section_restores m debug ceiling ctx x.1 y.1 c x.0 p kp km p'' in
      (ground (arith, both, q''), ground (arith, both, q''))

  claim_masking-eq :
      (ceiling : ℕ) (f : Context m D → Outcome (R × Context m D)) (ctx : Context m D)
      → ctx.priority < ceiling
      → claim_masking m ceiling f ctx ≡ (
          f (record ctx { priority = 255; core = m.disable ctx.core }) >>= λ x.
          ok (x.0, record x.1 { priority = ctx.priority; core = m.restore ctx.core x.1.core }))
  unfolding claim_masking
  claim_masking-eq ceiling f ctx below =
      rw (lt→ltb ctx.priority ceiling below) (simp (outcome_laws, free_context_lem))

  -- A `claim` of the variant without BASEPRI, around a closure that ends with the priority and the
  -- PRIMASK with which it began, ends with the priority and the PRIMASK with which it began,
  -- whatever the ceiling.
  pub claim_masking-Keeps :
      (ceiling : ℕ) (f : Context m D → Outcome (R × Context m D))
      → Keeps f
      → (ctx : Context m D) (r : R) (ctx' : Context m D)
      → claim_masking m ceiling f ctx ≡ ok (r, ctx')
      → (ctx'.priority ≡ ctx.priority) × (m.is_masked ctx'.core ≡ m.is_masked ctx.core)
  unfolding claim_masking
  claim_masking-Keeps ceiling f k ctx r ctx' h = elim (dec_lt ctx.priority ceiling) [
    | no above ↦ k ctx r ctx' (ground (arith, h))
    | yes below ↦
        let (x, p, q) =
          >>=-eq-ok (f (record ctx { priority = 255; core = m.disable ctx.core })) _
            (sym (claim_masking-eq ceiling f ctx below) ∙ h) in
        let off =
          (k (record ctx { priority = 255; core = m.disable ctx.core }) x.0 x.1 p).1
          ∙ m.is_masked-disable ctx.core in
        let same = ap (λ z. z.1) (ok-injective q) in
        (
          sym (ap (λ z. z.priority) same),
          sym (ap (λ z. m.is_masked z.core) same) ∙ restored m ctx.core x.1.core off,
        )
  ]
