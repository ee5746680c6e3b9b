-- ===== src/Macro/Codegen/PostInit/Levels.antt =====
-- What `post_init` writes, and that it returns only if the device has all the priorities.
use rtfm.Common.{
  ℕ, ◌≤◌, ◌<◌, ◌^◌, ◌≡◌, sym, ap, ◌∙◌, Bool, List, [], ◌∷◌, ◌++◌, append_assoc, append-nil, map,
  map-append, All-append, inl, inr, Outcome, ok, >>=-eq-ok, ok-injective, arith, leb, Bool-cases,
  if◌then◌else◌, All,
}
use rtfm.Runtime.Priority.{shl8, logical2hw, hw, logical2hw-hw}
use rtfm.Runtime.Mutex.Protects.{shl8_levels}
use rtfm.Macro.Syntax.{App}
use rtfm.Macro.Analyze.{Analysis, fold}
use rtfm.Macro.Parse.Body.{is_nil}
use rtfm.Macro.Codegen.PostInit.{
  Target, interrupt, handler, Board, set_priority, enable, set_interrupt, set_exception, set_timer,
  set_dispatcher, post_init,
}

abbrev pub Entry : Type 0
Entry = Target × ℕ

abbrev pub interrupt_entries : App → List Entry
interrupt_entries app = map (λ i. (interrupt i.0, i.1.args.priority)) app.interrupts

abbrev pub exception_entries : App → List Entry
exception_entries app = map (λ e. (handler e.0, e.1.args.priority)) app.exceptions

abbrev pub timer_entries : Analysis → List Entry
timer_entries a =
    if is_nil a.timer_queue.tasks then [] else ((handler "SysTick", a.timer_queue.priority) ∷ [])

abbrev pub dispatcher_entries : Analysis → List Entry
dispatcher_entries a = map (λ d. (interrupt d.1.interrupt, d.0)) a.dispatchers

-- The targets of an application, each with its logical priority.
abbrev pub entries : App → Analysis → List Entry
entries app a =
    interrupt_entries app ++ (exception_entries app ++ (timer_entries a ++ dispatcher_entries a))

module _ (debug : Bool) (n : ℕ) (l : 0 < n) (h : n < 8) where
  -- The write for an entry of a target and its logical priority.
  abbrev pub written : Entry → Entry
  written e = (e.0, hw n e.1)

  -- From one board to the other the priorities of the list were written, all of them levels.
  abbrev pub Wrote : List Entry → Board → Board → Type 0
  Wrote es b b' = (b'.priorities ≡ b.priorities ++ map written es) × All (λ e. e.1 ≤ 2 ^ n) es

  set_priority-Wrote :
      (t : Target) (p : ℕ) (b b' : Board)
      → set_priority debug n t p b ≡ ok b'
      → Wrote ((t, p) ∷ []) b b'
  unfolding set_priority
  set_priority-Wrote t p b b' e =
      let (levels, e₁, e₂) = >>=-eq-ok (shl8 debug 1 n) _ e in
      let same : levels ≡ 2 ^ n = ok-injective (sym e₁ ∙ shl8_levels debug n l h) in
      elim (Bool-cases (leb p levels)) [
        | inl q ↦
            let le : p ≤ 2 ^ n = ground (arith, q, same) in
            let (v, e₃, e₄) = >>=-eq-ok (logical2hw debug p n) _ (rw q at e₂) in
            let at_hw : v ≡ hw n p = ok-injective (sym e₃ ∙ logical2hw-hw debug p n l h le) in
            (
              sym (ap (λ x. x.priorities) (ok-injective e₄))
                  ∙ ap (λ x. b.priorities ++ (t, x) ∷ []) at_hw,
              (le, tt),
            )
        | inr q ↦ absurd (cc (rw q at e₂))
      ]

  Wrote-append :
      (es fs : List Entry) (b b' b'' : Board)
      → Wrote es b b'
      → Wrote fs b' b''
      → Wrote (es ++ fs) b b''
  Wrote-append es fs b b' b'' w v = (
    v.0
        ∙ ap (λ x. x ++ map written fs) w.0
        ∙ append_assoc b.priorities (map written es) (map written fs)
        ∙ ap (λ x. b.priorities ++ x) (sym (map-append written es fs)),
    All-append (λ e. e.1 ≤ 2 ^ n) es fs w.1 v.1,
  )

  fold-Wrote :
      {A : Type 0} (f : A → Board → Outcome Board) (entry : A → Entry)
      → ((x : A) (b b' : Board) → f x b ≡ ok b' → Wrote (entry x ∷ []) b b')
      → (xs : List A) (b b' : Board) → fold f xs b ≡ ok b'
      → Wrote (map entry xs) b b'
  fold-Wrote f entry each [] b b' e =
      (sym (ap (λ x. x.priorities) (ok-injective e)) ∙ sym (append-nil b.priorities), tt)
  fold-Wrote f entry each (x ∷ xs) b b' e =
      let (c, e₁, e₂) = >>=-eq-ok (f x b) _ e in
      Wrote-append (entry x ∷ []) (map entry xs) b c b' (each x b c e₁)
        (fold-Wrote f entry each xs c b' e₂)

  timer-Wrote :
      (a : Analysis) (b b' : Board) → set_timer debug n a b ≡ ok b' → Wrote (timer_entries a) b b'
  unfolding set_timer
  timer-Wrote a b b' e = elim (Bool-cases (is_nil a.timer_queue.tasks)) [
    | inl p ↦ rw p (
      sym (ap (λ x. x.priorities) (ok-injective (rw (p, set_timer) at e)))
          ∙ sym (append-nil b.priorities),
      tt,
    )
    | inr p ↦ rw p (
        set_priority-Wrote (handler "SysTick") a.timer_queue.priority b b' (rw (p, set_timer) at e))
  ]

  -- If `post_init` returns, then it has written to each interrupt, exception and dispatcher, and to
  -- SysTick if there is a timer queue, the hardware value of its priority, in this order; and each
  -- of the priorities is a level of the device.
  pub post_init-Wrote :
      (timer_queue : Bool) (app : App) (a : Analysis) (b b' : Board)
      → post_init debug n timer_queue app a b ≡ ok b'
      → Wrote (entries app a) b b'
  unfolding post_init set_interrupt set_exception set_dispatcher enable
  post_init-Wrote timer_queue app a b b' e =
      let (b₁, e₁, f₁) = >>=-eq-ok (fold (set_interrupt debug n) app.interrupts b) _ e in
      let (b₂, e₂, f₂) = >>=-eq-ok (fold (set_exception debug n) app.exceptions b₁) _ f₁ in
      let (b₃, e₃, f₃) = >>=-eq-ok (set_timer debug n a b₂) _ f₂ in
      let (b₄, e₄, f₄) = >>=-eq-ok (fold (set_dispatcher debug n) a.dispatchers b₃) _ f₃ in
      let w =
        Wrote-append (interrupt_entries app)
          (exception_entries app ++ (timer_entries a ++ dispatcher_entries a)) b b₁ b₄
          (fold-Wrote (set_interrupt debug n) _
            (λ x b b' e.
              set_priority-Wrote (interrupt x.0) x.1.args.priority (enable debug n x.0 b) b' e)
            app.interrupts b b₁ e₁)
          (Wrote-append (exception_entries app) (timer_entries a ++ dispatcher_entries a) b₁ b₂ b₄
            (fold-Wrote (set_exception debug n) _
              (λ x b b' e. set_priority-Wrote (handler x.0) x.1.args.priority b b' e) app.exceptions
              b₁ b₂ e₂)
            (Wrote-append (timer_entries a) (dispatcher_entries a) b₂ b₃ b₄ (timer-Wrote a b₂ b₃ e₃)
              (fold-Wrote (set_dispatcher debug n) _
                (λ x b b' e.
                  set_priority-Wrote (interrupt x.1.interrupt) x.0 (enable debug n x.1.interrupt b)
                    b' e)
                a.dispatchers b₃ b₄ e₄))) in
      (sym (ap (λ x. x.priorities) (ok-injective f₄)) ∙ w.0, w.1)
