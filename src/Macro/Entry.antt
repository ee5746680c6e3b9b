-- ===== src/Macro/Entry.antt =====
-- The procedural macro `app` of macros/src/lib.rs: the parts one after the other.
use rtfm.Common.{◌≡◌, refl, sym, ◌∙◌, ◌⊎◌, inl, inr, Bool, true, false, List}
use rtfm.Common
use rtfm.Macro.Result.{Result, Error, ok, err, panic, ◌>>=◌, ◌>>◌}
use rtfm.Macro.Syn.{Item}
use rtfm.Macro.Syntax.{App, AppArgs}
use rtfm.Macro.Check.{check}
use rtfm.Macro.Check.Sound.{IsWellFormed}
use rtfm.Macro.Check.Decides.{check-IsWellFormed, check-ne-panic}
use rtfm.Macro.Analyze.{Analysis, analyze}
use rtfm.Macro.Analyze.Total.{analyze_total}
use rtfm.Macro.Parse.Tokens.{ParseStream}
use rtfm.Macro.Parse.Program.{parse}

abbrev pub lift : {A : Type 0} → Common.Outcome A → Result A
lift (Common.ok a) = ok a
lift Common.panic = panic

module _ (stream : ParseStream) where
  -- What the code generation gets, or the error that the macro reports. `timer_queue` is the
  -- feature of the macro's build, `debug` says whether it checks overflow.
  unfoldable pub app : Bool → Bool → List Item → AppArgs → Result (App × Analysis)
  app timer_queue debug items args = do
    parsed ← parse stream timer_queue items args
    check parsed
    analysis ← lift (analyze debug parsed)
    ok (parsed, analysis)

  check-cases :
      (x : App)
      → ((check x ≡ ok tt) × IsWellFormed x)
        ⊎ ((e : Error) × (check x ≡ err e) × (¬ (IsWellFormed x)))
  check-cases x = go (check x) refl
    where
      go :
          (r : Result (Unit {0}))
          → check x ≡ r
          → ((check x ≡ ok tt) × IsWellFormed x)
            ⊎ ((e : Error) × (check x ≡ err e) × (¬ (IsWellFormed x)))
      go (ok tt) h = inl (h, (check-IsWellFormed x).0 h)
      go (err e) h = inr (e, h, λ w. cc (h, (check-IsWellFormed x).1 w))
      go panic h = absurd (check-ne-panic x h)

  -- For items that the parser accepts, in a build of the macro without overflow checks: the macro
  -- does not panic before the code generation. If the application breaks a rule of the specification,
  -- it reports an error; otherwise it hands the application and its analysis on.
  pub app-IsWellFormed :
      (timer_queue : Bool) (items : List Item) (args : AppArgs) (x : App)
      → parse stream timer_queue items args ≡ ok x
      → ((e : Error) × (¬ (IsWellFormed x)) × (app timer_queue false items args ≡ err e))
        ⊎ (IsWellFormed x
            × (a : Analysis) × (analyze false x ≡ Common.ok a)
            × (app timer_queue false items args ≡ ok (x, a)))
  unfolding app
  app-IsWellFormed timer_queue items args x h = elim (check-cases x) [
    | inr (e, c, n) ↦ inl (e, n, rw (h, app, c) refl)
    | inl (c, w) ↦ let (a, done) = analyze_total x w in inr (w, a, done, rw (h, app, c, done) refl)
  ]
