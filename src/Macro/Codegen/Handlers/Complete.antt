-- ===== src/Macro/Codegen/Handlers/Complete.antt =====
-- The code generation finds all that it looks up.
use rtfm.Common.{
  ℕ, ◌≡◌, refl, ap, ap₂, inl, inr, Bool, false, List, [], ◌∷◌, ◌++◌, map, map-append, Option, none,
  some, Outcome, ok, In, In-map, In-append_left, In-append_right, In-values, values, In_keys-lookup,
  string_eq, ltb,
}
use rtfm.Macro.Syntax.{App, Idle, Ident, Idents, of_idle}
use rtfm.Macro.Check.Sound.{IsWellFormed}
use rtfm.Macro.Analyze.{Analysis, analyze, ceiling_of}
use rtfm.Macro.Analyze.Locks.{analyze-needs_lock}
use rtfm.Macro.Codegen.Kind.{Kind, is_init}
use rtfm.Macro.Codegen.Prelude.{Field, field, fields, init_field}
use rtfm.Macro.Codegen.Exclusive.{field_lem}
use rtfm.Macro.Codegen.Handlers.{
  Prelude, prelude, for_all, init, idle, exceptions, interrupts, tasks, preludes,
}
use rtfm.Kernel.Application.{handlers, preemptors, main_context, In-access}

abbrev pub Key : Type 0
Key = Kind × ℕ

abbrev pub key : Prelude → Key
key x = (x.kind, x.cell)

-- The contexts of an application, each with its priority.
abbrev pub contexts : App → List Key
contexts app =
    map (λ t. (Kind.task t.0, t.1.args.priority)) app.tasks
    ++ (Kind.init, 255)
      ∷ map (λ names. (Kind.idle, 0)) (of_idle (λ i. i.args.resources ∷ []) app.idle)
    ++ map (λ e. (Kind.exception e.0, e.1.args.priority)) app.exceptions
    ++ map (λ i. (Kind.interrupt i.0, i.1.args.priority)) app.interrupts

-- `idle` is among the handlers.
idle-handlers :
    (app : App) (names : Idents)
    → In names (of_idle (λ i. i.args.resources ∷ []) app.idle)
    → In (0, names) (handlers app)
unfolding handlers main_context
idle-handlers app names j = inl (ap (λ n. (0, n)) (main_names app.idle j))
  where
    main_names :
        (declared : Option Idle)
        → In names (of_idle (λ i. i.args.resources ∷ []) declared)
        → of_idle (λ i. i.args.resources) declared ≡ names
    main_names none j = absurd j
    main_names (some i) (inl e) = e
    main_names (some i) (inr j) = absurd j

module _ (debug debug' : Bool) (app : App) (a : Analysis) (w : IsWellFormed app)
    (done : analyze debug app ≡ ok a) where
  fields_total :
      (kind : Kind) (p : ℕ) (names : Idents)
      → ((r : Ident) → In r names → (f : Field) × (field debug' kind app p a r ≡ ok f))
      → (fs : List Field) × (fields debug' kind app p a names ≡ ok fs)
  unfolding fields
  fields_total kind p [] h = ([], refl)
  fields_total kind p (r ∷ names) h =
      let (f, e) = h r (inl refl) in
      let (fs, es) = fields_total kind p names (λ q i. h q (inr i)) in (f ∷ fs, rw (e, es) refl)

  -- The prelude is generated.
  abbrev Made : Kind → Idents → ℕ → Type 0
  Made kind names p =
      (x : Prelude) × (prelude debug' app a kind names p ≡ ok x) × (key x ≡ (kind, p))

  -- A context that accesses what it lists.
  prelude-Made :
      (kind : Kind) (p : ℕ) (names : Idents)
      → is_init kind ≡ false
      → In (p, names) (handlers app)
      → Made kind names p
  unfolding prelude
  prelude-Made kind p names k i =
      let (fs, e) = fields_total kind p names (λ r j.
        let at = In-access app p names r i j in
        let (res, l) = In_keys-lookup r app.resources (w.accesses_declared p r at) in
        let (o, g, n) = analyze-needs_lock debug debug' app a done p r at in
        (_, field_lem debug' kind app p a r res o (ltb p (ceiling_of o)) k l g n)) in
      (record { kind = kind; cell = p; resources = fs }, rw e refl, refl)

  init-Made : Made Kind.init app.init.args.resources 255
  unfolding prelude field is_init
  init-Made =
      let (fs, e) = fields_total Kind.init 255 app.init.args.resources (λ r j.
        let (res, l, _) = w.init_resources r j in (init_field a r res, rw (l, field) refl)) in
      (record { kind = Kind.init; cell = 255; resources = fs }, rw e refl, refl)

  for_all_total :
      {A : Type 0} (f : A → Outcome Prelude) (k : A → Key) (xs : List A)
      → ((x : A) → In x xs → (y : Prelude) × (f x ≡ ok y) × (key y ≡ k x))
      → (ys : List Prelude) × (for_all f xs ≡ ok ys) × (map key ys ≡ map k xs)
  for_all_total f k [] h = ([], refl, refl)
  for_all_total f k (x ∷ xs) h =
      let (y, e, q) = h x (inl refl) in
      let (ys, es, qs) = for_all_total f k xs (λ z i. h z (inr i)) in
      (y ∷ ys, rw (e, es) refl, ap₂ ◌∷◌ q qs)

  -- For a well-formed application for which the analysis returns, the code generation finds all that
  -- it looks up, and its `debug_assert` holds: there is a prelude for each task, for `init`, for
  -- `idle` if there is one, and for each exception and interrupt, whose priority cell starts with the
  -- priority of the context.
  pub preludes_total :
      (xs : List Prelude) × (preludes debug' app a ≡ ok xs) × (map key xs ≡ contexts app)
  unfolding preludes tasks init idle exceptions interrupts handlers preemptors is_init
  preludes_total =
      let (ts, et, kt) =
        for_all_total
          (λ t. prelude debug' app a (Kind.task t.0) t.1.args.resources t.1.args.priority)
          (λ t. (Kind.task t.0, t.1.args.priority)) app.tasks
          (λ t i. prelude-Made (Kind.task t.0) t.1.args.priority t.1.args.resources refl (
            inr (
              In-append_right _ of_exceptions _ (
                In-append_right _ of_interrupts _ (
                  In-map (λ t. (t.args.priority, t.args.resources)) t.1 (values app.tasks)
                    (In-values t.0 t.1 app.tasks i)))))) in
      let (y, en, kn) = init-Made in
      let (is, ei, ki) =
        for_all_total (λ names. prelude debug' app a Kind.idle names 0) (λ names. (Kind.idle, 0))
          (of_idle (λ i. i.args.resources ∷ []) app.idle)
          (λ names i. prelude-Made Kind.idle 0 names refl (idle-handlers app names i)) in
      let (es, ee, ke) =
        for_all_total
          (λ e. prelude debug' app a (Kind.exception e.0) e.1.args.resources e.1.args.priority)
          (λ e. (Kind.exception e.0, e.1.args.priority)) app.exceptions
          (λ e i. prelude-Made (Kind.exception e.0) e.1.args.priority e.1.args.resources refl (
            inr (
              In-append_left _ of_exceptions _ (
                In-map (λ e. (e.args.priority, e.args.resources)) e.1 (values app.exceptions)
                  (In-values e.0 e.1 app.exceptions i))))) in
      let (ns, eu, ku) =
        for_all_total
          (λ n. prelude debug' app a (Kind.interrupt n.0) n.1.args.resources n.1.args.priority)
          (λ n. (Kind.interrupt n.0, n.1.args.priority)) app.interrupts
          (λ n i. prelude-Made (Kind.interrupt n.0) n.1.args.priority n.1.args.resources refl (
            inr (
              In-append_right _ of_exceptions _ (
                In-append_left _ of_interrupts _ (
                  In-map (λ n. (n.args.priority, n.args.resources)) n.1 (values app.interrupts)
                    (In-values n.0 n.1 app.interrupts i)))))) in
      (
        ts ++ y ∷ is ++ es ++ ns,
        rw (et, en, ei, ee, eu) refl,
        simp (map-append, kt, kn, ki, ke, ku),
      )
    where
      of_exceptions : List (ℕ × Idents)
      of_exceptions = map (λ e. (e.args.priority, e.args.resources)) (values app.exceptions)

      of_interrupts : List (ℕ × Idents)
      of_interrupts = map (λ i. (i.args.priority, i.args.resources)) (values app.interrupts)
