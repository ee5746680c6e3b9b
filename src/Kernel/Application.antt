-- ===== src/Kernel/Application.antt =====
-- The kernel of an application that the macro has analysed.
use rtfm.Common.{
  ℕ, ◌≤◌, ◌<◌, ◌^◌, ◌≡◌, refl, sym, ap, subst, ◌∙◌, Bool, true, false, Option, inl, inr, none, some,
  List, [], ◌∷◌, ◌++◌, map, flat_map, append_assoc, ok, values, lookup, contains, contains→In, In,
  In-map, map-In, In-flat_map, flat_map-In, arith, string_eq,
}
use rtfm.Runtime.Core.{CortexM}
use rtfm.Macro.Syntax.{App, Idle, Ident, Idents, of_idle, at_priority, resource_accesses}
use rtfm.Macro.Analyze.{Analysis, Ownership, owned, shared, ceiling_of, analyze}
use rtfm.Macro.Analyze.Ceilings.{analyze-Explains, analyze_ceiling, Explains}
use rtfm.Kernel.{System, Frame, Machine, IsBoot, Reach, Holds}
use rtfm.Kernel.Exclusion.{mutual_exclusion}

-- The contexts of an application that preempt `main`: each with its priority and its resources.
unfoldable pub preemptors : App → List (ℕ × Idents)
preemptors app =
    map (λ e. (e.args.priority, e.args.resources)) (values app.exceptions)
    ++ (map (λ i. (i.args.priority, i.args.resources)) (values app.interrupts)
        ++ map (λ t. (t.args.priority, t.args.resources)) (values app.tasks))

-- What `main` runs after `init`: `idle`, or a loop around `wfi`, which uses no resource.
unfoldable pub main_context : App → ℕ × Idents
main_context app = (0, of_idle (λ idle. idle.args.resources) app.idle)

-- The contexts that run after `init`.
unfoldable pub handlers : App → List (ℕ × Idents)
unfolding main_context preemptors
handlers app = main_context app ∷ preemptors app

flat_map-append :
    {A B : Type 0} (f : A → List B) (xs ys : List A)
    → flat_map f (xs ++ ys) ≡ flat_map f xs ++ flat_map f ys
flat_map-append f [] ys = refl
flat_map-append f (x ∷ xs) ys =
    ap (◌++◌ (f x)) (flat_map-append f xs ys)
    ∙ sym (append_assoc (f x) (flat_map f xs) (flat_map f ys))

flat_map-map :
    {A B C : Type 0} (f : B → List C) (g : A → B) (xs : List A)
    → flat_map f (map g xs) ≡ flat_map (λ x. f (g x)) xs
flat_map-map f g [] = refl
flat_map-map f g (x ∷ xs) = ap (◌++◌ (f (g x))) (flat_map-map f g xs)

idle_part :
    (idle : Option Idle)
    → at_priority {P = ℕ} 0 (of_idle (λ i. i.args.resources) idle)
      ≡ of_idle (λ i. at_priority 0 i.args.resources) idle
idle_part none = refl
idle_part (some i) = refl

-- The accesses that the ceiling analysis goes through are those of the handlers.
pub resource_accesses-handlers :
    (app : App) → resource_accesses app ≡ flat_map (λ h. at_priority h.0 h.1) (handlers app)
unfolding resource_accesses handlers main_context preemptors
resource_accesses-handlers app = simp (flat_map-append, flat_map-map, idle_part)

pub In-access :
    (app : App) (p : ℕ) (names : Idents) (r : Ident)
    → In (p, names) (handlers app)
    → In r names
    → In (p, r) (resource_accesses app)
In-access app p names r i j = rw (resource_accesses-handlers app) (
    In-flat_map (λ h. at_priority h.0 h.1) (p, names) (p, r) (handlers app) i
      (In-map (λ name. (p, name)) r names j))

access-In :
    (app : App) (p : ℕ) (r : Ident)
    → In (p, r) (resource_accesses app)
    → (names : Idents) × In (p, names) (handlers app)
access-In app p r i =
    let (h, j, k) =
      flat_map-In (λ h. at_priority h.0 h.1) (p, r) (handlers app)
        (rw (resource_accesses-handlers app) at i) in
    let (name, l, e) = map-In (λ name. (h.0, name)) (p, r) h.1 k in
    (h.1, subst (λ q. In (q, h.1) (handlers app)) (ap (λ x. x.0) e) j)

abbrev pub Handler : App → Type 0
Handler app = (h : ℕ × Idents) × In h (handlers app)

-- The ceiling that a lock of the resource uses.
abbrev pub lock_ceiling : Analysis → Ident → ℕ
lock_ceiling a r = elim (lookup r a.ownerships) [ none ↦ 0 | some o ↦ ceiling_of o ]

module _ (debug : Bool) (app : App) (a : Analysis) (done : analyze debug app ≡ ok a) where
  lock_ceiling-some :
      (r : Ident) (o : Ownership) → lookup r a.ownerships ≡ some o → lock_ceiling a r ≡ ceiling_of o
  lock_ceiling-some r o e = rw (e, lock_ceiling) refl

  priority_le_ceiling :
      (h : Handler app) (r : Ident) → contains h.0.1 r ≡ true → h.0.0 ≤ lock_ceiling a r
  priority_le_ceiling h r c =
      let (o, e, le, _) =
        analyze_ceiling debug app a done h.0.0 r
          (In-access app h.0.0 h.0.1 r h.1 (contains→In h.0.1 r c)) in
      omega (arith, lock_ceiling-some r o e)

  -- A ceiling is the priority of some handler, or 0.
  ceiling_le :
      (n : ℕ) → ((h : Handler app) → h.0.0 ≤ 2 ^ n) → (r : Ident) → lock_ceiling a r ≤ 2 ^ n
  ceiling_le n fits r = go (lookup r a.ownerships) refl (analyze-Explains debug app a done r)
    where
      attained : (c : ℕ) → In (c, r) (resource_accesses app) → c ≤ 2 ^ n
      attained c i = let (names, j) = access-In app c r i in fits ((c, names), j)

      go :
          (o : Option Ownership)
          → lookup r a.ownerships ≡ o
          → Explains o r (resource_accesses app)
          → lock_ceiling a r ≤ 2 ^ n
      go none e x = rw (e, lock_ceiling) (omega arith)
      go (some (owned c)) e x = rw (e, lock_ceiling) (attained c x.0)
      go (some (shared c)) e x = rw (e, lock_ceiling) (attained c x.0)

  -- The kernel's parameters, for a device whose priority levels the assertions of `post_init` have
  -- found to suffice.
  unfoldable pub system :
      (n : ℕ) → 0 < n → n < 8 → ((h : Handler app) → h.0.0 ≤ 2 ^ n) → System (Handler app) Ident n
  unfolding lock_ceiling-some priority_le_ceiling ceiling_le In-access access-In
  system n pos lt fits = record {
    priority = λ h. h.0.0;
    ceiling = lock_ceiling a;
    accesses = λ h r. contains h.0.1 r;
    bits_pos = pos;
    bits_lt = lt;
    priority_le = fits;
    ceiling_le = ceiling_le n fits;
    priority_le_ceiling = priority_le_ceiling;
  }

-- The exceptions, interrupts and tasks have priorities from 1 to the number of levels.
abbrev pub IsLevelled : App → ℕ → Type 0
IsLevelled app n = (h : ℕ × Idents) → In h (preemptors app) → (0 < h.0) × (h.0 ≤ 2 ^ n)

pub IsLevelled-fits : (app : App) (n : ℕ) → IsLevelled app n → (h : Handler app) → h.0.0 ≤ 2 ^ n
unfolding handlers main_context
IsLevelled-fits app n levelled (h, inl e) = rw (sym e) (omega arith)
IsLevelled-fits app n levelled (h, inr i) = (levelled h i).1

-- What runs after `init`.
unfoldable pub main_handler : (app : App) → Handler app
unfolding handlers
main_handler app = (main_context app, inl refl)

-- The kernel after `init`, with any state of the core.
abbrev pub booted : (m : CortexM) (app : App) → m.Core → Machine m (Handler app) Ident
booted m app core = record {
  core = core;
  frames = record { task = main_handler app; cell = 0; initial = 0; claims = [] } ∷ [];
}

module _ (debug : Bool) (app : App) (a : Analysis) (done : analyze debug app ≡ ok a) where
  pub booted-IsBoot :
      (m : CortexM) (pos : 0 < m.prio_bits) (lt : m.prio_bits < 8)
      (fits : (h : Handler app) → h.0.0 ≤ 2 ^ m.prio_bits) (core : m.Core)
      → m.is_masked core ≡ false
      → IsBoot m (system debug app a done m.prio_bits pos lt fits) (booted m app core)
  unfolding system main_handler main_context
  booted-IsBoot m pos lt fits core unmasked = record {
    idle = main_handler app;
    idle_priority = refl;
    unmasked = unmasked;
    one_frame = refl;
  }

  -- On a device with 1 to 7 priority bits, for an application, with or without `idle`, for which
  -- the analysis returns, and whose exceptions, interrupts and tasks have priorities from 1 to the
  -- number of levels of the device: under the ceilings that the analysis computes, in every state
  -- of the kernel reached from `main` alone, with interrupts enabled, no two handlers on the stack
  -- may use the same resource.
  pub application_exclusion :
      (m : CortexM) (pos : 0 < m.prio_bits) (lt : m.prio_bits < 8)
      (levelled : IsLevelled app m.prio_bits) (debug' : Bool) (core : m.Core)
      (u : Machine m (Handler app) Ident)
      → m.is_masked core ≡ false
      → Reach m
          (system debug app a done m.prio_bits pos lt (IsLevelled-fits app m.prio_bits levelled))
          debug'
          (booted m app core)
          u
      → (above : List (Frame m (Handler app) Ident)) (f : Frame m (Handler app) Ident)
        (below : List (Frame m (Handler app) Ident)) (g : Frame m (Handler app) Ident) (r : Ident)
      → u.frames ≡ above ++ f ∷ below
      → In g below
      → Holds m
          (system debug app a done m.prio_bits pos lt (IsLevelled-fits app m.prio_bits levelled))
          f
          r
      → ¬ (
          Holds m
            (system debug app a done m.prio_bits pos lt (IsLevelled-fits app m.prio_bits levelled))
            g
            r)
  application_exclusion m pos lt levelled debug' core u unmasked reach =
      mutual_exclusion m
        (system debug app a done m.prio_bits pos lt (IsLevelled-fits app m.prio_bits levelled))
        debug' (booted m app core) u
        (booted-IsBoot m pos lt (IsLevelled-fits app m.prio_bits levelled) core unmasked) reach
