-- ===== src/Macro/Check/Sound.antt =====
-- What an application that passes the check satisfies.
use rtfm.Common.{
  ℕ, ◌≤◌, ◌≡◌, refl, ap, ◌∙◌, ◌⊎◌, inl, inr, true, false, not, List, [], ◌∷◌, Option, some, keys,
  lookup, In, All-In, In-append_left, In-append_right, In-map, contains_key, contains→In,
  In-contains-false, length, Bool-cases, Option-cases, string_eq, arith, ◌==◌, eq_of_beq, beq_of_eq,
}
use rtfm.Macro.Result.{ok, ◌>>=◌, ensure, expect, for_each→All, ensure-eq-ok, ensure_all→, Error}
use rtfm.Macro.Syntax.{
  App, Ident, Resource, Resources, Assign, resource_accesses, spawn_calls, schedule_calls,
}
use rtfm.Macro.Check.{
  check_declared, check_not_late, check_initialized, check_tasks, check_dispatchers,
  check_interrupts, is_none, is_assigned, late_resources, collect_set, priorities,
  referenced_resources, referenced_tasks,
}
use rtfm.Macro.Check.Uses.{names, referenced_resources-SameEntries, referenced_tasks-SameEntries}

-- The rules of the specification language, each as the documentation of `app` states it.
pub record IsWellFormed (app : App) : Type 0 where
  -- Whoever accesses a resource accesses one that is declared.
  pub accesses_declared :
      (p : ℕ) (res : Ident) → In (p, res) (resource_accesses app) → In res (keys app.resources)
  -- `init` is given resources that are declared and have an initial value.
  pub init_resources :
      (res : Ident)
      → In res app.init.args.resources
      → (r : Resource) × (lookup res app.resources ≡ some r) × (is_none r.expr ≡ false)
  -- Every other resource is initialized by `init`.
  pub late_assigned :
      (res : Ident) (r : Resource)
      → In (res, r) app.resources
      → is_none r.expr ≡ true
      → (a : Assign) × In a app.init.assigns × (a.left ≡ res)
  -- Tasks that are spawned or scheduled are declared.
  pub spawns_declared :
      (p : Option ℕ) (task : Ident) → In (p, task) (spawn_calls app) → In task (keys app.tasks)
  pub schedules_declared :
      (p : Option ℕ) (task : Ident) → In (p, task) (schedule_calls app) → In task (keys app.tasks)
  -- There is a free interrupt for each priority at which tasks run.
  pub enough_interrupts : length (collect_set (priorities app.tasks)) ≤ length app.free_interrupts
  -- A free interrupt is no handler.
  pub interrupts_free :
      (int : Ident) → In int (keys app.interrupts) → ¬ (In int (keys app.free_interrupts))

is_assigned→ :
    (xs : List Assign) (res : Ident)
    → is_assigned xs res ≡ true
    → (a : Assign) × In a xs × (a.left ≡ res)
is_assigned→ [] res h = cc
is_assigned→ (a ∷ xs) res h = elim (Bool-cases (a.left == res)) [
  | inl p ↦ (a, inl refl, eq_of_beq a.left res p)
  | inr p ↦ let (a', i, e) = is_assigned→ xs res (rw p at h) in (a', inr i, e)
]

pub is_assigned← :
    (xs : List Assign) (res : Ident) (a : Assign)
    → In a xs
    → a.left ≡ res
    → is_assigned xs res ≡ true
is_assigned← [] res a i e = absurd i
is_assigned← (a' ∷ xs) res a (inl p) e = rw (beq_of_eq a'.left res (ap (λ x. x.left) p ∙ e)) refl
is_assigned← (a' ∷ xs) res a (inr i) e = ground (arith, is_assigned← xs res a i e)

pub late_resources→ :
    (m : Resources) (res : Ident)
    → In res (late_resources m)
    → (r : Resource) × In (res, r) m × (is_none r.expr ≡ true)
late_resources→ [] res h = absurd h
late_resources→ ((n, r) ∷ m) res h = elim (Bool-cases (is_none r.expr)) [
  | inl p ↦ step p (late_resources→ m res) (rw p at h)
  | inr p ↦ let (r', i, e) = late_resources→ m res (rw p at h) in (r', inr i, e)
]
  where
    step :
        is_none r.expr ≡ true
        → (In res (late_resources m) → (r' : Resource) × In (res, r') m × (is_none r'.expr ≡ true))
        → (n ≡ res) ⊎ In res (late_resources m)
        → (r' : Resource) × In (res, r') ((n, r) ∷ m) × (is_none r'.expr ≡ true)
    step p ih (inl e) = (r, inl (ap (λ x. (x, r)) e), p)
    step p ih (inr i) = let (r', j, e) = ih i in (r', inr j, e)

late_resources← :
    (m : Resources) (res : Ident) (r : Resource)
    → In (res, r) m
    → is_none r.expr ≡ true
    → In res (late_resources m)
late_resources← [] res r i e = i
late_resources← ((n, r') ∷ m) res r (inl p) e =
    rw (ap (λ x. is_none x.1.expr) p ∙ e) (inl (ap (λ x. x.0) p))
late_resources← ((n, r') ∷ m) res r (inr i) e = elim (Bool-cases (is_none r'.expr)) [
  | inl p ↦ rw p (inr (late_resources← m res r i e))
  | inr p ↦ rw p (late_resources← m res r i e)
]

pub declared→ :
    (app : App)
    → check_declared app ≡ ok tt
    → (res : Ident) → In res (referenced_resources app)
    → In res (keys app.resources)
unfolding check_declared
declared→ app h res i =
    contains→In (keys app.resources) res
      (ensure_all→ (λ res. contains_key res app.resources) _ (referenced_resources app) h res i)

tasks→ :
    (app : App)
    → check_tasks app ≡ ok tt
    → (t : Ident) → In t (referenced_tasks app)
    → In t (keys app.tasks)
unfolding check_tasks
tasks→ app h t i =
    contains→In (keys app.tasks) t
      (ensure_all→ (λ t. contains_key t app.tasks) _ (referenced_tasks app) h t i)

not_late_one :
    (resources : Resources) (res : Ident) (e : Error)
    → (expect (lookup res resources) >>= λ r. ensure (not (is_none r.expr)) e) ≡ ok tt
    → (r : Resource) × (lookup res resources ≡ some r) × (is_none r.expr ≡ false)
not_late_one resources res e h = elim (Option-cases (lookup res resources)) [
  | inl p ↦ ground arith
  | inr (r, p) ↦ (r, p, ground arith)
]

not_late→ :
    (app : App)
    → check_not_late app ≡ ok tt
    → (res : Ident) → In res app.init.args.resources
    → (r : Resource) × (lookup res app.resources ≡ some r) × (is_none r.expr ≡ false)
unfolding check_not_late
not_late→ app h res i =
    not_late_one app.resources res _
      (All-In _ app.init.args.resources (for_each→All _ app.init.args.resources h) res i)

module _ (app : App) where
  pub passed→ :
      check_declared app ≡ ok tt
      → check_not_late app ≡ ok tt
      → check_initialized app ≡ ok tt
      → check_tasks app ≡ ok tt
      → check_dispatchers app ≡ ok tt
      → check_interrupts app ≡ ok tt
      → IsWellFormed app
  unfolding check_initialized check_dispatchers check_interrupts
  passed→ a b c d e f = record {
    accesses_declared = λ p res i. declared→ app a res (
        (referenced_resources-SameEntries app).into res
          (In-append_right res app.init.args.resources _ (In-map (λ c. c.1) (p, res) _ i)));
    init_resources = not_late→ app b;
    late_assigned = λ res r i l. is_assigned→ app.init.assigns res (
        ensure_all→ (is_assigned app.init.assigns) _ (late_resources app.resources) c res
          (late_resources← app.resources res r i l));
    spawns_declared = λ p t i. tasks→ app d t (
        (referenced_tasks-SameEntries app).into t
          (In-append_right t (names (schedule_calls app)) _ (In-map (λ c. c.1) (p, t) _ i)));
    schedules_declared = λ p t i. tasks→ app d t (
        (referenced_tasks-SameEntries app).into t
          (In-append_left t (names (schedule_calls app)) _ (In-map (λ c. c.1) (p, t) _ i)));
    enough_interrupts = ground (arith, ensure-eq-ok _ _ e);
    interrupts_free = λ int i. In-contains-false (keys app.free_interrupts) int (
        ground (
          arith,
          ensure_all→ (λ int. not (contains_key int app.free_interrupts)) _ (keys app.interrupts) f
              int i,
        ));
  }
