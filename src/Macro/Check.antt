-- ===== src/Macro/Check.antt =====
-- `app` of macros/src/check.rs.
pub mod Uses
pub mod Sound
pub mod Decides
use rtfm.Common.{
  ℕ, ◌≡◌, Bool, true, false, not, ◌&&◌, List, [], ◌∷◌, ◌++◌, map, flat_map, length, Option, none,
  some, values, keys, lookup, contains_key, set_insert, string_eq, nat_eq, ltb, leb, ◌==◌,
  if◌then◌else◌, contains,
}
use rtfm.Macro.Result.{
  Result, ok, err, panic, ◌>>=◌, ◌>>◌, ensure, expect, for_each, Error, resource_undeclared,
  late_assigned_to_init, late_uninitialized, task_undeclared, interrupts_required,
  free_interrupt_used,
}
use rtfm.Macro.Syntax.{App, Ident, Idents, Resource, Resources, Assign, Tasks, of_idle}

abbrev pub is_none : {A : Type 0} → Option A → Bool
is_none none = true
is_none (some a) = false

-- The chain of all lists of resources, in the order of the source.
unfoldable pub referenced_resources : App → Idents
referenced_resources app =
    of_idle (λ idle. idle.args.resources) app.idle
    ++ (app.init.args.resources
        ++ (flat_map (λ e. e.args.resources) (values app.exceptions)
            ++ (flat_map (λ i. i.args.resources) (values app.interrupts)
                ++ flat_map (λ t. t.args.resources) (values app.tasks))))

-- The chain of all lists of tasks.
unfoldable pub referenced_tasks : App → Idents
referenced_tasks app =
    of_idle (λ idle. idle.args.schedule ++ idle.args.spawn) app.idle
    ++ (app.init.args.schedule
        ++ (app.init.args.spawn
            ++ (flat_map (λ e. e.args.schedule ++ e.args.spawn) (values app.exceptions)
                ++ (flat_map (λ i. i.args.schedule ++ i.args.spawn) (values app.interrupts)
                    ++ flat_map (λ t. t.args.schedule ++ t.args.spawn) (values app.tasks)))))

-- The names of the resources without an initial value.
abbrev pub late_resources : Resources → Idents
late_resources [] = []
late_resources ((name, res) ∷ rest) =
    if is_none res.expr then name ∷ late_resources rest else late_resources rest

abbrev pub is_assigned : List Assign → Ident → Bool
is_assigned [] res = false
is_assigned (assign ∷ rest) res = if assign.left == res then true else is_assigned rest res

-- `collect` into a `HashSet`.
abbrev pub collect_set : List ℕ → List ℕ
collect_set [] = []
collect_set (x ∷ xs) = set_insert x (collect_set xs)

abbrev pub priorities : Tasks → List ℕ
priorities tasks = map (λ t. t.args.priority) (values tasks)

unfoldable pub check_declared : App → Result (Unit {0})
unfolding referenced_resources
check_declared app =
    for_each (λ res. ensure (contains_key res app.resources) (resource_undeclared res))
      (referenced_resources app)

unfoldable pub check_not_late : App → Result (Unit {0})
check_not_late app =
    for_each
      (λ res. expect (lookup res app.resources) >>= λ r.
        ensure (not (is_none r.expr)) (late_assigned_to_init res))
      app.init.args.resources

unfoldable pub check_initialized : App → Result (Unit {0})
check_initialized app =
    for_each (λ res. ensure (is_assigned app.init.assigns res) (late_uninitialized res))
      (late_resources app.resources)

unfoldable pub check_tasks : App → Result (Unit {0})
unfolding referenced_tasks
check_tasks app =
    for_each (λ task. ensure (contains_key task app.tasks) (task_undeclared task))
      (referenced_tasks app)

unfoldable pub check_dispatchers : App → Result (Unit {0})
check_dispatchers app =
    let ndispatchers = length (collect_set (priorities app.tasks)) in
    ensure (leb ndispatchers (length app.free_interrupts)) (interrupts_required ndispatchers)

unfoldable pub check_interrupts : App → Result (Unit {0})
check_interrupts app =
    for_each (λ int. ensure (not (contains_key int app.free_interrupts)) (free_interrupt_used int))
      (keys app.interrupts)

unfoldable pub check : App → Result (Unit {0})
check app = do
  check_declared app
  check_not_late app
  check_initialized app
  check_tasks app
  check_dispatchers app
  check_interrupts app
