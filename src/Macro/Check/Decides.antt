-- ===== src/Macro/Check/Decides.antt =====
-- The check accepts exactly the well-formed applications.
use rtfm.Common.{
  ◌≡◌, ◌≢◌, refl, ap, subst, ◌↔◌, inl, inr, not, ◌++◌, keys, In, In-All, In-append, In-append_left,
  map-In, contains_key, In→contains, contains-false, string_eq, arith, In_keys-lookup,
  lookup-In_keys,
}
use rtfm.Macro.Result.{
  ok, panic, All→for_each, for_each-ne-panic, ensure-ne-panic, ensure_all←, ensure_all-ne-panic,
  >>-eq-ok, >>-ne-panic, Error,
}
use rtfm.Macro.Syntax.{App, Ident, resource_accesses, spawn_calls, schedule_calls}
use rtfm.Macro.Check.{
  check, check_declared, check_not_late, check_initialized, check_tasks, check_dispatchers,
  check_interrupts, is_none, is_assigned, late_resources, referenced_resources, referenced_tasks,
}
use rtfm.Macro.Check.Uses.{names, referenced_resources-SameEntries, referenced_tasks-SameEntries}
use rtfm.Macro.Check.Sound.{IsWellFormed, declared→, is_assigned←, late_resources→, passed→}

module _ (app : App) where
  declared← : IsWellFormed app → check_declared app ≡ ok tt
  unfolding check_declared
  declared← w =
      ensure_all← (λ res. contains_key res app.resources) _ (referenced_resources app)
        λ res i.
          In→contains (keys app.resources) res
            (use_of res ((referenced_resources-SameEntries app).back res i))
    where
      use_of :
          (res : Ident)
          → In res (app.init.args.resources ++ names (resource_accesses app))
          → In res (keys app.resources)
      use_of res i =
          elim (In-append res app.init.args.resources (names (resource_accesses app)) i) [
            | inl l ↦ let (r, e, _) = w.init_resources res l in lookup-In_keys res r app.resources e
            | inr j ↦
                let ((p, n), k, e) = map-In (λ c. c.1) res (resource_accesses app) j in
                subst (λ x. In x (keys app.resources)) e (w.accesses_declared p n k)
          ]

  tasks← : IsWellFormed app → check_tasks app ≡ ok tt
  unfolding check_tasks
  tasks← w =
      ensure_all← (λ t. contains_key t app.tasks) _ (referenced_tasks app)
        λ t i.
          In→contains (keys app.tasks) t (use_of t ((referenced_tasks-SameEntries app).back t i))
    where
      use_of :
          (t : Ident)
          → In t (names (schedule_calls app) ++ names (spawn_calls app))
          → In t (keys app.tasks)
      use_of t i = elim (In-append t (names (schedule_calls app)) (names (spawn_calls app)) i) [
        | inl l ↦
            let ((p, n), k, e) = map-In (λ c. c.1) t (schedule_calls app) l in
            subst (λ x. In x (keys app.tasks)) e (w.schedules_declared p n k)
        | inr l ↦
            let ((p, n), k, e) = map-In (λ c. c.1) t (spawn_calls app) l in
            subst (λ x. In x (keys app.tasks)) e (w.spawns_declared p n k)
      ]

  not_late← : IsWellFormed app → check_not_late app ≡ ok tt
  unfolding check_not_late
  not_late← w = All→for_each _ app.init.args.resources (
      In-All _ app.init.args.resources
        λ res i. let (r, e, l) = w.init_resources res i in ground (arith, e, l))

  initialized← : IsWellFormed app → check_initialized app ≡ ok tt
  unfolding check_initialized
  initialized← w =
      ensure_all← (is_assigned app.init.assigns) _ (late_resources app.resources) λ res i.
        let (r, j, l) = late_resources→ app.resources res i in
        let (a, k, e) = w.late_assigned res r j l in is_assigned← app.init.assigns res a k e

  interrupts← : IsWellFormed app → check_interrupts app ≡ ok tt
  unfolding check_interrupts
  interrupts← w =
      ensure_all← (λ int. not (contains_key int app.free_interrupts)) _ (keys app.interrupts)
        λ int i. ap not (contains-false (keys app.free_interrupts) int (w.interrupts_free int i))

  dispatchers← : IsWellFormed app → check_dispatchers app ≡ ok tt
  unfolding check_dispatchers
  dispatchers← w = ground (arith, w.enough_interrupts)

-- The check passes just if the application is well formed.
pub check-IsWellFormed : (app : App) → (check app ≡ ok tt) ↔ IsWellFormed app
unfolding check
check-IsWellFormed app = (
  passed,
  λ w.
      rw
        (
          declared← app w,
          not_late← app w,
          initialized← app w,
          tasks← app w,
          dispatchers← app w,
          interrupts← app w,
        )
        refl,
)
  where
    passed : check app ≡ ok tt → IsWellFormed app
    passed h =
        let (a, ha) = >>-eq-ok (check_declared app) _ h in
        let (b, hb) = >>-eq-ok (check_not_late app) _ ha in
        let (c, hc) = >>-eq-ok (check_initialized app) _ hb in
        let (d, hd) = >>-eq-ok (check_tasks app) _ hc in
        let (e, f) = >>-eq-ok (check_dispatchers app) _ hd in passed→ app a b c d e f

module _ (app : App) where
  not_late-ne-panic : check_declared app ≡ ok tt → check_not_late app ≢ panic
  unfolding check_not_late
  not_late-ne-panic h = for_each-ne-panic _ app.init.args.resources (
      In-All _ app.init.args.resources λ res i e.
        let (r, p) = In_keys-lookup res app.resources (
          declared→ app h res (
            (referenced_resources-SameEntries app).into res
              (In-append_left res app.init.args.resources _ i))) in
        ground
          (arith, p, e, ensure-ne-panic (not (is_none r.expr)) (Error.late_assigned_to_init res)))

  -- Its `unwrap` is never reached without a resource.
  pub check-ne-panic : check app ≢ panic
  unfolding check check_declared check_initialized check_tasks check_dispatchers check_interrupts
  check-ne-panic =
      >>-ne-panic (check_declared app) _ (ensure_all-ne-panic _ _ (referenced_resources app)) λ a.
        >>-ne-panic (check_not_late app) _ (not_late-ne-panic a) λ _.
          >>-ne-panic (check_initialized app) _
            (ensure_all-ne-panic _ _ (late_resources app.resources))
            λ _.
              >>-ne-panic (check_tasks app) _ (ensure_all-ne-panic _ _ (referenced_tasks app)) λ _.
                >>-ne-panic (check_dispatchers app) _ (ensure-ne-panic _ _)
                  λ _. ensure_all-ne-panic _ _ (keys app.interrupts)
