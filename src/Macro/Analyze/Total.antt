-- ===== src/Macro/Analyze/Total.antt =====
-- The analysis of a well-formed application does not panic.
use rtfm.Common.{
  All-In, In, keys, ℕ, ◌+◌, max, ◌%◌, ◌≡◌, refl, ap, ◌∙◌, inl, inr, false, Option, none, some,
  Option-cases, List, [], ◌∷◌, ◌++◌, HashMap, Outcome, ok, ◌>>=◌, returns, set_insert, In,
  In-append, arith, eqb, Eq, nat_eq, string_eq, modify, keys, keys-modify, In_keys-lookup,
  lookup→In, In-keys, if◌then◌else◌,
}
use rtfm.Macro.Syn.{SynType}
use rtfm.Macro.Syntax.{App, Ident, Idents, Task, resource_accesses, spawn_calls, schedule_calls}
use rtfm.Macro.Check.{priorities}
use rtfm.Macro.Check.Sound.{IsWellFormed}
use rtfm.Macro.Analyze.{
  Analysis, Ownerships, Capacities, Dispatchers, SpawnState, update, all_at, add8, record_access,
  ownerships, count_call, override_capacity, capacities, queue_call, timer_queue, record_spawn,
  record_schedule, spawn_pass, schedule_pass, fold, analyze,
}
use rtfm.Macro.Analyze.Fold.{fold_total}
use rtfm.Macro.Analyze.Dispatching.{dispatchers_total, priorities-In}

module _ {K V : Type 0} ⦃e : Eq K⦄ where
  -- The map has the keys.
  abbrev Covers : HashMap K V → List K → Type 0
  Covers m ks = (k : K) → In k ks → In k (keys m)

  update_total :
      (k : K) (f : V → Outcome V) (m : HashMap K V) (ks : List K)
      → Covers m ks
      → In k ks
      → ((v : V) → (v' : V) × (f v ≡ ok v'))
      → (m' : HashMap K V) × (update k f m ≡ ok m') × Covers m' ks
  update_total k f m ks cov i tot =
      let (v, l) = In_keys-lookup k m (cov k i) in
      let (v', e') = tot v in
      (
        modify k (λ _. v') m,
        ground (arith, l, e'),
        λ j i'. rw (keys-modify k (λ _. v') m) (cov j i'),
      )

  all_at-Covers : (v : V) (ks : List K) → Covers (all_at v ks) ks
  all_at-Covers v [] k i = i
  all_at-Covers v (x ∷ xs) k (inl p) = inl p
  all_at-Covers v (x ∷ xs) k (inr i) = inr (all_at-Covers v xs k i)

add8_total : (a b : ℕ) → (c : ℕ) × (add8 false a b ≡ ok c)
unfolding add8
add8_total a b = ((a + b) % 256, refl)

module _ (app : App) (w : IsWellFormed app) where
  ownerships_total : (r : Ownerships × List SynType) × (ownerships app ≡ ok r)
  unfolding ownerships record_access
  ownerships_total =
      let (r, e, _) =
        fold_total (record_access app.resources) (λ s. Unit {0}) (resource_accesses app) step
          ([], []) tt in
      (r, e)
    where
      step :
          (x : ℕ × Ident) (s : Ownerships × List SynType)
          → In x (resource_accesses app)
          → Unit {0}
          → (s' : Ownerships × List SynType) × (record_access app.resources x s ≡ ok s') × Unit {0}
      step (p, res) (own, ns) i u =
          let (r, lr) = In_keys-lookup res app.resources (w.accesses_declared p res i) in
          let (s', e) =
            returns (record_access app.resources (p, res) (own, ns))
              (λ bad. ground (arith, bad, lr)) in
          (s', e, tt)

  capacities_total :
      (caps : Capacities) × (capacities false app ≡ ok caps) × Covers caps (keys app.tasks)
  unfolding capacities count_call override_capacity
  capacities_total =
      let (counted, e, cov) =
        fold_total (count_call false) (λ m. Covers m (keys app.tasks))
          (spawn_calls app ++ schedule_calls app) count (all_at 0 (keys app.tasks))
          (all_at-Covers 0 (keys app.tasks)) in
      let (caps, e', cov') =
        fold_total override_capacity (λ m. Covers m (keys app.tasks)) app.tasks over counted cov in
      (caps, ap (λ o. o >>= λ counted. fold override_capacity app.tasks counted) e ∙ e', cov')
    where
      declared :
          (x : Option ℕ × Ident)
          → In x (spawn_calls app ++ schedule_calls app)
          → In x.1 (keys app.tasks)
      declared (p, t) i = elim (In-append (p, t) (spawn_calls app) (schedule_calls app) i) [
        | inl l ↦ w.spawns_declared p t l
        | inr r ↦ w.schedules_declared p t r
      ]

      count :
          (x : Option ℕ × Ident) (m : Capacities)
          → In x (spawn_calls app ++ schedule_calls app)
          → Covers m (keys app.tasks)
          → (m' : Capacities) × (count_call false x m ≡ ok m') × Covers m' (keys app.tasks)
      count (p, t) m i cov =
          update_total t (λ c. add8 false c 1) m (keys app.tasks) cov (declared (p, t) i)
            (λ v. add8_total v 1)

      over :
          (x : Ident × Task) (m : Capacities)
          → In x app.tasks
          → Covers m (keys app.tasks)
          → (m' : Capacities) × (override_capacity x m ≡ ok m') × Covers m' (keys app.tasks)
      over (t, task) m i cov = elim (Option-cases task.args.capacity) [
        | inl e ↦ (m, ground (arith, e), cov)
        | inr (c, e) ↦
            let (m', e', cov') =
              update_total t (λ _. ok c) m (keys app.tasks) cov (In-keys t task app.tasks i)
                (λ v. (c, refl)) in
            (m', ground (arith, e, e'), cov')
      ]

  timer_queue_total :
      (caps : Capacities)
      → Covers caps (keys app.tasks)
      → (r : ℕ × ℕ × Idents) × (timer_queue false app caps ≡ ok r)
  unfolding timer_queue queue_call
  timer_queue_total caps cov =
      let (r, e, _) =
        fold_total (queue_call false app.tasks caps) (λ s. Unit {0}) (schedule_calls app) step
          (0, 1, []) tt in
      (r, e)
    where
      step :
          (x : Option ℕ × Ident) (s : ℕ × ℕ × Idents)
          → In x (schedule_calls app)
          → Unit {0}
          → (s' : ℕ × ℕ × Idents) × (queue_call false app.tasks caps x s ≡ ok s') × Unit {0}
      step (p, t) (capacity, priority, names) i u =
          let (c, lc) = In_keys-lookup t caps (cov t (w.schedules_declared p t i)) in
          let (task, lt) = In_keys-lookup t app.tasks (w.schedules_declared p t i) in
          let (s, es) = add8_total capacity c in
          let (s', e) =
            returns (queue_call false app.tasks caps (p, t) (capacity, priority, names))
              (λ bad. ground (arith, bad, lc, lt, es)) in
          (s', e, tt)

  abbrev Ready : SpawnState → Type 0
  Ready s = Covers s.free_queues (keys app.tasks) × Covers s.ready_queues (priorities app.tasks)

  spawn_pass_total :
      (ds : Dispatchers)
      → Covers ds (priorities app.tasks)
      → (s : SpawnState) × (spawn_pass app ds ≡ ok s) × Ready s
  unfolding spawn_pass record_spawn
  spawn_pass_total ds cov =
      fold_total (record_spawn app.tasks) Ready (spawn_calls app) step _
        (all_at-Covers 0 (keys app.tasks), λ p i. all_at-Covers 0 (keys ds) p (cov p i))
    where
      step :
          (x : Option ℕ × Ident) (s : SpawnState)
          → In x (spawn_calls app)
          → Ready s
          → (s' : SpawnState) × (record_spawn app.tasks x s ≡ ok s') × Ready s'
      step (none, t) s i r = (s, refl, r)
      step (some p, t) s i r =
          let here = w.spawns_declared (some p) t i in
          let (task, lt) = In_keys-lookup t app.tasks here in
          let (free, ef, cf) =
            update_total t (λ c. ok (max c p)) s.free_queues (keys app.tasks) r.0 here
              (λ v. (max v p, refl)) in
          let (ready, er, cr) =
            update_total task.args.priority (λ c. ok (max c p)) s.ready_queues
              (priorities app.tasks) r.1
              (priorities-In (t, task) app.tasks (lookup→In t task app.tasks lt))
              (λ v. (max v p, refl)) in
          (
            record {
              free_queues = free;
              ready_queues = ready;
              needs_send =
                  if eqb task.args.priority p then s.needs_send else set_insert t s.needs_send;
            },
            rw (ef, lt, er) refl,
            (cf, cr),
          )

  schedule_pass_total :
      (free : HashMap Ident ℕ) (tq_priority : ℕ)
      → Covers free (keys app.tasks)
      → (r : HashMap Ident ℕ × ℕ) × (schedule_pass app free tq_priority ≡ ok r)
  unfolding schedule_pass record_schedule
  schedule_pass_total free tq_priority cov =
      let (r, e, _) =
        fold_total record_schedule (λ s. Covers s.0 (keys app.tasks)) (schedule_calls app) step
          (free, tq_priority) cov in
      (r, e)
    where
      step :
          (x : Option ℕ × Ident) (s : HashMap Ident ℕ × ℕ)
          → In x (schedule_calls app)
          → Covers s.0 (keys app.tasks)
          → (s' : HashMap Ident ℕ × ℕ) × (record_schedule x s ≡ ok s')
            × Covers s'.0 (keys app.tasks)
      step (none, t) s i c = (s, refl, c)
      step (some p, t) s i c =
          let (free, ef, cf) =
            update_total t (λ c. ok (max c p)) s.0 (keys app.tasks) c
              (w.schedules_declared (some p) t i) (λ v. (max v p, refl)) in
          ((free, max s.1 p), rw ef refl, cf)

  -- None of the `expect`s, `unwrap`s and map indices of the analysis fails on an application that
  -- is well formed. (The sums wrap here: with overflow checks a sum may still panic.)
  pub analyze_total : (a : Analysis) × (analyze false app ≡ ok a)
  unfolding analyze
  analyze_total =
      let (o, eo) = ownerships_total in
      let (caps, ec, cov) = capacities_total in
      let (tq, et) = timer_queue_total caps cov in
      let (d, ed, all) =
        dispatchers_total app caps
          (λ x i. In_keys-lookup x.0 caps (cov x.0 (In-keys x.0 x.1 app.tasks i)))
          w.enough_interrupts in
      let (s, es, r) =
        spawn_pass_total d.0 (All-In (λ p. In p (keys d.0)) (priorities app.tasks) all) in
      let (f, ef) = schedule_pass_total s.free_queues tq.1 r.0 in
      returns (analyze false app) (rw (eo, ec, et, ed, es, ef) (λ h. cc))
