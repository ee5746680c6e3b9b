-- ===== src/Macro/Analyze/Queues.antt =====
-- The ceilings of the queues are not below the priorities of those who use them.
use rtfm.Common.{
  ℕ, max, ◌≤◌, ◌≡◌, sym, ap, subst, subst₂, ◌∙◌, ◌⊎◌, inl, inr, Bool, Bool-cases, Option, none,
  some, Option-cases, List, [], ◌∷◌, ◌++◌, HashMap, Outcome, ok, expect, >>=-eq-ok, ok-injective,
  In, In-snoc, some_injective, expect→, arith, Eq, nat_eq, ◌==◌, string_eq, eq_of_beq, beq_self,
  lookup, modify, lookup-modify,
}
use rtfm.Macro.Syntax.{App, Ident, Tasks, Task, spawn_calls, schedule_calls}
use rtfm.Macro.Analyze.{
  update, SpawnState, record_spawn, record_schedule, spawn_pass, schedule_pass, analyze, Analysis,
}
use rtfm.Macro.Analyze.Fold.{fold_seen}
use rtfm.Macro.Analyze.Parts.{Parts, analyze-Parts}

module _ {K : Type 0} ⦃e : Eq K⦄ where
  -- The map has an entry for the key, and it is not below the number.
  abbrev pub AtLeast : HashMap K ℕ → K → ℕ → Type 0
  AtLeast m k p = (c : ℕ) × (lookup k m ≡ some c) × (p ≤ c)

  update_parts :
      (k : K) (f : ℕ → Outcome ℕ) (m m' : HashMap K ℕ)
      → update k f m ≡ ok m'
      → (v : ℕ) × (v' : ℕ) × (lookup k m ≡ some v) × (f v ≡ ok v') × (m' ≡ modify k (λ _. v') m)
  update_parts k f m m' h = elim (Option-cases (lookup k m)) [
    | inl p ↦ ground arith
    | inr (v, p) ↦
        let (v', q, r) = >>=-eq-ok (f v) (λ v'. ok (modify k (λ _. v') m)) (rw p at h) in
        (v, v', p, q, sym (ok-injective r))
  ]

  -- Raising an entry by `max` keeps every bound, and adds one.
  raise_keeps :
      (k : K) (p : ℕ) (m m' : HashMap K ℕ)
      → update k (λ c. ok (max c p)) m ≡ ok m'
      → (j : K) (q : ℕ) → AtLeast m j q
      → AtLeast m' j q
  raise_keeps k p m m' h j q (c, l, le) =
      let (v, v', lv, fv, r) = update_parts k (λ c. ok (max c p)) m m' h in
      let law = ap (lookup j) r ∙ lookup-modify k j (λ _. v') m in
      elim (Bool-cases (k == j)) [
        | inl same ↦ (
          v',
          ground (arith, law, l, same),
          ground (arith, ok-injective fv, l, lv, eq_of_beq k j same),
        )
        | inr other ↦ (c, ground (arith, law, l, other), le)
      ]

  raise_adds :
      (k : K) (p : ℕ) (m m' : HashMap K ℕ) → update k (λ c. ok (max c p)) m ≡ ok m' → AtLeast m' k p
  raise_adds k p m m' h =
      let (v, v', lv, fv, r) = update_parts k (λ c. ok (max c p)) m m' h in
      let law = ap (lookup k) r ∙ lookup-modify k k (λ _. v') m in
      (v', ground (arith, law, lv, beq_self k), omega (arith, ok-injective fv))

abbrev Calls : Type 0
Calls = List (Option ℕ × Ident)

-- What the first pass has reached after the calls that it has seen.
record SpawnBounds (tasks : Tasks) (seen : Calls) (s : SpawnState) : Type 0 where
  free : (p : ℕ) (t : Ident) → In (some p, t) seen → AtLeast s.free_queues t p
  ready :
      (p : ℕ) (t : Ident) (task : Task)
      → In (some p, t) seen
      → lookup t tasks ≡ some task
      → AtLeast s.ready_queues task.args.priority p

-- The call that was added last, among all those that were seen.
last_call :
    (p q : ℕ) (u task : Ident) (seen : Calls)
    → In (some p, u) (seen ++ (some q, task) ∷ [])
    → In (some p, u) seen ⊎ ((q ≡ p) × (task ≡ u))
last_call p q u task seen i = elim (In-snoc (some p, u) (some q, task) seen i) [
  | inl l ↦ inl l
  | inr e ↦ inr (some_injective (ap (λ x. x.0) e), ap (λ x. x.1) e)
]

-- A call from `init` counts for nothing.
init_call :
    (p : ℕ) (u task : Ident) (seen : Calls)
    → In (some p, u) (seen ++ (none, task) ∷ [])
    → In (some p, u) seen
init_call p u task seen i = elim (In-snoc (some p, u) (none, task) seen i) [
  | inl l ↦ l
  | inr e ↦ cc (ap (λ x. x.0) e)
]

record_spawn-SpawnBounds :
    (tasks : Tasks) (seen : Calls) (call : Option ℕ × Ident) (s s' : SpawnState)
    → SpawnBounds tasks seen s
    → record_spawn tasks call s ≡ ok s'
    → SpawnBounds tasks (seen ++ call ∷ []) s'
unfolding record_spawn
record_spawn-SpawnBounds tasks seen (none, task) s s' b h =
    subst (SpawnBounds tasks (seen ++ (none, task) ∷ [])) (ok-injective h) (record {
      free = λ p u i. b.free p u (init_call p u task seen i);
      ready = λ p u tk i. b.ready p u tk (init_call p u task seen i);
    })
record_spawn-SpawnBounds tasks seen (some q, task) s s' b h =
    let (free, e, h1) = >>=-eq-ok (update task (λ c. ok (max c q)) s.free_queues) _ h in
    let (t, et, h2) = >>=-eq-ok (expect (lookup task tasks)) _ h1 in
    let (ready, er, h3) =
      >>=-eq-ok (update t.args.priority (λ c. ok (max c q)) s.ready_queues) _ h2 in
    subst (SpawnBounds tasks (seen ++ (some q, task) ∷ [])) (ok-injective h3) (record {
      free = λ p u i. elim (last_call p q u task seen i) [
        | inl l ↦ raise_keeps task q s.free_queues free e u p (b.free p u l)
        | inr (eq, eu) ↦
            subst₂ (λ n v. AtLeast free v n) eq eu (raise_adds task q s.free_queues free e)
      ];
      ready = λ p u tk i l. elim (last_call p q u task seen i) [
        | inl k ↦
            raise_keeps t.args.priority q s.ready_queues ready er tk.args.priority p
              (b.ready p u tk k l)
        | inr (eq, eu) ↦
            subst₂ (λ n (v : Task). AtLeast ready v.args.priority n) eq
              (some_injective
                (sym (expect→ (lookup task tasks) t et) ∙ (ap (λ x. lookup x tasks) eu ∙ l)))
              (raise_adds t.args.priority q s.ready_queues ready er)
      ];
    })

-- What the second pass has reached.
record ScheduleBounds (start : HashMap Ident ℕ × ℕ) (seen : Calls) (s : HashMap Ident ℕ × ℕ)
    : Type 0 where
  kept : (t : Ident) (p : ℕ) → AtLeast start.0 t p → AtLeast s.0 t p
  above : start.1 ≤ s.1
  free : (p : ℕ) (t : Ident) → In (some p, t) seen → AtLeast s.0 t p
  timer : (p : ℕ) (t : Ident) → In (some p, t) seen → p ≤ s.1

record_schedule-ScheduleBounds :
    (start : HashMap Ident ℕ × ℕ) (seen : Calls) (call : Option ℕ × Ident)
    (s s' : HashMap Ident ℕ × ℕ)
    → ScheduleBounds start seen s
    → record_schedule call s ≡ ok s'
    → ScheduleBounds start (seen ++ call ∷ []) s'
unfolding record_schedule
record_schedule-ScheduleBounds start seen (none, task) s s' b h =
    subst (ScheduleBounds start (seen ++ (none, task) ∷ [])) (ok-injective h) (record {
      kept = b.kept;
      above = b.above;
      free = λ p u i. b.free p u (init_call p u task seen i);
      timer = λ p u i. b.timer p u (init_call p u task seen i);
    })
record_schedule-ScheduleBounds start seen (some q, task) s s' b h =
    let (free, e, h1) = >>=-eq-ok (update task (λ c. ok (max c q)) s.0) _ h in
    subst (ScheduleBounds start (seen ++ (some q, task) ∷ [])) (ok-injective h1) (record {
      kept = λ u p l. raise_keeps task q s.0 free e u p (b.kept u p l);
      above = omega (arith, b.above);
      free = λ p u i. elim (last_call p q u task seen i) [
        | inl l ↦ raise_keeps task q s.0 free e u p (b.free p u l)
        | inr (eq, eu) ↦ subst₂ (λ n v. AtLeast free v n) eq eu (raise_adds task q s.0 free e)
      ];
      timer = λ p u i. elim (last_call p q u task seen i) [
        | inl l ↦ omega (arith, b.timer p u l)
        | inr (eq, eu) ↦ omega arith
      ];
    })

-- The ceilings of the queues of an analysis.
pub record QueueCeilings (app : App) (a : Analysis) : Type 0 where
  -- Whoever spawns or schedules a task takes an index from its free queue.
  pub free_spawn :
      (p : ℕ) (t : Ident) → In (some p, t) (spawn_calls app) → AtLeast a.free_queues t p
  pub free_schedule :
      (p : ℕ) (t : Ident) → In (some p, t) (schedule_calls app) → AtLeast a.free_queues t p
  -- Whoever spawns a task writes to the ready queue of its priority.
  pub ready_spawn :
      (p : ℕ) (t : Ident) (task : Task)
      → In (some p, t) (spawn_calls app)
      → lookup t app.tasks ≡ some task
      → AtLeast a.ready_queues task.args.priority p
  -- Whoever schedules a task writes to the timer queue, and its handler reads it.
  pub timer_schedule :
      (p : ℕ) (t : Ident) → In (some p, t) (schedule_calls app) → p ≤ a.timer_queue.ceiling
  pub timer_handler : a.timer_queue.priority ≤ a.timer_queue.ceiling

pub analyze-QueueCeilings :
    (debug : Bool) (app : App) (a : Analysis) → analyze debug app ≡ ok a → QueueCeilings app a
unfolding spawn_pass schedule_pass
analyze-QueueCeilings debug app a h = record {
  free_spawn = λ p t i. second.kept t p (first.free p t i);
  free_schedule = second.free;
  ready_spawn = first.ready;
  timer_schedule = second.timer;
  timer_handler = second.above;
}
  where
    parts : Parts debug app a
    parts = analyze-Parts debug app a h

    first : SpawnBounds app.tasks (spawn_calls app) (record {
      free_queues = parts.spawned;
      ready_queues = a.ready_queues;
      needs_send = a.needs_send;
    })
    first =
        fold_seen (record_spawn app.tasks) (SpawnBounds app.tasks)
          (record_spawn-SpawnBounds app.tasks) [] (spawn_calls app) _ _
          (record { free = λ p t i. absurd i; ready = λ p t task i l. absurd i })
          parts.spawn_pass_ok

    second :
        ScheduleBounds
          (parts.spawned, a.timer_queue.priority)
          (schedule_calls app)
          (a.free_queues, a.timer_queue.ceiling)
    second =
        fold_seen record_schedule (ScheduleBounds (parts.spawned, a.timer_queue.priority))
          (record_schedule-ScheduleBounds (parts.spawned, a.timer_queue.priority)) []
          (schedule_calls app) _ _
          (record {
            kept = λ t p l. l;
            above = omega arith;
            free = λ p t i. absurd i;
            timer = λ p t i. absurd i;
          })
          parts.schedule_pass_ok
