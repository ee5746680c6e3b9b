-- ===== src/Macro/Analyze/Sends.antt =====
-- Which messages have to be `Send`, and which immutable resources `Sync`.
use rtfm.Common.{
  ℕ, max, ◌≡◌, ◌≢◌, sym, ap, subst, ◌∙◌, ◌⊎◌, ◌↔◌, inl, inr, Bool, true, false, Bool-cases, Option,
  none, some, List, [], ◌∷◌, ◌++◌, ok, expect, expect→, some_injective, >>=-eq-ok, ok-injective, In,
  In-snoc, In-append_left, In-append_right, set_insert, set_insert-In, In-set_insert, arith, eqb,
  eqb_iff, nat_eq, string_eq, lookup,
}
use rtfm.Macro.Syntax.{App, Ident, Idents, Tasks, Task, spawn_calls}
use rtfm.Macro.Analyze.{update, extend_set, SpawnState, record_spawn, spawn_pass, analyze, Analysis}
use rtfm.Macro.Analyze.Fold.{fold_seen}
use rtfm.Macro.Analyze.Parts.{Parts, analyze-Parts}

abbrev Calls : Type 0
Calls = List (Option ℕ × Ident)

extend_set-In : (t : Ident) (xs set : Idents) → In t (extend_set xs set) → In t xs ⊎ In t set
extend_set-In t [] set i = inr i
extend_set-In t (x ∷ xs) set i = elim (extend_set-In t xs (set_insert x set) i) [
  | inl l ↦ inl (inr l)
  | inr r ↦ elim (set_insert-In t x set r) [ inl l ↦ inr l | inr e ↦ inl (inl e) ]
]

In-extend_set : (t : Ident) (xs set : Idents) → In t xs ⊎ In t set → In t (extend_set xs set)
In-extend_set t [] set (inl i) = absurd i
In-extend_set t [] set (inr i) = i
In-extend_set t (x ∷ xs) set (inl (inl e)) =
    In-extend_set t xs (set_insert x set) (inr (In-set_insert t x set (inr e)))
In-extend_set t (x ∷ xs) set (inl (inr i)) = In-extend_set t xs (set_insert x set) (inl i)
In-extend_set t (x ∷ xs) set (inr i) =
    In-extend_set t xs (set_insert x set) (inr (In-set_insert t x set (inl i)))

-- Some task of another priority spawns `t`.
abbrev pub CrossSpawned : Tasks → Calls → Ident → Type 0
CrossSpawned tasks calls t =
    (p : ℕ) × (task : Task) × In (some p, t) calls
    × (lookup t tasks ≡ some task)
    × (task.args.priority ≢ p)

module _ (tasks : Tasks) (first : Idents) where
  record Sends (seen : Calls) (s : SpawnState) : Type 0 where
    into : (t : Ident) → In t s.needs_send → In t first ⊎ CrossSpawned tasks seen t
    back : (t : Ident) → In t first ⊎ CrossSpawned tasks seen t → In t s.needs_send

  grow :
      (seen : Calls) (call : Option ℕ × Ident) (t : Ident)
      → In t first ⊎ CrossSpawned tasks seen t
      → In t first ⊎ CrossSpawned tasks (seen ++ call ∷ []) t
  grow seen call t (inl i) = inl i
  grow seen call t (inr (p, task, i, l, ne)) =
      inr (p, task, In-append_left (some p, t) seen (call ∷ []) i, l, ne)

  record_spawn-Sends :
      (seen : Calls) (call : Option ℕ × Ident) (s s' : SpawnState)
      → Sends seen s
      → record_spawn tasks call s ≡ ok s'
      → Sends (seen ++ call ∷ []) s'
  unfolding record_spawn
  record_spawn-Sends seen (none, task) s s' b h =
      subst (Sends (seen ++ (none, task) ∷ [])) (ok-injective h) (record {
        into = λ t i. grow seen (none, task) t (b.into t i);
        back = λ t i. b.back t (shrink t i);
      })
    where
      shrink :
          (t : Ident)
          → In t first ⊎ CrossSpawned tasks (seen ++ (none, task) ∷ []) t
          → In t first ⊎ CrossSpawned tasks seen t
      shrink t (inl i) = inl i
      shrink t (inr (p, tk, i, l, ne)) = elim (In-snoc (some p, t) (none, task) seen i) [
        | inl j ↦ inr (p, tk, j, l, ne)
        | inr e ↦ cc (ap (λ x. x.0) e)
      ]
  record_spawn-Sends seen (some q, task) s s' b h =
      let (free, e, h1) = >>=-eq-ok (update task (λ c. ok (max c q)) s.free_queues) _ h in
      let (t, et, h2) = >>=-eq-ok (expect (lookup task tasks)) _ h1 in
      let (ready, er, h3) =
        >>=-eq-ok (update t.args.priority (λ c. ok (max c q)) s.ready_queues) _ h2 in
      let found = expect→ (lookup task tasks) t et in
      subst (Sends (seen ++ (some q, task) ∷ [])) (ok-injective h3)
        (elim (Bool-cases (eqb t.args.priority q)) [
          | inl same ↦ record {
            into = λ u i. grow seen (some q, task) u (b.into u (rw same at i));
            back = λ u i. rw same (b.back u (drop_same u t found same i));
          }
          | inr differ ↦ record {
            into =
                λ u i. added u t found differ (set_insert-In u task s.needs_send (rw differ at i));
            back = λ u i. rw differ (In-set_insert u task s.needs_send (keep u i));
          }
        ])
    where
      keep :
          (u : Ident)
          → In u first ⊎ CrossSpawned tasks (seen ++ (some q, task) ∷ []) u
          → In u s.needs_send ⊎ (task ≡ u)
      keep u (inl i) = inl (b.back u (inl i))
      keep u (inr (p, tk, i, l, ne)) = elim (In-snoc (some p, u) (some q, task) seen i) [
        | inl j ↦ inl (b.back u (inr (p, tk, j, l, ne)))
        | inr e ↦ inr (ap (λ x. x.1) e)
      ]

      added :
          (u : Ident) (t : Task)
          → lookup task tasks ≡ some t
          → eqb t.args.priority q ≡ false
          → In u s.needs_send ⊎ (task ≡ u)
          → In u first ⊎ CrossSpawned tasks (seen ++ (some q, task) ∷ []) u
      added u t found differ (inl i) = grow seen (some q, task) u (b.into u i)
      added u t found differ (inr e) = inr (
        q,
        t,
        In-append_right (some q, u) seen ((some q, task) ∷ []) (inl (ap (λ x. (some q, x)) e)),
        ap (λ x. lookup x tasks) (sym e) ∙ found,
        λ p. ground (arith, p),
      )

      drop_same :
          (u : Ident) (t : Task)
          → lookup task tasks ≡ some t
          → eqb t.args.priority q ≡ true
          → In u first ⊎ CrossSpawned tasks (seen ++ (some q, task) ∷ []) u
          → In u first ⊎ CrossSpawned tasks seen u
      drop_same u t found same (inl i) = inl i
      drop_same u t found same (inr (p, tk, i, l, ne)) =
          elim (In-snoc (some p, u) (some q, task) seen i) [
            | inl j ↦ inr (p, tk, j, l, ne)
            | inr e ↦
                let same_task =
                  some_injective (sym found ∙ (ap (λ x. lookup x tasks) (ap (λ x. x.1) e) ∙ l)) in
                absurd (
                  ne (
                    ap (λ (k : Task). k.args.priority) (sym same_task)
                    ∙ ((eqb_iff t.args.priority q).0 same ∙ some_injective (ap (λ x. x.0) e))))
          ]

-- The messages that have to be `Send` are those of the tasks that `init` spawns or schedules, and
-- of the tasks that some task of another priority spawns. A task that is scheduled from another
-- priority and never spawned is not among them.
pub analyze-needs_send :
    (debug : Bool) (app : App) (a : Analysis)
    → analyze debug app ≡ ok a
    → (t : Ident)
    → In t a.needs_send ↔ (
        In t (app.init.args.spawn ++ app.init.args.schedule)
        ⊎ CrossSpawned app.tasks (spawn_calls app) t)
unfolding spawn_pass
analyze-needs_send debug app a h t = (λ i. start t (sends.into t i), λ i. sends.back t (finish t i))
  where
    first : Idents
    first = extend_set (app.init.args.spawn ++ app.init.args.schedule) []

    parts : Parts debug app a
    parts = analyze-Parts debug app a h

    sends : Sends app.tasks first (spawn_calls app) (record {
      free_queues = parts.spawned;
      ready_queues = a.ready_queues;
      needs_send = a.needs_send;
    })
    sends =
        fold_seen (record_spawn app.tasks) (Sends app.tasks first)
          (record_spawn-Sends app.tasks first) [] (spawn_calls app) _ _
          (record {
            into = λ t i. inl i;
            back = λ t i. elim i [ inl j ↦ j | inr (p, task, j, _, _) ↦ absurd j ];
          })
          parts.spawn_pass_ok

    start :
        (t : Ident)
        → In t first ⊎ CrossSpawned app.tasks (spawn_calls app) t
        → In t (app.init.args.spawn ++ app.init.args.schedule)
          ⊎ CrossSpawned app.tasks (spawn_calls app) t
    start t (inl i) = elim (extend_set-In t _ [] i) [ inl l ↦ inl l | inr n ↦ absurd n ]
    start t (inr c) = inr c

    finish :
        (t : Ident)
        → In t (app.init.args.spawn ++ app.init.args.schedule)
          ⊎ CrossSpawned app.tasks (spawn_calls app) t
        → In t first ⊎ CrossSpawned app.tasks (spawn_calls app) t
    finish t (inl i) = inl (In-extend_set t _ [] (inl i))
    finish t (inr c) = inr c
