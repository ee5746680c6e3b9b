-- ===== src/Macro/Check/Uses.antt =====
-- The chains that check.rs walks hold the names that the iterators of `App` hold.
use rtfm.Common.{
  ◌≡◌, refl, ap, ap₂, ◌∙◌, List, [], ◌∷◌, ◌++◌, map, flat_map, append_assoc, SameEntries,
  SameEntries-refl, SameEntries-trans, SameEntries-swap, SameEntries-merge, SameEntries-flat_map,
  Option, none, some, values,
}
use rtfm.Macro.Syntax.{
  App, Ident, Idents, Idle, of_idle, at_priority, resource_accesses, spawn_calls, schedule_calls,
}
use rtfm.Macro.Check.{referenced_resources, referenced_tasks}

-- The names of a list of accesses or calls.
abbrev pub names : {P : Type 0} → List (P × Ident) → Idents
names calls = map (λ c. c.1) calls

module _ {P : Type 0} where
  names-at_priority : (p : P) (xs : Idents) → names (at_priority p xs) ≡ xs
  names-at_priority p [] = refl
  names-at_priority p (x ∷ xs) = ap (◌∷◌ x) (names-at_priority p xs)

  names-append : (xs ys : List (P × Ident)) → names (xs ++ ys) ≡ names xs ++ names ys
  names-append [] ys = refl
  names-append (x ∷ xs) ys = ap (◌∷◌ x.1) (names-append xs ys)

  names-flat_map :
      {V : Type 0} (p : V → P) (f : V → Idents) (vs : List V)
      → names (flat_map (λ v. at_priority (p v) (f v)) vs) ≡ flat_map f vs
  names-flat_map p f [] = refl
  names-flat_map p f (v ∷ vs) =
      names-append (at_priority (p v) (f v)) _
      ∙ ap₂ ◌++◌ (names-at_priority (p v) (f v)) (names-flat_map p f vs)

  names-of_idle :
      (p : P) (f : Idle → Idents) (idle : Option Idle)
      → names (of_idle (λ i. at_priority p (f i)) idle) ≡ of_idle f idle
  names-of_idle p f none = refl
  names-of_idle p f (some i) = names-at_priority p (f i)

ruleset names_laws = (names-append, names-at_priority, names-flat_map, names-of_idle)

pub names-resource_accesses :
    (app : App)
    → names (resource_accesses app)
      ≡ of_idle (λ idle. idle.args.resources) app.idle
        ++ (flat_map (λ e. e.args.resources) (values app.exceptions)
            ++ (flat_map (λ i. i.args.resources) (values app.interrupts)
                ++ flat_map (λ t. t.args.resources) (values app.tasks)))
unfolding resource_accesses
names-resource_accesses app = simp names_laws

pub names-spawn_calls :
    (app : App)
    → names (spawn_calls app)
      ≡ app.init.args.spawn
        ++ (of_idle (λ idle. idle.args.spawn) app.idle
            ++ (flat_map (λ e. e.args.spawn) (values app.exceptions)
                ++ (flat_map (λ i. i.args.spawn) (values app.interrupts)
                    ++ flat_map (λ t. t.args.spawn) (values app.tasks))))
unfolding spawn_calls
names-spawn_calls app = simp names_laws

pub names-schedule_calls :
    (app : App)
    → names (schedule_calls app)
      ≡ app.init.args.schedule
        ++ (of_idle (λ idle. idle.args.schedule) app.idle
            ++ (flat_map (λ e. e.args.schedule) (values app.exceptions)
                ++ (flat_map (λ i. i.args.schedule) (values app.interrupts)
                    ++ flat_map (λ t. t.args.schedule) (values app.tasks))))
unfolding schedule_calls
names-schedule_calls app = simp names_laws

of_idle_merge :
    (f g : Idle → Idents) (idle : Option Idle)
    → SameEntries (of_idle f idle ++ of_idle g idle) (of_idle (λ i. f i ++ g i) idle)
of_idle_merge f g none = SameEntries-refl []
of_idle_merge f g (some i) = SameEntries-refl (f i ++ g i)

-- check.rs looks at the resources of `init` and at those that the ceiling analysis goes through.
pub referenced_resources-SameEntries :
    (app : App)
    → SameEntries
        (app.init.args.resources ++ names (resource_accesses app))
        (referenced_resources app)
unfolding referenced_resources
referenced_resources-SameEntries app =
    rw (names-resource_accesses app) (SameEntries-swap app.init.args.resources _ _)

-- Five links of one chain and five of another, against the six of their merged chain.
module _ (a b c d e a' b' c' d' e' b'' c'' d'' e'' : Idents) where
  merge_chains :
      SameEntries (b ++ b') b''
      → SameEntries (c ++ c') c''
      → SameEntries (d ++ d') d''
      → SameEntries (e ++ e') e''
      → SameEntries
          ((a ++ (b ++ (c ++ (d ++ e)))) ++ (a' ++ (b' ++ (c' ++ (d' ++ e')))))
          (b'' ++ (a ++ (a' ++ (c'' ++ (d'' ++ e'')))))
  merge_chains hb hc hd he =
      SameEntries-trans ((a ++ (b ++ (c ++ (d ++ e)))) ++ (a' ++ (b' ++ (c' ++ (d' ++ e')))))
        ((a ++ a') ++ (b'' ++ (c'' ++ (d'' ++ e'')))) (b'' ++ (a ++ (a' ++ (c'' ++ (d'' ++ e'')))))
        (SameEntries-merge a a' (a ++ a') (b ++ (c ++ (d ++ e))) (b' ++ (c' ++ (d' ++ e')))
          (b'' ++ (c'' ++ (d'' ++ e''))) (SameEntries-refl (a ++ a'))
          (SameEntries-merge b b' b'' (c ++ (d ++ e)) (c' ++ (d' ++ e')) (c'' ++ (d'' ++ e'')) hb (
            SameEntries-merge c c' c'' (d ++ e) (d' ++ e') (d'' ++ e'') hc
              (SameEntries-merge d d' d'' e e' e'' hd he))))
        (rw (← append_assoc a a' (c'' ++ (d'' ++ e'')))
          (SameEntries-swap (a ++ a') b'' (c'' ++ (d'' ++ e''))))

-- And at the tasks that are scheduled or spawned anywhere.
pub referenced_tasks-SameEntries :
    (app : App)
    → SameEntries (names (schedule_calls app) ++ names (spawn_calls app)) (referenced_tasks app)
unfolding referenced_tasks
referenced_tasks-SameEntries app =
    rw (names-schedule_calls app, names-spawn_calls app)
      (merge_chains app.init.args.schedule (of_idle (λ i. i.args.schedule) app.idle)
        (flat_map (λ e. e.args.schedule) (values app.exceptions))
        (flat_map (λ e. e.args.schedule) (values app.interrupts))
        (flat_map (λ e. e.args.schedule) (values app.tasks)) app.init.args.spawn
        (of_idle (λ i. i.args.spawn) app.idle)
        (flat_map (λ e. e.args.spawn) (values app.exceptions))
        (flat_map (λ e. e.args.spawn) (values app.interrupts))
        (flat_map (λ e. e.args.spawn) (values app.tasks))
        (of_idle (λ i. i.args.schedule ++ i.args.spawn) app.idle)
        (flat_map (λ e. e.args.schedule ++ e.args.spawn) (values app.exceptions))
        (flat_map (λ e. e.args.schedule ++ e.args.spawn) (values app.interrupts))
        (flat_map (λ e. e.args.schedule ++ e.args.spawn) (values app.tasks))
        (of_idle_merge (λ i. i.args.schedule) (λ i. i.args.spawn) app.idle)
        (SameEntries-flat_map (λ e. e.args.schedule) (λ e. e.args.spawn) (values app.exceptions))
        (SameEntries-flat_map (λ e. e.args.schedule) (λ e. e.args.spawn) (values app.interrupts))
        (SameEntries-flat_map (λ e. e.args.schedule) (λ e. e.args.spawn) (values app.tasks)))
