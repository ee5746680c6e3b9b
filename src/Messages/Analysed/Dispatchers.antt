-- ===== src/Messages/Analysed/Dispatchers.antt =====
-- In a build of the macro that checks its sums, the capacity of a dispatcher is the sum of those of
-- its tasks, and each task has its dispatcher.
use rtfm.Common.{
  ℕ, ◌+◌, ◌≡◌, refl, sym, ap, subst, ◌∙◌, true, false, Bool-cases, ◌⊎◌, inl, inr, none, some,
  Option-cases, ok, >>=-eq-ok, ok-injective, expect, expect→, some_injective, List, [], ◌∷◌, ◌++◌,
  In, In-append_left, In-append_right, In-snoc, arith, ◌==◌, beq_self, eq_of_beq, nat_eq, string_eq,
  lookup, modify, lookup-insert, lookup-modify, leb,
}
use rtfm.Macro.Syntax.{App, Ident, Task, Tasks, FreeInterrupts}
use rtfm.Macro.Analyze.{
  Dispatcher, Dispatchers, Capacities, add8, entry, dispatch, dispatchers, sort_tasks,
}
use rtfm.Macro.Analyze.Fold.{fold_seen}
use rtfm.Messages.{total}
use rtfm.Messages.Analysed.{capacity_in}

pub total-append :
    (f : Ident → ℕ) (xs ys : List Ident) → total f (xs ++ ys) ≡ total f xs + total f ys
total-append f [] ys = omega arith
total-append f (x ∷ xs) ys = omega (arith, total-append f xs ys)

-- With overflow checks a sum that is returned did not wrap.
pub add8-checked : (a b c : ℕ) → add8 true a b ≡ ok c → c ≡ a + b
unfolding add8
add8-checked a b c e = elim (Bool-cases (leb 256 (a + b))) [
  | inl p ↦ cc (rw p at e)
  | inr p ↦ ground (arith, p, ok-injective (rw p at e))
]

-- The entry of the dispatcher is the old one or a new one without tasks; the others stay.
entry_parts :
    (p : ℕ) (ds ds' : Dispatchers) (free free' : FreeInterrupts) (d : Dispatcher)
    → entry p ds free ≡ ok (d, ds', free')
    → (lookup p ds' ≡ some d)
      × ((l : ℕ) → (p == l) ≡ false → lookup l ds' ≡ lookup l ds)
      × ((lookup p ds ≡ some d) ⊎ ((lookup p ds ≡ none) × (d.tasks ≡ []) × (d.capacity ≡ 0)))
unfolding entry
entry_parts p ds ds' free free' d h = elim (Option-cases (lookup p ds)) [
  | inr (d', e) ↦
      let q = ok-injective (rw (e, entry) at h) in
      (
        ap (λ x. lookup p x) (sym (ap (λ x. x.1) q)) ∙ e ∙ ap (λ x. some x.0) q,
        λ l n. ap (λ x. lookup l x) (sym (ap (λ x. x.1) q)),
        inl (e ∙ ap (λ x. some x.0) q),
      )
  | inl e ↦ fresh free e h
]
  where
    fresh :
        (free : FreeInterrupts)
        → lookup p ds ≡ none
        → entry p ds free ≡ ok (d, ds', free')
        → (lookup p ds' ≡ some d)
          × ((l : ℕ) → (p == l) ≡ false → lookup l ds' ≡ lookup l ds)
          × ((lookup p ds ≡ some d) ⊎ ((lookup p ds ≡ none) × (d.tasks ≡ []) × (d.capacity ≡ 0)))
    fresh [] e k = cc (rw (e, entry) at k)
    fresh (fi ∷ rest) e k =
        let q = ok-injective (rw (e, entry) at k) in
        (
          ap (λ x. lookup p x) (sym (ap (λ x. x.1) q))
              ∙ lookup-insert p p _ ds
              ∙ rw (beq_self p) (ap (λ x. some x.0) q),
          λ l n. ap (λ x. lookup l x) (sym (ap (λ x. x.1) q)) ∙ lookup-insert p l _ ds ∙ rw n refl,
          inr (e, sym (ap (λ x. x.0.tasks) q), sym (ap (λ x. x.0.capacity) q)),
        )

module _ (caps : Capacities) where
  pub record Served (seen : Tasks) (s : Dispatchers × FreeInterrupts) : Type 0 where
    pub sums :
        (l : ℕ) (d : Dispatcher)
        → lookup l s.0 ≡ some d
        → d.capacity ≡ total (capacity_in caps) d.tasks
    pub member :
        (e : Ident × Task)
        → In e seen
        → (d : Dispatcher) × (lookup e.1.args.priority s.0 ≡ some d) × In e.0 d.tasks

  dispatch-Served :
      (seen : Tasks) (e : Ident × Task) (s s' : Dispatchers × FreeInterrupts)
      → Served seen s
      → dispatch true caps e s ≡ ok s'
      → Served (seen ++ e ∷ []) s'
  unfolding dispatch
  dispatch-Served seen (name, task) (ds, free) s' inv h =
      let ((d, ds', free'), e₁, h₁) = >>=-eq-ok (entry p ds free) _ h in
      let (c, e₂, h₂) = >>=-eq-ok (expect (lookup name caps)) _ h₁ in
      let (sum, e₃, h₃) = >>=-eq-ok (add8 true d.capacity c) _ h₂ in
      finish d ds' free' c sum (entry_parts p ds ds' free free' d e₁)
        (expect→ (lookup name caps) c e₂) (add8-checked d.capacity c sum e₃) (ok-injective h₃)
    where
      p : ℕ
      p = task.args.priority

      finish :
          (d : Dispatcher) (ds' : Dispatchers) (free' : FreeInterrupts) (c sum : ℕ)
          → (lookup p ds' ≡ some d)
            × ((l : ℕ) → (p == l) ≡ false → lookup l ds' ≡ lookup l ds)
            × ((lookup p ds ≡ some d) ⊎ ((lookup p ds ≡ none) × (d.tasks ≡ []) × (d.capacity ≡ 0)))
          → lookup name caps ≡ some c
          → sum ≡ d.capacity + c
          → (modify p (λ _. record d { capacity = sum; tasks = d.tasks ++ name ∷ [] }) ds', free')
            ≡ s'
          → Served (seen ++ (name, task) ∷ []) s'
      finish d ds' free' c sum (at, other, origin) lc se q =
          subst (Served (seen ++ (name, task) ∷ [])) q (record {
            sums = λ l x k. elim (Bool-cases (p == l)) [
              | inl y ↦
                  let same = some_injective (sym (here l y) ∙ k) in
                  ap (λ z. z.capacity) (sym same)
                  ∙ whole
                  ∙ ap (λ z. total (capacity_in caps) z.tasks) same
              | inr n ↦ inv.sums l x (sym (there l n) ∙ k)
            ];
            member = λ e i. elim (In-snoc e (name, task) seen i) [
              | inl old ↦ kept e (inv.member e old)
              | inr new ↦
                  subst
                    (λ e.
                      (d : Dispatcher) × (lookup e.1.args.priority after ≡ some d) × In e.0 d.tasks)
                    new
                    (
                      changed,
                      here p (beq_self p),
                      In-append_right name d.tasks (name ∷ []) (inl refl),
                    )
            ];
          })
        where
          changed : Dispatcher
          changed = record d { capacity = sum; tasks = d.tasks ++ name ∷ [] }

          after : Dispatchers
          after = modify p (λ _. changed) ds'

          here : (l : ℕ) → (p == l) ≡ true → lookup l after ≡ some changed
          here l y =
              lookup-modify p l (λ _. changed) ds'
              ∙ rw (y, sym (ap (λ j. lookup j ds') (eq_of_beq p l y)) ∙ at) refl

          there : (l : ℕ) → (p == l) ≡ false → lookup l after ≡ lookup l ds
          there l n = lookup-modify p l (λ _. changed) ds' ∙ rw n (other l n)

          before : d.capacity ≡ total (capacity_in caps) d.tasks
          before = elim origin [
            | inl old ↦ inv.sums p d old
            | inr (absent, empty, zero) ↦ zero ∙ ap (total (capacity_in caps)) (sym empty)
          ]

          whole : sum ≡ total (capacity_in caps) (d.tasks ++ name ∷ [])
          whole =
              omega (arith, se, before, total-append (capacity_in caps) d.tasks (name ∷ []), own)
            where
              own : capacity_in caps name ≡ c
              own = rw (lc, capacity_in) refl

          kept :
              (e : Ident × Task)
              → (d : Dispatcher) × (lookup e.1.args.priority ds ≡ some d) × In e.0 d.tasks
              → (d : Dispatcher) × (lookup e.1.args.priority after ≡ some d) × In e.0 d.tasks
          kept e (x, k, i) = elim (Bool-cases (p == e.1.args.priority)) [
            | inl y ↦ (
              changed,
              here e.1.args.priority y,
              elim origin [
                | inl old ↦ In-append_left e.0 d.tasks (name ∷ []) (
                    subst (λ z. In e.0 z.tasks)
                      (some_injective (
                        sym k
                        ∙ ap (λ j. lookup j ds) (sym (eq_of_beq p e.1.args.priority y))
                        ∙ old))
                      i)
                | inr (absent, empty, zero) ↦
                    cc (
                      sym k
                      ∙ ap (λ j. lookup j ds) (sym (eq_of_beq p e.1.args.priority y))
                      ∙ absent)
              ],
            )
            | inr n ↦ (x, there e.1.args.priority n ∙ k, i)
          ]

  pub dispatchers-Served :
      (app : App) (ds : Dispatchers) (rest : FreeInterrupts)
      → dispatchers true app caps ≡ ok (ds, rest)
      → Served (sort_tasks app.tasks) (ds, rest)
  unfolding dispatchers
  dispatchers-Served app ds rest h =
      fold_seen (dispatch true caps) Served dispatch-Served [] (sort_tasks app.tasks)
        ([], app.free_interrupts) (ds, rest)
        (record { sums = λ l d k. cc k; member = λ e i. absurd i }) h
