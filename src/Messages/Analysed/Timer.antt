-- ===== src/Messages/Analysed/Timer.antt =====
-- In a build of the macro that checks its sums, the capacity of the timer queue is at least the sum
-- of those of its tasks.
use rtfm.Common.{
  ℕ, ◌+◌, ◌≤◌, ◌≡◌, refl, subst, true, Bool-cases, inl, inr, Option, some, ok, >>=-eq-ok,
  ok-injective, expect, expect→, List, [], ◌∷◌, ◌++◌, set_insert, contains, arith, string_eq,
  lookup,
}
use rtfm.Macro.Syntax.{App, Ident, Idents, Tasks, schedule_calls}
use rtfm.Macro.Analyze.{Capacities, add8, queue_call, timer_queue}
use rtfm.Macro.Analyze.Fold.{fold_seen}
use rtfm.Messages.{total}
use rtfm.Messages.Analysed.{capacity_in}
use rtfm.Messages.Analysed.Dispatchers.{add8-checked, total-append}

module _ (tasks : Tasks) (caps : Capacities) where
  abbrev Covers : List (Option ℕ × Ident) → ℕ × ℕ × Idents → Type 0
  Covers seen s = total (capacity_in caps) s.2 ≤ s.0

  total-set_insert :
      (t : Ident) (c : ℕ) (names : Idents)
      → lookup t caps ≡ some c
      → total (capacity_in caps) (set_insert t names) ≤ total (capacity_in caps) names + c
  total-set_insert t c names l = elim (Bool-cases (contains names t)) [
    | inl p ↦ rw p (omega arith)
    | inr p ↦ rw p (omega (arith, total-append (capacity_in caps) names (t ∷ []), own))
  ]
    where
      own : capacity_in caps t ≡ c
      own = rw (l, capacity_in) refl

  queue_call-Covers :
      (seen : List (Option ℕ × Ident)) (call : Option ℕ × Ident) (s s' : ℕ × ℕ × Idents)
      → Covers seen s
      → queue_call true tasks caps call s ≡ ok s'
      → Covers (seen ++ call ∷ []) s'
  unfolding queue_call
  queue_call-Covers seen (caller, task) (capacity, priority, names) s' inv h =
      let (c, e₁, h₁) = >>=-eq-ok (expect (lookup task caps)) _ h in
      let (capacity', e₂, h₂) = >>=-eq-ok (add8 true capacity c) _ h₁ in
      let (t, e₃, h₃) = >>=-eq-ok (expect (lookup task tasks)) _ h₂ in
      subst (Covers (seen ++ (caller, task) ∷ [])) (ok-injective h₃) (
        omega (
          arith,
          inv,
          add8-checked capacity c capacity' e₂,
          total-set_insert task c names (expect→ (lookup task caps) c e₁),
        ))

pub timer_queue-Covers :
    (app : App) (caps : Capacities) (capacity priority : ℕ) (names : Idents)
    → timer_queue true app caps ≡ ok (capacity, priority, names)
    → total (capacity_in caps) names ≤ capacity
unfolding timer_queue
timer_queue-Covers app caps capacity priority names h =
    fold_seen (queue_call true app.tasks caps) (Covers app.tasks caps)
      (queue_call-Covers app.tasks caps) [] (schedule_calls app) (0, 1, [])
      (capacity, priority, names) (omega arith) h
