-- ===== src/Macro/Parse/Names.antt =====
-- The names of an application that the parser accepts.
use rtfm.Common.{
  ◌≡◌, sym, subst, inl, inr, Bool, false, not, List, [], ◌∷◌, String, string_eq, HashMap, keys, In,
  Distinct, contains_key, insert, In_keys-insert, Distinct-insert, In→contains, Option-cases, arith,
}
use rtfm.Macro.Result.{
  Result, ok, ensure, expect, >>-eq-ok, >>=-eq-ok, ok-injective, ensure-eq-ok, Error,
}
use rtfm.Macro.Syn.{Attribute, ItemFn, Item, item_fn, static_item, foreign_mod, other_item}
use rtfm.Macro.Syntax.{App, AppArgs, Ident, Exceptions, Interrupts, Tasks}
use rtfm.Macro.Check.{is_none}
use rtfm.Macro.Parse.Tokens.{ParseStream}
use rtfm.Macro.Parse.Args.{parse_init_args, parse_task_args, parse_exception_args}
use rtfm.Macro.Parse.Items.{
  check_idle, check_init, check_exception, check_interrupt, check_resource, check_task,
  parse_free_interrupts,
}
use rtfm.Macro.Parse.Program.{
  take_attr, Parsed, nothing_parsed, is_defined, without, parse_idle, parse_init, parse_exception,
  parse_interrupt, parse_task, parse_fn, parse_item, parse_items, parse,
}

abbrev Disjoint : {V W : Type 0} → HashMap Ident V → HashMap Ident W → Type 0
Disjoint m n = (k : Ident) → In k (keys m) → ¬ (In k (keys n))

-- A name belongs to one handler: no two maps share a name, and no map holds one twice.
pub record HandlersApart (exceptions : Exceptions) (interrupts : Interrupts) (tasks : Tasks)
    : Type 0 where
  pub exceptions_once : Distinct (keys exceptions)
  pub interrupts_once : Distinct (keys interrupts)
  pub tasks_once : Distinct (keys tasks)
  pub exceptions_interrupts : Disjoint exceptions interrupts
  pub exceptions_tasks : Disjoint exceptions tasks
  pub interrupts_tasks : Disjoint interrupts tasks

abbrev ApartIn : Parsed → Type 0
ApartIn s = HandlersApart s.exceptions s.interrupts s.tasks

fresh :
    {V : Type 0} (k : Ident) (m : HashMap Ident V) → contains_key k m ≡ false → ¬ (In k (keys m))
fresh k m h i = ground (arith, In→contains (keys m) k i)

left_insert :
    {V W : Type 0} (k : Ident) (v : V) (m : HashMap Ident V) (n : HashMap Ident W)
    → Disjoint m n
    → ¬ (In k (keys n))
    → Disjoint (insert k v m) n
left_insert k v m n d h j i l = elim (In_keys-insert k j v m i) [
  | inl e ↦ h (subst (λ x. In x (keys n)) (sym e) l)
  | inr o ↦ d j o l
]

right_insert :
    {V W : Type 0} (k : Ident) (w : W) (m : HashMap Ident V) (n : HashMap Ident W)
    → Disjoint m n
    → ¬ (In k (keys m))
    → Disjoint m (insert k w n)
right_insert k w m n d h j i l = elim (In_keys-insert k j w n l) [
  | inl e ↦ h (subst (λ x. In x (keys m)) (sym e) i)
  | inr o ↦ d j i o
]

not_defined :
    (k : Ident) (s : Parsed) (e : Error)
    → ensure (not (is_defined k s)) e ≡ ok tt
    → (¬ (In k (keys s.exceptions))) × (¬ (In k (keys s.interrupts))) × (¬ (In k (keys s.tasks)))
not_defined k s e h =
    let off : is_defined k s ≡ false = ground (arith, ensure-eq-ok (not (is_defined k s)) e h) in
    (
      fresh k s.exceptions (ground arith),
      fresh k s.interrupts (ground arith),
      fresh k s.tasks (ground arith),
    )

module _ (P : ParseStream) (timer_queue : Bool) where
  -- What a kind of item has to do with the handlers: it keeps them apart.
  abbrev Preserves : (Parsed → Result Parsed) → Type 0
  Preserves f = (s u : Parsed) → f s ≡ ok u → ApartIn s → ApartIn u

  exception_apart :
      (item : ItemFn) (x : String × List Attribute)
      → Preserves (parse_exception P timer_queue item x)
  unfolding parse_exception
  exception_apart item x s u h w =
      let (g, h₁) = >>-eq-ok (ensure (not (is_defined item.ident s)) _) _ h in
      let (args, _, h₂) = >>=-eq-ok (P.parse2 (parse_exception_args P timer_queue) x.0) _ h₁ in
      let (v, _, h₃) = >>=-eq-ok (check_exception args (without item x.1)) _ h₂ in
      let (_, i, t) = not_defined item.ident s _ g in
      rw (← ok-injective h₃) (record {
        exceptions_once = Distinct-insert item.ident v s.exceptions w.exceptions_once;
        interrupts_once = w.interrupts_once;
        tasks_once = w.tasks_once;
        exceptions_interrupts =
            left_insert item.ident v s.exceptions s.interrupts w.exceptions_interrupts i;
        exceptions_tasks = left_insert item.ident v s.exceptions s.tasks w.exceptions_tasks t;
        interrupts_tasks = w.interrupts_tasks;
      })

  interrupt_apart :
      (item : ItemFn) (x : String × List Attribute)
      → Preserves (parse_interrupt P timer_queue item x)
  unfolding parse_interrupt
  interrupt_apart item x s u h w =
      let (g, h₁) = >>-eq-ok (ensure (not (is_defined item.ident s)) _) _ h in
      let (args, _, h₂) = >>=-eq-ok (P.parse2 (parse_exception_args P timer_queue) x.0) _ h₁ in
      let (v, _, h₃) = >>=-eq-ok (check_interrupt args (without item x.1)) _ h₂ in
      let (e, _, t) = not_defined item.ident s _ g in
      rw (← ok-injective h₃) (record {
        exceptions_once = w.exceptions_once;
        interrupts_once = Distinct-insert item.ident v s.interrupts w.interrupts_once;
        tasks_once = w.tasks_once;
        exceptions_interrupts =
            right_insert item.ident v s.exceptions s.interrupts w.exceptions_interrupts e;
        exceptions_tasks = w.exceptions_tasks;
        interrupts_tasks = left_insert item.ident v s.interrupts s.tasks w.interrupts_tasks t;
      })

  task_apart :
      (item : ItemFn) (x : String × List Attribute) → Preserves (parse_task P timer_queue item x)
  unfolding parse_task
  task_apart item x s u h w =
      let (g, h₁) = >>-eq-ok (ensure (not (is_defined item.ident s)) _) _ h in
      let (args, _, h₂) = >>=-eq-ok (P.parse2 (parse_task_args P timer_queue) x.0) _ h₁ in
      let (v, _, h₃) = >>=-eq-ok (check_task args (without item x.1)) _ h₂ in
      let (e, i, _) = not_defined item.ident s _ g in
      rw (← ok-injective h₃) (record {
        exceptions_once = w.exceptions_once;
        interrupts_once = w.interrupts_once;
        tasks_once = Distinct-insert item.ident v s.tasks w.tasks_once;
        exceptions_interrupts = w.exceptions_interrupts;
        exceptions_tasks = right_insert item.ident v s.exceptions s.tasks w.exceptions_tasks e;
        interrupts_tasks = right_insert item.ident v s.interrupts s.tasks w.interrupts_tasks i;
      })

  idle_apart :
      (item : ItemFn) (x : String × List Attribute) → Preserves (parse_idle P timer_queue item x)
  unfolding parse_idle
  idle_apart item x s u h w =
      let (g, h₁) = >>-eq-ok (ensure (is_none s.idle) _) _ h in
      let (args, _, h₂) = >>=-eq-ok (P.parse2 (parse_init_args P timer_queue) x.0) _ h₁ in
      let (v, _, h₃) = >>=-eq-ok (check_idle args (without item x.1)) _ h₂ in
      rw (← ok-injective h₃) (record w {})

  init_apart :
      (item : ItemFn) (x : String × List Attribute) → Preserves (parse_init P timer_queue item x)
  unfolding parse_init
  init_apart item x s u h w =
      let (g, h₁) = >>-eq-ok (ensure (is_none s.init) _) _ h in
      let (args, _, h₂) = >>=-eq-ok (P.parse2 (parse_init_args P timer_queue) x.0) _ h₁ in
      let (v, _, h₃) = >>=-eq-ok (check_init args (without item x.1)) _ h₂ in
      rw (← ok-injective h₃) (record w {})

  fn_apart : (item : ItemFn) → Preserves (parse_fn P timer_queue item)
  unfolding parse_fn
  fn_apart item s u h w = elim (Option-cases (take_attr "idle" item.attrs)) [
    | inr (x, p) ↦ idle_apart item x s u (rw (p, parse_fn) at h) w
    | inl p ↦ elim (Option-cases (take_attr "init" item.attrs)) [
      | inr (x, q) ↦ init_apart item x s u (rw (p, q, parse_fn) at h) w
      | inl q ↦ elim (Option-cases (take_attr "exception" item.attrs)) [
        | inr (x, r) ↦ exception_apart item x s u (rw (p, q, r, parse_fn) at h) w
        | inl r ↦ elim (Option-cases (take_attr "interrupt" item.attrs)) [
          | inr (x, t) ↦ interrupt_apart item x s u (rw (p, q, r, t, parse_fn) at h) w
          | inl t ↦ elim (Option-cases (take_attr "task" item.attrs)) [
            | inr (x, v) ↦ task_apart item x s u (rw (p, q, r, t, v, parse_fn) at h) w
            | inl v ↦ absurd (ground (arith, p, q, r, t, v))
          ]
        ]
      ]
    ]
  ]

  item_apart : (item : Item) → Preserves (parse_item P timer_queue item)
  unfolding parse_item
  item_apart (item_fn item) s u h w = fn_apart item s u h w
  item_apart (static_item item) s u h w =
      let (g, h₁) = >>-eq-ok (ensure _ _) _ h in
      let (v, _, h₂) = >>=-eq-ok (check_resource item) _ h₁ in
      subst ApartIn (ok-injective h₂) (record w {})
  item_apart (foreign_mod items) s u h w =
      let (g, h₁) = >>-eq-ok (ensure _ _) _ h in
      let (v, _, h₂) = >>=-eq-ok (parse_free_interrupts items []) _ h₁ in
      subst ApartIn (ok-injective h₂) (record w {})
  item_apart (other_item text) s u h w = cc

  items_apart : (items : List Item) → Preserves (parse_items P timer_queue items)
  unfolding parse_items
  items_apart [] s u h w = subst ApartIn (ok-injective h) w
  items_apart (item ∷ items) s u h w =
      let (t, p, q) = >>=-eq-ok (parse_item P timer_queue item s) _ h in
      items_apart items t u q (item_apart item s t p w)

  -- In an application that the parser returns, no name belongs to two exceptions, interrupts or
  -- tasks.
  pub parse-HandlersApart :
      (items : List Item) (args : AppArgs) (app : App)
      → parse P timer_queue items args ≡ ok app
      → HandlersApart app.exceptions app.interrupts app.tasks
  unfolding parse
  parse-HandlersApart items args app h =
      let (s, p, q) = >>=-eq-ok (parse_items P timer_queue items nothing_parsed) _ h in
      let (init, _, r) = >>=-eq-ok (expect s.init) _ q in
      rw (← ok-injective r) (
        items_apart items nothing_parsed s p (record {
          exceptions_once = tt;
          interrupts_once = tt;
          tasks_once = tt;
          exceptions_interrupts = λ k i. absurd i;
          exceptions_tasks = λ k i. absurd i;
          interrupts_tasks = λ k i. absurd i;
        }))
