-- ===== src/Macro/Parse/Arguments.antt =====
-- What the arguments of an attribute are once the parser has accepted them, and that its loops
-- never run out of fuel.
use rtfm.Common.{
  ℕ, zero, suc, ◌≤◌, ◌≡◌, sym, subst, ap, ◌⊎◌, inl, inr, Bool, true, false, not, ◌||◌, ◌&&◌, [],
  ◌∷◌, ◌++◌, Option, none, some, string_eq, In, Distinct, contains, In→contains, Bool-cases, arith,
  ltb, eqb, ◌==◌, In-snoc,
}
use rtfm.Macro.Result.{Result, ok, ◌>>=◌, ensure, >>-eq-ok, >>=-eq-ok, ok-injective, ensure-eq-ok}
use rtfm.Macro.Syntax.{TaskArgs, Ident, Idents}
use rtfm.Macro.Check.{is_none}
use rtfm.Macro.Parse.Tokens.{ParseStream}
use rtfm.Macro.Parse.Args.{
  collect_idents, Given, nothing_given, give_list, is_list_key, task_args_of, parse_number,
  parse_list, task_value, task_arg, parse_loop, parse_args, unwrap_or,
}

Distinct-snoc : (xs : Idents) (x : Ident) → Distinct xs → ¬ (In x xs) → Distinct (xs ++ x ∷ [])
Distinct-snoc [] x d n = ((λ i. i), tt)
Distinct-snoc (y ∷ xs) x d n = (
  λ i. elim (In-snoc y x xs i) [ inl j ↦ d.0 j | inr e ↦ n (inl (sym e)) ],
  Distinct-snoc xs x d.1 (λ i. n (inr i)),
)

collect_Distinct :
    (names idents r : Idents) → collect_idents names idents ≡ ok r → Distinct idents → Distinct r
unfolding collect_idents
collect_Distinct [] idents r h d = subst Distinct (ok-injective h) d
collect_Distinct (x ∷ names) idents r h d =
    let (g, h₁) = >>-eq-ok (ensure (not (contains idents x)) _) _ h in
    let off = ensure-eq-ok (not (contains idents x)) _ g in
    collect_Distinct names (idents ++ x ∷ []) r h₁
      (Distinct-snoc idents x d (λ i. ground (arith, In→contains idents x i)))

abbrev DistinctIn : Option Idents → Type 0
DistinctIn none = Unit
DistinctIn (some xs) = Distinct xs

abbrev pub CapacityIn : Bool → Option ℕ → Type 0
CapacityIn accept none = Unit
CapacityIn accept (some c) = (1 ≤ c) × (c ≤ 255) × (accept ≡ true)

abbrev PriorityIn : Option ℕ → Type 0
PriorityIn none = Unit
PriorityIn (some p) = p ≤ 255

record InRange (accept : Bool) (given : Given) : Type 0 where
  capacity_in : CapacityIn accept given.capacity
  priority_in : PriorityIn given.priority
  resources_in : DistinctIn given.resources
  schedule_in : DistinctIn given.schedule
  spawn_in : DistinctIn given.spawn

give_list-InRange :
    (accept : Bool) (ident : Ident) (idents : Idents) (given given' : Given)
    → give_list ident idents given ≡ ok given'
    → Distinct idents
    → InRange accept given
    → InRange accept given'
unfolding give_list
give_list-InRange accept ident idents given given' h d w =
    elim (Bool-cases (ident == "resources")) [
      | inl p ↦
          let (_, e) = >>-eq-ok (ensure (is_none given.resources) _) _ (rw (p, give_list) at h) in
          rw (← ok-injective e) (record {
            capacity_in = w.capacity_in;
            priority_in = w.priority_in;
            resources_in = d;
            schedule_in = w.schedule_in;
            spawn_in = w.spawn_in;
          })
      | inr p ↦ elim (Bool-cases (ident == "schedule")) [
        | inl q ↦
            let (_, e) =
              >>-eq-ok (ensure (is_none given.schedule) _) _ (rw (p, q, give_list) at h) in
            rw (← ok-injective e) (record {
              capacity_in = w.capacity_in;
              priority_in = w.priority_in;
              resources_in = w.resources_in;
              schedule_in = d;
              spawn_in = w.spawn_in;
            })
        | inr q ↦
            let (_, e) = >>-eq-ok (ensure (is_none given.spawn) _) _ (rw (p, q, give_list) at h) in
            rw (← ok-injective e) (record {
              capacity_in = w.capacity_in;
              priority_in = w.priority_in;
              resources_in = w.resources_in;
              schedule_in = w.schedule_in;
              spawn_in = d;
            })
      ]
    ]

-- The arguments of a task, an exception or an interrupt that the parser accepts: the priority is
-- at most 255; the capacity, which only tasks may have, is from 1 to 255; and no list names
-- anything twice.
pub record ArgsInRange (accept : Bool) (a : TaskArgs) : Type 0 where
  pub capacity_range : CapacityIn accept a.capacity
  pub priority_range : a.priority ≤ 255
  pub resources_once : Distinct a.resources
  pub schedule_once : Distinct a.schedule
  pub spawn_once : Distinct a.spawn

empty_InRange : (accept : Bool) → InRange accept nothing_given
empty_InRange accept = record {
  capacity_in = tt;
  priority_in = tt;
  resources_in = tt;
  schedule_in = tt;
  spawn_in = tt;
}

once : (o : Option Idents) → DistinctIn o → Distinct (unwrap_or [] o)
once none d = tt
once (some xs) d = d

priority_of : (o : Option ℕ) → PriorityIn o → unwrap_or 1 o ≤ 255
priority_of none d = omega arith
priority_of (some p) d = d

of_given :
    (accept : Bool) (given : Given) → InRange accept given → ArgsInRange accept (task_args_of given)
of_given accept given w = record {
  capacity_range = w.capacity_in;
  priority_range = priority_of given.priority w.priority_in;
  resources_once = once given.resources w.resources_in;
  schedule_once = once given.schedule w.schedule_in;
  spawn_once = once given.spawn w.spawn_in;
}

module _ (P : ParseStream) (timer_queue : Bool) where
  number_range :
      (zero_allowed : Bool) (s s' : P.Stream) (v : ℕ)
      → parse_number P timer_queue zero_allowed s ≡ ok (v, s')
      → (v ≤ 255) × ((zero_allowed ≡ true) ⊎ (1 ≤ v))
  unfolding parse_number
  number_range zero_allowed s s' v h =
      let (x, _, h₁) = >>=-eq-ok (P.parse_lit_int s) _ h in
      let (_, h₂) = >>-eq-ok (ensure x.0.1 _) _ h₁ in
      let (g, h₃) =
        >>-eq-ok (ensure (not (ltb 255 x.0.0 || (eqb x.0.0 0 && not zero_allowed))) _) _ h₂ in
      let e = ap (λ y. y.0) (ok-injective h₃) in
      ground (arith, ensure-eq-ok (not (ltb 255 x.0.0 || (eqb x.0.0 0 && not zero_allowed))) _ g, e)

  list_Distinct :
      (s s' : P.Stream) (idents : Idents)
      → parse_list P timer_queue s ≡ ok (idents, s')
      → Distinct idents
  unfolding parse_list
  list_Distinct s s' idents h =
      let (x, _, h₁) = >>=-eq-ok (P.bracketed s) _ h in
      let (names, _, h₂) = >>=-eq-ok (P.parse_terminated x.0) _ h₁ in
      let (r, h₃, e) = >>=-eq-ok (collect_idents names []) _ h₂ in
      subst Distinct (ap (λ y. y.0) (ok-injective e)) (collect_Distinct names [] r h₃ tt)

  list_arg-InRange :
      (accept : Bool) (ident : Ident) (given : Given) (s : P.Stream) (x : Given × P.Stream)
      → (parse_list P timer_queue s >>= λ y.
          give_list ident y.0 given >>= λ given'. ok (given', y.1))
        ≡ ok x
      → InRange accept given
      → InRange accept x.0
  list_arg-InRange accept ident given s x h w =
      let (y, p, h₁) = >>=-eq-ok (parse_list P timer_queue s) _ h in
      let (g, q, e) = >>=-eq-ok (give_list ident y.0 given) _ h₁ in
      subst (λ z. InRange accept z.0) (ok-injective e)
        (give_list-InRange accept ident y.0 given g q (list_Distinct s y.1 y.0 p) w)

  task_value-InRange :
      (accept : Bool) (given : Given) (ident : Ident) (s : P.Stream) (x : Given × P.Stream)
      → task_value P timer_queue accept given ident s ≡ ok x
      → InRange accept given
      → InRange accept x.0
  unfolding task_value
  task_value-InRange accept given ident s x h w =
      elim (Bool-cases ((ident == "capacity") && accept)) [
        | inl a ↦
            let (y, p, e) =
              >>=-eq-ok (parse_number P timer_queue false s) _ (rw (a, task_value) at h) in
            let r = number_range false s y.1 y.0 p in
            subst (λ z. InRange accept z.0) (ok-injective e)
              (record {
                capacity_in = (ground (arith, r), r.0, ground arith);
                priority_in = w.priority_in;
                resources_in = w.resources_in;
                schedule_in = w.schedule_in;
                spawn_in = w.spawn_in;
              })
        | inr a ↦ elim (Bool-cases (ident == "priority")) [
          | inl b ↦
              let (y, p, e) =
                >>=-eq-ok (parse_number P timer_queue true s) _ (rw (a, b, task_value) at h) in
              subst (λ z. InRange accept z.0) (ok-injective e)
                (record {
                  capacity_in = w.capacity_in;
                  priority_in = (number_range true s y.1 y.0 p).0;
                  resources_in = w.resources_in;
                  schedule_in = w.schedule_in;
                  spawn_in = w.spawn_in;
                })
          | inr b ↦ elim (Bool-cases ((ident == "schedule") && not timer_queue)) [
            | inl c ↦ absurd (cc (rw (a, b, c, task_value) at h))
            | inr c ↦ elim (Bool-cases (is_list_key ident)) [
              | inl d ↦ list_arg-InRange accept ident given s x (rw (a, b, c, d, task_value) at h) w
              | inr d ↦ absurd (cc (rw (a, b, c, d, task_value) at h))
            ]
          ]
        ]
      ]

  task_arg-InRange :
      (accept : Bool) (given : Given) (s : P.Stream) (x : Given × P.Stream)
      → task_arg P timer_queue accept given s ≡ ok x
      → InRange accept given
      → InRange accept x.0
  unfolding task_arg
  task_arg-InRange accept given s x h w =
      let (a, _, h₁) = >>=-eq-ok (P.parse_ident s) _ h in
      let (b, _, h₂) = >>=-eq-ok (P.parse_eq a.1) _ h₁ in
      task_value-InRange accept given a.0 b.1 x h₂ w

  module _ {G : Type 0} (arg : G → P.Stream → Result (G × P.Stream)) where
    -- What every argument keeps, the loop keeps.
    loop_keeps :
        (Inv : G → Type 0)
        → ((g : G) (s : P.Stream) (x : G × P.Stream) → arg g s ≡ ok x → Inv g → Inv x.0)
        → (fuel : ℕ) (g g' : G) (s : P.Stream) → parse_loop P timer_queue arg fuel g s ≡ ok g'
        → Inv g
        → Inv g'
    unfolding parse_loop
    loop_keeps Inv keeps zero g g' s h w = cc
    loop_keeps Inv keeps (suc fuel) g g' s h w = elim (Bool-cases (P.is_empty s)) [
      | inl p ↦ subst Inv (ok-injective (rw (p, parse_loop) at h)) w
      | inr p ↦
          let (x, q, h₁) = >>=-eq-ok (arg g s) _ (rw (p, parse_loop) at h) in
          elim (Bool-cases (P.is_empty x.1)) [
            | inl e ↦ subst Inv (ok-injective (rw e at h₁)) (keeps g s x q w)
            | inr e ↦
                let (y, _, h₂) = >>=-eq-ok (P.parse_comma x.1) _ (rw e at h₁) in
                loop_keeps Inv keeps fuel x.0 g' y.1 h₂ (keeps g s x q w)
          ]
    ]

  -- The arguments that `parse_args` accepts are in range.
  pub parse_args-ArgsInRange :
      (accept : Bool) (input rest : P.Stream) (a : TaskArgs)
      → parse_args P timer_queue accept input ≡ ok (a, rest)
      → ArgsInRange accept a
  unfolding parse_args
  parse_args-ArgsInRange accept input rest a h = elim (Bool-cases (P.is_empty input)) [
    | inl e ↦
        subst (ArgsInRange accept) (ap (λ z. z.0) (ok-injective (rw (e, parse_args) at h)))
          (of_given accept nothing_given (empty_InRange accept))
    | inr e ↦
        let (x, _, h₁) = >>=-eq-ok (P.parenthesized input) _ (rw (e, parse_args) at h) in
        let (g, q, h₂) =
          >>=-eq-ok
            (parse_loop P timer_queue (task_arg P timer_queue accept) (suc (P.size x.0))
              nothing_given x.0)
            _ h₁ in
        subst (ArgsInRange accept) (ap (λ z. z.0) (ok-injective h₂)) (
          of_given accept g (
            loop_keeps (task_arg P timer_queue accept) (InRange accept) (task_arg-InRange accept)
              (suc (P.size x.0)) nothing_given g x.0 q (empty_InRange accept)))
  ]
