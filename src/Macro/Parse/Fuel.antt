-- ===== src/Macro/Parse/Fuel.antt =====
-- The loops of the argument parsers never run out of fuel.
use rtfm.Common.{
  ℕ, zero, suc, ◌<◌, ◌≡◌, ◌≢◌, subst, inl, inr, Bool, true, false, not, ◌||◌, ◌&&◌, [], ◌∷◌, ◌++◌,
  string_eq, contains, Bool-cases, arith, ltb, eqb, ◌==◌,
}
use rtfm.Macro.Result.{
  Result, ok, panic, ensure, >>-eq-ok, >>=-eq-ok, ok-injective, ensure-ne-panic, >>-ne-panic,
  >>=-ne-panic,
}
use rtfm.Macro.Syntax.{Ident, Idents}
use rtfm.Macro.Check.{is_none}
use rtfm.Macro.Parse.Tokens.{ParseStream}
use rtfm.Macro.Parse.Args.{
  collect_idents, Given, nothing_given, give_list, is_list_key, parse_number, parse_list,
  task_value, task_arg, parse_loop, parse_args,
}

collect-ne-panic : (names idents : Idents) → collect_idents names idents ≢ panic
unfolding collect_idents
collect-ne-panic [] idents h = cc
collect-ne-panic (x ∷ names) idents h =
    >>-ne-panic (ensure (not (contains idents x)) _) _ (ensure-ne-panic _ _)
      (λ _. collect-ne-panic names (idents ++ x ∷ [])) h

give_list-ne-panic :
    (ident : Ident) (idents : Idents) (given : Given) → give_list ident idents given ≢ panic
unfolding give_list
give_list-ne-panic ident idents given h = elim (Bool-cases (ident == "resources")) [
  | inl p ↦
      >>-ne-panic (ensure (is_none given.resources) _) _ (ensure-ne-panic _ _) (λ _ e. cc)
        (rw (p, give_list) at h)
  | inr p ↦ elim (Bool-cases (ident == "schedule")) [
    | inl q ↦
        >>-ne-panic (ensure (is_none given.schedule) _) _ (ensure-ne-panic _ _) (λ _ e. cc)
          (rw (p, q, give_list) at h)
    | inr q ↦
        >>-ne-panic (ensure (is_none given.spawn) _) _ (ensure-ne-panic _ _) (λ _ e. cc)
          (rw (p, q, give_list) at h)
  ]
]

module _ (P : ParseStream) (timer_queue : Bool) where
  number_shrinks :
      (zero_allowed : Bool) (s : P.Stream) (x : ℕ × P.Stream)
      → parse_number P timer_queue zero_allowed s ≡ ok x
      → P.size x.1 < P.size s
  unfolding parse_number
  number_shrinks zero_allowed s x h =
      let (y, p, h₁) = >>=-eq-ok (P.parse_lit_int s) _ h in
      let (_, h₂) = >>-eq-ok (ensure y.0.1 _) _ h₁ in
      let (g, h₃) =
        >>-eq-ok (ensure (not (ltb 255 y.0.0 || (eqb y.0.0 0 && not zero_allowed))) _) _ h₂ in
      subst (λ z. P.size z.1 < P.size s) (ok-injective h₃) (P.size-lit_int s y.1 y.0 p)

  number-ne-panic :
      (zero_allowed : Bool) (s : P.Stream) → parse_number P timer_queue zero_allowed s ≢ panic
  unfolding parse_number
  number-ne-panic zero_allowed s = >>=-ne-panic (P.parse_lit_int s) _ (P.lit_int-ne-panic s) λ y _.
      >>-ne-panic (ensure y.0.1 _) _ (ensure-ne-panic _ _) λ _.
        >>-ne-panic (ensure (not (ltb 255 y.0.0 || (eqb y.0.0 0 && not zero_allowed))) _) _
          (ensure-ne-panic _ _) λ _ e. cc

  list_shrinks :
      (s : P.Stream) (x : Idents × P.Stream)
      → parse_list P timer_queue s ≡ ok x
      → P.size x.1 < P.size s
  unfolding parse_list
  list_shrinks s x h =
      let (y, p, h₁) = >>=-eq-ok (P.bracketed s) _ h in
      let (names, _, h₂) = >>=-eq-ok (P.parse_terminated y.0) _ h₁ in
      let (r, _, e) = >>=-eq-ok (collect_idents names []) _ h₂ in
      subst (λ z. P.size z.1 < P.size s) (ok-injective e) (P.size-bracketed s y.1 y.0 p)

  list-ne-panic : (s : P.Stream) → parse_list P timer_queue s ≢ panic
  unfolding parse_list
  list-ne-panic s = >>=-ne-panic (P.bracketed s) _ (P.bracketed-ne-panic s) λ y _.
      >>=-ne-panic (P.parse_terminated y.0) _ (P.terminated-ne-panic y.0)
        λ names _. >>=-ne-panic (collect_idents names []) _ (collect-ne-panic names []) λ r _ e. cc

  value_shrinks :
      (accept : Bool) (given : Given) (ident : Ident) (s : P.Stream) (x : Given × P.Stream)
      → task_value P timer_queue accept given ident s ≡ ok x
      → P.size x.1 < P.size s
  unfolding task_value
  value_shrinks accept given ident s x h = elim (Bool-cases ((ident == "capacity") && accept)) [
    | inl a ↦
        let (y, p, e) =
          >>=-eq-ok (parse_number P timer_queue false s) _ (rw (a, task_value) at h) in
        subst (λ z. P.size z.1 < P.size s) (ok-injective e) (number_shrinks false s y p)
    | inr a ↦ elim (Bool-cases (ident == "priority")) [
      | inl b ↦
          let (y, p, e) =
            >>=-eq-ok (parse_number P timer_queue true s) _ (rw (a, b, task_value) at h) in
          subst (λ z. P.size z.1 < P.size s) (ok-injective e) (number_shrinks true s y p)
      | inr b ↦ elim (Bool-cases ((ident == "schedule") && not timer_queue)) [
        | inl c ↦ absurd (cc (rw (a, b, c, task_value) at h))
        | inr c ↦ elim (Bool-cases (is_list_key ident)) [
          | inl d ↦
              let (y, p, h₁) =
                >>=-eq-ok (parse_list P timer_queue s) _ (rw (a, b, c, d, task_value) at h) in
              let (g, _, e) = >>=-eq-ok (give_list ident y.0 given) _ h₁ in
              subst (λ z. P.size z.1 < P.size s) (ok-injective e) (list_shrinks s y p)
          | inr d ↦ absurd (cc (rw (a, b, c, d, task_value) at h))
        ]
      ]
    ]
  ]

  value-ne-panic :
      (accept : Bool) (given : Given) (ident : Ident) (s : P.Stream)
      → task_value P timer_queue accept given ident s ≢ panic
  unfolding task_value
  value-ne-panic accept given ident s h = elim (Bool-cases ((ident == "capacity") && accept)) [
    | inl a ↦
        >>=-ne-panic (parse_number P timer_queue false s) _ (number-ne-panic false s) (λ y _ e. cc)
          (rw (a, task_value) at h)
    | inr a ↦ elim (Bool-cases (ident == "priority")) [
      | inl b ↦
          >>=-ne-panic (parse_number P timer_queue true s) _ (number-ne-panic true s) (λ y _ e. cc)
            (rw (a, b, task_value) at h)
      | inr b ↦ elim (Bool-cases ((ident == "schedule") && not timer_queue)) [
        | inl c ↦ absurd (cc (rw (a, b, c, task_value) at h))
        | inr c ↦ elim (Bool-cases (is_list_key ident)) [
          | inl d ↦
              >>=-ne-panic (parse_list P timer_queue s) _ (list-ne-panic s)
                (λ y _.
                  >>=-ne-panic (give_list ident y.0 given) _ (give_list-ne-panic ident y.0 given)
                    (λ g _ e. cc))
                (rw (a, b, c, d, task_value) at h)
          | inr d ↦ absurd (cc (rw (a, b, c, d, task_value) at h))
        ]
      ]
    ]
  ]

  task_arg_shrinks :
      (accept : Bool) (given : Given) (s : P.Stream) (x : Given × P.Stream)
      → task_arg P timer_queue accept given s ≡ ok x
      → P.size x.1 < P.size s
  unfolding task_arg
  task_arg_shrinks accept given s x h =
      let (a, p, h₁) = >>=-eq-ok (P.parse_ident s) _ h in
      let (b, q, h₂) = >>=-eq-ok (P.parse_eq a.1) _ h₁ in
      omega (
        arith,
        P.size-ident s a.1 a.0 p,
        P.size-eq a.1 b.1 b.0 q,
        value_shrinks accept given a.0 b.1 x h₂,
      )

  task_arg-ne-panic :
      (accept : Bool) (given : Given) (s : P.Stream) → task_arg P timer_queue accept given s ≢ panic
  unfolding task_arg
  task_arg-ne-panic accept given s = >>=-ne-panic (P.parse_ident s) _ (P.ident-ne-panic s) λ a _.
      >>=-ne-panic (P.parse_eq a.1) _ (P.eq-ne-panic a.1) λ b _. value-ne-panic accept given a.0 b.1

  module _ {G : Type 0} (arg : G → P.Stream → Result (G × P.Stream))
      (shrinks : (g : G) (s : P.Stream) (x : G × P.Stream) → arg g s ≡ ok x → P.size x.1 < P.size s)
      (never_panics : (g : G) (s : P.Stream) → arg g s ≢ panic) where
    -- Each round consumes tokens, so that the fuel suffices.
    loop_fuel :
        (fuel : ℕ) (g : G) (s : P.Stream)
        → P.size s < fuel
        → parse_loop P timer_queue arg fuel g s ≢ panic
    unfolding parse_loop
    loop_fuel zero g s l h = omega arith
    loop_fuel (suc fuel) g s l h = elim (Bool-cases (P.is_empty s)) [
      | inl p ↦ absurd (cc (rw (p, parse_loop) at h))
      | inr p ↦
          >>=-ne-panic (arg g s) _ (never_panics g s)
            (λ x q. elim (Bool-cases (P.is_empty x.1)) [
              | inl e ↦ rw e (λ b. cc)
              | inr e ↦ rw e (
                  >>=-ne-panic (P.parse_comma x.1) _ (P.comma-ne-panic x.1) (λ y r.
                    loop_fuel fuel x.0 y.1
                      (omega (arith, shrinks g s x q, P.size-comma x.1 y.1 y.0 r))))
            ])
            (rw (p, parse_loop) at h)
    ]

  -- The parser of the arguments of a task, an exception or an interrupt returns, with a result or
  -- an error: the fuel that its loop gets suffices.
  pub parse_args-ne-panic :
      (accept : Bool) (input : P.Stream) → parse_args P timer_queue accept input ≢ panic
  unfolding parse_args
  parse_args-ne-panic accept input h = elim (Bool-cases (P.is_empty input)) [
    | inl e ↦ absurd (cc (rw (e, parse_args) at h))
    | inr e ↦
        >>=-ne-panic (P.parenthesized input) _ (P.parenthesized-ne-panic input)
          (λ x _.
            >>=-ne-panic
              (parse_loop P timer_queue (task_arg P timer_queue accept) (suc (P.size x.0))
                nothing_given x.0)
              _
              (loop_fuel (task_arg P timer_queue accept) (task_arg_shrinks accept)
                (task_arg-ne-panic accept) (suc (P.size x.0)) nothing_given x.0 (omega arith))
              (λ g _ b. cc))
          (rw (e, parse_args) at h)
  ]
