-- ===== src/Macro/Codegen/Statics.antt =====
-- The statics of late resources, from their declaration to the end of `init`.
use rtfm.Common.{
  ◌≡◌, refl, sym, ap, subst, inl, inr, Bool-cases, List, [], ◌∷◌, some, In, lookup, modify,
  lookup-modify, HashMap, string_eq, arith, beq_self, ◌==◌,
}
use rtfm.Macro.Syn.{Expr}
use rtfm.Macro.Syntax.{Ident}
use rtfm.Macro.Codegen.Resources.{Generated, Storage, late_static}
use rtfm.Macro.Codegen.Start.{Assignment, set, plain}
use rtfm.Runtime.Uninit
use rtfm.Runtime.Uninit.{MaybeUninit}

abbrev assigned : Assignment → Ident
assigned (set name expr) = name
assigned (plain left right) = left

-- The statics of late resources, by name.
abbrev pub Statics : Type 0 → Type 0
Statics V = HashMap Ident (MaybeUninit V)

module _ {V : Type 0} where
  abbrev pub add_static : Ident → Storage → Statics V → Statics V
  add_static name late_static rest = (name, Uninit.uninitialized) ∷ rest
  add_static name storage rest = rest

  -- The statics of the generated items before `init` runs.
  abbrev pub late_statics : List Generated → Statics V
  late_statics [] = []
  late_statics (g ∷ gs) = add_static g.name g.storage (late_statics gs)

  -- The assignments at the end of `init`, for the values that their right sides have.
  unfoldable pub run_assignments : (Expr → V) → List Assignment → Statics V → Statics V
  run_assignments eval [] s = s
  run_assignments eval (set name expr ∷ rest) s =
      run_assignments eval rest (modify name (Uninit.set (eval expr)) s)
  run_assignments eval (plain left right ∷ rest) s = run_assignments eval rest s

  -- Reading the static is defined.
  abbrev pub IsInitialized : Ident → Statics V → Type 0
  IsInitialized r s =
      (m : MaybeUninit V) × (v : V) × (lookup r s ≡ some m) × (Uninit.get_ref m ≡ some v)

  set-IsInitialized :
      (r name : Ident) (v : V) (s : Statics V)
      → IsInitialized r s
      → IsInitialized r (modify name (Uninit.set v) s)
  unfolding Uninit.get_ref Uninit.set
  set-IsInitialized r name v s (m, w, l, e) = elim (Bool-cases (name == r)) [
    | inl p ↦ (
      record { value = some v },
      v,
      ground (arith, l, lookup-modify name r (Uninit.set v) s),
      refl,
    )
    | inr p ↦ (m, w, ground (arith, l, lookup-modify name r (Uninit.set v) s), e)
  ]

  run-IsInitialized :
      (eval : Expr → V) (xs : List Assignment) (r : Ident) (s : Statics V)
      → IsInitialized r s
      → IsInitialized r (run_assignments eval xs s)
  unfolding run_assignments
  run-IsInitialized eval [] r s i = i
  run-IsInitialized eval (set name expr ∷ xs) r s i =
      run-IsInitialized eval xs r (modify name (Uninit.set (eval expr)) s)
        (set-IsInitialized r name (eval expr) s i)
  run-IsInitialized eval (plain left right ∷ xs) r s i = run-IsInitialized eval xs r s i

  set_now :
      (name : Ident) (v : V) (s : Statics V) (m : MaybeUninit V)
      → lookup name s ≡ some m
      → IsInitialized name (modify name (Uninit.set v) s)
  unfolding Uninit.get_ref Uninit.set
  set_now name v s m l = (
    record { value = some v },
    v,
    ground (arith, l, lookup-modify name name (Uninit.set v) s, beq_self name),
    refl,
  )

  modify_present :
      (r name : Ident) (v : V) (s : Statics V) (m : MaybeUninit V)
      → lookup r s ≡ some m
      → (m' : MaybeUninit V) × (lookup r (modify name (Uninit.set v) s) ≡ some m')
  modify_present r name v s m l = elim (Bool-cases (name == r)) [
    | inl p ↦ (Uninit.set v m, ground (arith, l, lookup-modify name r (Uninit.set v) s))
    | inr p ↦ (m, ground (arith, l, lookup-modify name r (Uninit.set v) s))
  ]

  -- A static that is there and is set is initialized in the end.
  pub run-set :
      (eval : Expr → V) (xs : List Assignment) (r : Ident) (expr : Expr) (s : Statics V)
      (m : MaybeUninit V)
      → In (set r expr) xs
      → lookup r s ≡ some m
      → IsInitialized r (run_assignments eval xs s)
  unfolding run_assignments
  run-set eval [] r expr s m i l = absurd i
  run-set eval (set name e ∷ xs) r expr s m (inl p) l =
      let same : name ≡ r = ap assigned p in
      subst (λ n. IsInitialized r (run_assignments eval xs (modify n (Uninit.set (eval e)) s)))
        (sym same)
        (run-IsInitialized eval xs r (modify r (Uninit.set (eval e)) s) (set_now r (eval e) s m l))
  run-set eval (set name e ∷ xs) r expr s m (inr i) l =
      let (m', l') = modify_present r name (eval e) s m l in
      run-set eval xs r expr (modify name (Uninit.set (eval e)) s) m' i l'
  run-set eval (plain left right ∷ xs) r expr s m (inl e) l = absurd (cc)
  run-set eval (plain left right ∷ xs) r expr s m (inr i) l = run-set eval xs r expr s m i l

  pub add_present :
      (name : Ident) (storage : Storage) (rest : Statics V) (r : Ident) (m : MaybeUninit V)
      → lookup r rest ≡ some m
      → (m' : MaybeUninit V) × (lookup r (add_static name storage rest) ≡ some m')
  add_present name late_static rest r m l = elim (Bool-cases (name == r)) [
    | inl p ↦ (Uninit.uninitialized, rw p refl)
    | inr p ↦ (m, rw p l)
  ]
  add_present name Storage.singleton_static rest r m l = (m, l)
  add_present name Storage.plain_static rest r m l = (m, l)
