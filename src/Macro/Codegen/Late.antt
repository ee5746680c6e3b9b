-- ===== src/Macro/Codegen/Late.antt =====
-- The late resources: uninitialized statics that the end of `init` sets before any handler runs.
use rtfm.Common.{
  ℕ, ◌≡◌, refl, sym, ap, subst, ◌∙◌, ◌⊎◌, inl, inr, Bool, true, false, List, [], ◌∷◌, some, In,
  lookup, lookup→In, string_eq, ok, expect, expect→, >>=-eq-ok, ok-injective, arith, beq_self,
  if◌then◌else◌,
}
use rtfm.Macro.Syn.{Expr}
use rtfm.Macro.Syntax.{App, Ident, Assign, Resource, Resources}
use rtfm.Macro.Check.{is_none}
use rtfm.Macro.Check.Sound.{IsWellFormed}
use rtfm.Macro.Analyze.{Analysis, Ownerships, needs_lock}
use rtfm.Macro.Codegen.Kind.{Kind, is_init}
use rtfm.Macro.Codegen.Prelude.{
  Field, get_mut, get_ref, field, locked_field, direct_field, static_expr,
}
use rtfm.Macro.Codegen.Resources.{late_static, resource, resources, resources_of}
use rtfm.Macro.Codegen.Start.{set, plain, is_late, assignment, assignments}
use rtfm.Runtime.Uninit
use rtfm.Runtime.Uninit.{MaybeUninit}
use rtfm.Macro.Codegen.Statics.{
  add_static, late_statics, run_assignments, IsInitialized, run-set, add_present,
}

late_storage :
    (owners : Ownerships) (r : Ident) (res : Resource)
    → res.singleton ≡ false
    → is_none res.expr ≡ true
    → resource owners (r, res)
      ≡ record { name = r; storage = late_static; proxy = (resource owners (r, res)).proxy }
unfolding resource
late_storage owners r res u l = ground arith

module _ {V : Type 0} where
  -- The static of a late resource is among those that `init` sets.
  late-present :
      (owners : Ownerships) (r : Ident) (res : Resource) (rs : Resources)
      → In (r, res) rs
      → res.singleton ≡ false
      → is_none res.expr ≡ true
      → (m : MaybeUninit V) × (lookup r (late_statics (resources_of owners rs)) ≡ some m)
  unfolding resources_of
  late-present owners r res [] i u l = absurd i
  late-present owners r res (x ∷ rs) (inl e) u l =
      subst
        (λ y.
          (m : MaybeUninit V) × (lookup r (
              add_static (resource owners y).name (resource owners y).storage
                (late_statics (resources_of owners rs)))
            ≡ some m))
        (sym e) (Uninit.uninitialized, rw (late_storage owners r res u l) (rw (beq_self r) refl))
  late-present owners r res (x ∷ rs) (inr i) u l =
      let (m, p) = late-present owners r res rs i u l in
      add_present (resource owners x).name (resource owners x).storage
        (late_statics (resources_of owners rs)) r m p

assignment-In :
    (rs : Resources) (a : Assign) (xs : List Assign)
    → In a xs
    → is_late (lookup a.left rs) ≡ true
    → In (set a.left a.right) (assignments rs xs)
unfolding assignments assignment
assignment-In rs a [] i l = absurd i
assignment-In rs a (x ∷ xs) (inl e) l = inl (
    ap (λ y. if is_late (lookup y.left rs) then set y.left y.right else plain y.left y.right) e
    ∙ (rw l refl))
assignment-In rs a (x ∷ xs) (inr i) l = inr (assignment-In rs a xs i l)

-- Only a late resource that is no singleton is read through `MaybeUninit`.
locked-late :
    (r : Ident) (res : Resource)
    → ((locked_field r res).expr ≡ get_mut) ⊎ ((locked_field r res).expr ≡ get_ref)
    → (res.singleton ≡ false) × (is_none res.expr ≡ true)
unfolding locked_field static_expr
locked-late r res (inl h) = (ground arith, ground arith)
locked-late r res (inr h) = (ground arith, ground arith)

direct-late :
    (kind : Kind) (r : Ident) (res : Resource)
    → ((direct_field kind r res).expr ≡ get_mut) ⊎ ((direct_field kind r res).expr ≡ get_ref)
    → (res.singleton ≡ false) × (is_none res.expr ≡ true)
unfolding direct_field static_expr
direct-late kind r res (inl h) = (ground arith, ground arith)
direct-late kind r res (inr h) = (ground arith, ground arith)

late_field :
    (debug : Bool) (app : App) (a : Analysis) (kind : Kind) (p : ℕ) (r : Ident) (f : Field)
    → is_init kind ≡ false
    → field debug kind app p a r ≡ ok f
    → (f.expr ≡ get_mut) ⊎ (f.expr ≡ get_ref)
    → (res : Resource) × (lookup r app.resources ≡ some res)
      × (res.singleton ≡ false)
      × (is_none res.expr ≡ true)
unfolding field
late_field debug app a kind p r f k h x =
    let (res, e, h₁) = >>=-eq-ok (expect (lookup r app.resources)) _ h in
    let (o, g, h₂) = >>=-eq-ok (expect (lookup r a.ownerships)) _ (rw k at h₁) in
    let (lock, n, h₃) = >>=-eq-ok (needs_lock debug o p) _ h₂ in
    let (u, l) = by_lock res lock (ok-injective h₃) in
    (res, expect→ (lookup r app.resources) res e, u, l)
  where
    by_lock :
        (res : Resource) (lock : Bool)
        → (if lock then locked_field r res else direct_field kind r res) ≡ f
        → (res.singleton ≡ false) × (is_none res.expr ≡ true)
    by_lock res true d =
        locked-late r res (subst (λ y. (y.expr ≡ get_mut) ⊎ (y.expr ≡ get_ref)) (sym d) x)
    by_lock res false d =
        direct-late kind r res (subst (λ y. (y.expr ≡ get_mut) ⊎ (y.expr ≡ get_ref)) (sym d) x)

-- In a well-formed application, whatever values the right sides have, a static that a handler, a
-- task or `idle` reads through `MaybeUninit` is initialized when `init` has run its assignments.
pub late-IsInitialized :
    (debug : Bool) (app : App) (a : Analysis)
    → IsWellFormed app
    → (kind : Kind) (p : ℕ) (r : Ident) (f : Field) → is_init kind ≡ false
    → field debug kind app p a r ≡ ok f
    → (f.expr ≡ get_mut) ⊎ (f.expr ≡ get_ref)
    → (V : Type 0) (eval : Expr → V)
    → IsInitialized r (
        run_assignments eval
          (assignments app.resources app.init.assigns)
          (late_statics (resources app a)))
unfolding resources
late-IsInitialized debug app a w kind p r f k h x V eval =
    let (res, e, u, l) = late_field debug app a kind p r f k h x in
    let i = lookup→In r res app.resources e in
    let (assign, j, same) = w.late_assigned r res i l in
    let (m, there) = late-present a.ownerships r res app.resources i u l in
    run-set eval (assignments app.resources app.init.assigns) r assign.right
      (late_statics (resources app a)) m
      (subst (λ n. In (set n assign.right) (assignments app.resources app.init.assigns)) same
        (assignment-In app.resources assign app.init.assigns j (rw (same, e) l)))
      there
