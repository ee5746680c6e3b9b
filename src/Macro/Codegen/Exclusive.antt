-- ===== src/Macro/Codegen/Exclusive.antt =====
-- The access that a context gets to a resource, against its ceiling.
use rtfm.Common.{
  ℕ, ◌≤◌, ◌<◌, ◌≡◌, refl, sym, ap, ◌∙◌, ◌⊎◌, inl, inr, Bool, true, false, Bool-cases, [], ◌∷◌, some,
  In, lookup, lookup→In, string_eq, subst, ◌≢◌, >>=-eq-ok, expect→, ok-injective, ok, expect, arith,
  ltb, if◌then◌else◌, some_injective,
}
use rtfm.Macro.Syntax.{App, Ident, Resource, Resources, resource_accesses}
use rtfm.Macro.Check.{is_none}
use rtfm.Macro.Analyze.{
  Analysis, Ownership, Ownerships, owned, shared, ceiling_of, needs_lock, analyze,
}
use rtfm.Macro.Analyze.Ceilings.{analyze_ceiling}
use rtfm.Macro.Analyze.Locks.{analyze-needs_lock}
use rtfm.Macro.Codegen.Kind.{Kind, is_init}
use rtfm.Macro.Codegen.Prelude.{
  Field, FieldType, owned_value, reference, proxy_type, proxy, field, locked_field, direct_field,
  static_expr,
}
use rtfm.Macro.Codegen.Resources.{Generated, Proxy, Pointer, resource, resources, resources_of}

-- A field through which the resource can be written at once.
abbrev pub is_exclusive : FieldType → Bool
is_exclusive owned_value = true
is_exclusive (reference lifetime mutability) = mutability
is_exclusive proxy_type = false

-- What a context at priority `p` gets of a resource that can be written and has the ceiling `c`: a
-- proxy if the ceiling is above the priority, and the resource itself if it is the priority.
abbrev pub IsGuarded : ℕ → ℕ → Field → Type 0
IsGuarded p c f =
    ((f.ty ≡ proxy_type) × (f.expr ≡ proxy) × (p < c)) ⊎ ((is_exclusive f.ty ≡ true) × (p ≡ c))

pub field_lem :
    (debug : Bool) (kind : Kind) (app : App) (p : ℕ) (a : Analysis) (r : Ident) (res : Resource)
    (o : Ownership) (lock : Bool)
    → is_init kind ≡ false
    → lookup r app.resources ≡ some res
    → lookup r a.ownerships ≡ some o
    → needs_lock debug o p ≡ ok lock
    → field debug kind app p a r ≡ ok (if lock then locked_field r res else direct_field kind r res)
unfolding field
field_lem debug kind app p a r res o lock k e f g = rw (e, k, f, g) refl

locked_mutable :
    (r : Ident) (res : Resource)
    → res.mutability ≡ true
    → (locked_field r res).ty ≡ proxy_type × (locked_field r res).expr ≡ proxy
unfolding locked_field
locked_mutable r res m = (ground arith, ground arith)

direct_mutable :
    (kind : Kind) (r : Ident) (res : Resource)
    → res.mutability ≡ true
    → is_exclusive (direct_field kind r res).ty ≡ true
unfolding direct_field
direct_mutable kind r res m = ground arith

guarded :
    (kind : Kind) (r : Ident) (res : Resource) (p c : ℕ) (lock : Bool)
    → res.mutability ≡ true
    → p ≤ c
    → ltb p c ≡ lock
    → IsGuarded p c (if lock then locked_field r res else direct_field kind r res)
guarded kind r res p c true m le e = let (t, x) = locked_mutable r res m in inl (t, x, ground arith)
guarded kind r res p c false m le e = inr (direct_mutable kind r res m, ground arith)

-- In an application for which the analysis returns, a handler, a task or `idle` that accesses a
-- resource which can be written gets a proxy if the ceiling is above its priority, and the resource
-- itself if its priority is the ceiling.
pub field-IsGuarded :
    (debug debug' : Bool) (app : App) (a : Analysis)
    → analyze debug app ≡ ok a
    → (kind : Kind) (p : ℕ) (r : Ident) (res : Resource) → is_init kind ≡ false
    → In (p, r) (resource_accesses app)
    → lookup r app.resources ≡ some res
    → res.mutability ≡ true
    → (o : Ownership) × (f : Field) × (lookup r a.ownerships ≡ some o)
      × (field debug' kind app p a r ≡ ok f)
      × IsGuarded p (ceiling_of o) f
field-IsGuarded debug debug' app a done kind p r res k i e m =
    let (o, g, n) = analyze-needs_lock debug debug' app a done p r i in
    let (o', g', le, _) = analyze_ceiling debug app a done p r i in
    let same = ap ceiling_of (some_injective (sym g ∙ g')) in
    (
      o,
      if ltb p (ceiling_of o) then locked_field r res else direct_field kind r res,
      g,
      field_lem debug' kind app p a r res o (ltb p (ceiling_of o)) k e g n,
      guarded kind r res p (ceiling_of o) (ltb p (ceiling_of o)) m (omega arith) refl,
    )

-- For an application for which the analysis returns: two contexts other than `init` that access a
-- `static mut` resource and each get the resource itself, not a proxy, have one priority, so that
-- neither preempts the other.
pub direct_access_exclusive :
    (debug debug' : Bool) (app : App) (a : Analysis)
    → analyze debug app ≡ ok a
    → (kind kind' : Kind) (p q : ℕ) (r : Ident) (res : Resource) (f g : Field)
    → is_init kind ≡ false
    → is_init kind' ≡ false
    → In (p, r) (resource_accesses app)
    → In (q, r) (resource_accesses app)
    → lookup r app.resources ≡ some res
    → res.mutability ≡ true
    → field debug' kind app p a r ≡ ok f
    → field debug' kind' app q a r ≡ ok g
    → is_exclusive f.ty ≡ true
    → is_exclusive g.ty ≡ true
    → p ≡ q
direct_access_exclusive debug debug' app a done kind kind' p q r res f g k k' i j e m ef eg xf xg =
    let (o, f', lo, ef', gf) = field-IsGuarded debug debug' app a done kind p r res k i e m in
    let (o', g', lo', eg', gg) = field-IsGuarded debug debug' app a done kind' q r res k' j e m in
    at_ceiling f p (ceiling_of o)
      (subst (IsGuarded p (ceiling_of o)) (ok-injective (sym ef' ∙ ef)) gf) xf
    ∙ ap ceiling_of (some_injective (sym lo ∙ lo'))
    ∙ sym (
        at_ceiling g q (ceiling_of o')
          (subst (IsGuarded q (ceiling_of o')) (ok-injective (sym eg' ∙ eg)) gg) xg)
  where
    at_ceiling : (f : Field) (p c : ℕ) → IsGuarded p c f → is_exclusive f.ty ≡ true → p ≡ c
    at_ceiling f p c (inl (t, _, _)) x = absurd (cc)
    at_ceiling f p c (inr (_, e)) x = e

resource-In :
    (owners : Ownerships) (r : Ident) (res : Resource) (rs : Resources)
    → In (r, res) rs
    → In (resource owners (r, res)) (resources_of owners rs)
unfolding resources_of
resource-In owners r res [] i = i
resource-In owners r res (x ∷ rs) (inl e) = inl (ap (resource owners) e)
resource-In owners r res (x ∷ rs) (inr i) = inr (resource-In owners r res rs i)

direct-ne-proxy :
    (kind : Kind) (r : Ident) (res : Resource) → (direct_field kind r res).expr ≢ proxy
unfolding direct_field static_expr
direct-ne-proxy kind r res h = ground arith

locked-proxy :
    (r : Ident) (res : Resource) → (locked_field r res).expr ≡ proxy → res.mutability ≡ true
unfolding locked_field static_expr
locked-proxy r res h = ground arith

-- What an access that has to lock says of the ownership.
needs_lock-true :
    (debug : Bool) (o : Ownership) (p : ℕ)
    → needs_lock debug o p ≡ ok true
    → (c : ℕ) × (o ≡ shared c) × (p < c)
unfolding needs_lock
needs_lock-true debug (owned q) p h = cc
needs_lock-true debug (shared c) p h = (c, refl, ground arith)

proxy_of :
    (owners : Ownerships) (r : Ident) (res : Resource) (c : ℕ)
    → lookup r owners ≡ some (shared c)
    → res.mutability ≡ true
    → (x : Proxy) × ((resource owners (r, res)).proxy ≡ some x) × (x.ceiling ≡ c)
unfolding resource
proxy_of owners r res c e m = elim (Bool-cases res.singleton) [
  | inl s ↦ (record { ceiling = c; ptr = Pointer.new_singleton }, ground arith, refl)
  | inr s ↦ (
    record {
      ceiling = c;
      ptr = if is_none res.expr then Pointer.late_get_mut else Pointer.static_mut;
    },
    ground arith,
    refl,
  )
]

-- A field that is a proxy refers to one that is generated, with the ceiling of the resource, which
-- is above the priority of the context.
pub proxy-generated :
    (debug : Bool) (app : App) (a : Analysis) (kind : Kind) (p : ℕ) (r : Ident) (f : Field)
    → is_init kind ≡ false
    → field debug kind app p a r ≡ ok f
    → f.expr ≡ proxy
    → (g : Generated) × (x : Proxy) × In g (resources app a)
      × (g.proxy ≡ some x)
      × (lookup r a.ownerships ≡ some (shared x.ceiling))
      × (p < x.ceiling)
unfolding field resources
proxy-generated debug app a kind p r f k h x =
    let (res, e, h₁) = >>=-eq-ok (expect (lookup r app.resources)) _ h in
    let (o, g, h₂) = >>=-eq-ok (expect (lookup r a.ownerships)) _ (rw k at h₁) in
    let (lock, n, h₃) = >>=-eq-ok (needs_lock debug o p) _ h₂ in
    finish res o lock (expect→ (lookup r app.resources) res e) (expect→ (lookup r a.ownerships) o g)
      n (ok-injective h₃)
  where
    finish :
        (res : Resource) (o : Ownership) (lock : Bool)
        → lookup r app.resources ≡ some res
        → lookup r a.ownerships ≡ some o
        → needs_lock debug o p ≡ ok lock
        → (if lock then locked_field r res else direct_field kind r res) ≡ f
        → (g : Generated) × (x : Proxy) × In g (resources app a)
          × (g.proxy ≡ some x)
          × (lookup r a.ownerships ≡ some (shared x.ceiling))
          × (p < x.ceiling)
    finish res o false e g n d = absurd (direct-ne-proxy kind r res (ap (λ y. y.expr) d ∙ x))
    finish res o true e g n d =
        let (c, s, lt) = needs_lock-true debug o p n in
        let shared_at = g ∙ ap some s in
        let (y, made, at_c) =
          proxy_of a.ownerships r res c shared_at (locked-proxy r res (ap (λ y. y.expr) d ∙ x)) in
        (
          resource a.ownerships (r, res),
          y,
          resource-In a.ownerships r res app.resources (lookup→In r res app.resources e),
          made,
          shared_at ∙ ap (λ z. some (shared z)) (sym at_c),
          rw at_c lt,
        )
