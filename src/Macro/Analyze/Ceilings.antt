-- ===== src/Macro/Analyze/Ceilings.antt =====
-- The ownership of a resource is what the accesses to it say.
use rtfm.Common.{
  ℕ, max, ◌≤◌, ◌<◌, ◌≡◌, ◌≢◌, refl, sym, ap, subst, ◌⊎◌, inl, inr, Bool, false, Bool-cases, Option,
  none, some, Option-cases, List, [], ◌∷◌, ◌++◌, ok, In, In-append, In-append_left, In-append_right,
  arith, dec_lt, eqb, eqb_iff, ◌==◌, string_eq, eq_of_beq, ne_of_beq, lookup, lookup-insert,
  lookup-modify, if◌then◌else◌,
}
use rtfm.Macro.Syn.{SynType}
use rtfm.Macro.Syntax.{App, Ident, Resources, resource_accesses}
use rtfm.Macro.Analyze.{
  Ownership, owned, shared, Ownerships, ceiling_of, record_access, ownerships, fold, analyze,
  Analysis,
}
use rtfm.Macro.Analyze.Fold.{fold_seen}
use rtfm.Macro.Analyze.Parts.{analyze-Parts}

abbrev Accesses : Type 0
Accesses = List (ℕ × Ident)

-- What an entry of the table says about the accesses to `res`: no entry, no access; owned, all at
-- one priority; shared, at two priorities at least, of which the ceiling is the highest.
abbrev pub Explains : Option Ownership → Ident → List (ℕ × Ident) → Type 0
Explains none res seen = (p : ℕ) → ¬ (In (p, res) seen)
Explains (some (owned q)) res seen = In (q, res) seen × ((p : ℕ) → In (p, res) seen → p ≡ q)
Explains (some (shared c)) res seen =
    In (c, res) seen × ((p : ℕ) → In (p, res) seen → p ≤ c) × ((p : ℕ) × In (p, res) seen × (p < c))

-- The entry after one more access.
abbrev after_access : Option Ownership → ℕ → Option Ownership
after_access none p = some (owned p)
after_access (some o) p =
    if eqb p (ceiling_of o) then some o else some (shared (max (ceiling_of o) p))

In-snoc :
    (p q : ℕ) (r s : Ident) (seen : Accesses)
    → In (p, r) (seen ++ (q, s) ∷ [])
    → In (p, r) seen ⊎ ((q ≡ p) × (s ≡ r))
In-snoc p q r s seen h = elim (In-append (p, r) seen ((q, s) ∷ []) h) [
  | inl l ↦ inl l
  | inr m ↦ elim m [ inl e ↦ inr (ap (λ x. x.0) e, ap (λ x. x.1) e) | inr n ↦ absurd n ]
]

In-old :
    (p q : ℕ) (r s : Ident) (seen : Accesses) → In (p, r) seen → In (p, r) (seen ++ (q, s) ∷ [])
In-old p q r s seen = In-append_left (p, r) seen ((q, s) ∷ [])

In-new : (q : ℕ) (s : Ident) (seen : Accesses) → In (q, s) (seen ++ (q, s) ∷ [])
In-new q s seen = In-append_right (q, s) seen ((q, s) ∷ []) (inl refl)

-- An access to another resource changes nothing.
Explains-other :
    (o : Option Ownership) (r : Ident) (q : ℕ) (s : Ident) (seen : Accesses)
    → s ≢ r
    → Explains o r seen
    → Explains o r (seen ++ (q, s) ∷ [])
Explains-other o r q s seen ne e = go o e
  where
    back : (p : ℕ) → In (p, r) (seen ++ (q, s) ∷ []) → In (p, r) seen
    back p i = elim (In-snoc p q r s seen i) [ inl l ↦ l | inr m ↦ absurd (ne m.1) ]

    go : (o : Option Ownership) → Explains o r seen → Explains o r (seen ++ (q, s) ∷ [])
    go none e = λ p i. e p (back p i)
    go (some (owned c)) e = (In-old c q r s seen e.0, λ p i. e.1 p (back p i))
    go (some (shared c)) e =
        let (p, i, l) = e.2 in
        (In-old c q r s seen e.0, (λ p i. e.1 p (back p i)), (p, In-old p q r s seen i, l))

In-max :
    (c q : ℕ) (r : Ident) (seen : Accesses) → In (c, r) seen → In (max c q, r) (seen ++ (q, r) ∷ [])
In-max c q r seen i = elim (dec_lt c q) [
  | yes lt ↦ subst (λ m. In (m, r) (seen ++ (q, r) ∷ [])) (omega arith) (In-new q r seen)
  | no ge ↦ subst (λ m. In (m, r) (seen ++ (q, r) ∷ [])) (omega arith) (In-old c q r r seen i)
]

bound-snoc :
    (c q : ℕ) (r : Ident) (seen : Accesses)
    → ((p : ℕ) → In (p, r) seen → p ≤ c)
    → (p : ℕ) → In (p, r) (seen ++ (q, r) ∷ [])
    → p ≤ max c q
bound-snoc c q r seen h p i = elim (In-snoc p q r r seen i) [
  | inl l ↦ omega (arith, h p l)
  | inr m ↦ omega (arith, m.0)
]

-- A resource that two priorities access is shared by them.
differs :
    (c q : ℕ) (r : Ident) (seen : Accesses)
    → In (c, r) seen
    → q ≢ c
    → (p : ℕ) × In (p, r) (seen ++ (q, r) ∷ []) × (p < max c q)
differs c q r seen i ne = elim (dec_lt c q) [
  | yes lt ↦ (c, In-old c q r r seen i, omega arith)
  | no ge ↦ (q, In-new q r seen, omega arith)
]

eqb-false : (a b : ℕ) → eqb a b ≡ false → a ≢ b
eqb-false a b h e = ground arith

-- An access to the resource itself.
Explains-self :
    (o : Option Ownership) (r : Ident) (q : ℕ) (seen : Accesses)
    → Explains o r seen
    → Explains (after_access o q) r (seen ++ (q, r) ∷ [])
Explains-self none r q seen e = (
  In-new q r seen,
  λ p i. elim (In-snoc p q r r seen i) [ inl l ↦ absurd (e p l) | inr m ↦ sym m.0 ],
)
Explains-self (some (owned c)) r q seen e = elim (Bool-cases (eqb q c)) [
  | inl same ↦ rw same (
    In-old c q r r seen e.0,
    λ p i. elim (In-snoc p q r r seen i) [
      | inl l ↦ e.1 p l
      | inr m ↦ omega (arith, m.0, (eqb_iff q c).0 same)
    ],
  )
  | inr differ ↦ rw differ (
    In-max c q r seen e.0,
    bound-snoc c q r seen (λ p i. omega (arith, e.1 p i)),
    differs c q r seen e.0 (eqb-false q c differ),
  )
]
Explains-self (some (shared c)) r q seen e = elim (Bool-cases (eqb q c)) [
  | inl same ↦
      let (p, i, l) = e.2 in
      rw same (
        In-old c q r r seen e.0,
        λ p i. omega (arith, bound-snoc c q r seen e.1 p i, (eqb_iff q c).0 same),
        (p, In-old p q r r seen i, l),
      )
  | inr differ ↦ rw differ (
    In-max c q r seen e.0,
    bound-snoc c q r seen e.1,
    differs c q r seen e.0 (eqb-false q c differ),
  )
]

-- One round writes the entry of its resource, and no other.
lookup-record_access :
    (resources : Resources) (q : ℕ) (s r : Ident) (own own' : Ownerships) (ns ns' : List SynType)
    → record_access resources (q, s) (own, ns) ≡ ok (own', ns')
    → lookup r own' ≡ (if s == r then after_access (lookup r own) q else lookup r own)
unfolding record_access
lookup-record_access resources q s r own own' ns ns' h = elim (Option-cases (lookup s own)) [
  | inl e ↦ ground (arith, e, h, lookup-insert s r (owned q) own, string_eq.beq_iff s r)
  | inr (o, e) ↦ elim (Bool-cases (eqb q (ceiling_of o))) [
    | inl same ↦ ground (arith, e, h, same, string_eq.beq_iff s r)
    | inr differ ↦ ground (
      arith,
      e,
      h,
      differ,
      lookup-modify s r (λ _. shared (max (ceiling_of o) q)) own,
      string_eq.beq_iff s r,
    )
  ]
]

fold-Explains :
    (resources : Resources) (accesses : Accesses) (own : Ownerships) (ns : List SynType)
    → fold (record_access resources) accesses ([], []) ≡ ok (own, ns)
    → (r : Ident) → Explains (lookup r own) r accesses
fold-Explains resources accesses own ns h =
    fold_seen (record_access resources) Explained step [] accesses ([], []) (own, ns) (λ r p i. i) h
  where
    Explained : List (ℕ × Ident) → Ownerships × List SynType → Type 0
    Explained seen st = (r : Ident) → Explains (lookup r st.0) r seen

    step :
        (seen : Accesses) (x : ℕ × Ident) (st st' : Ownerships × List SynType)
        → Explained seen st
        → record_access resources x st ≡ ok st'
        → Explained (seen ++ x ∷ []) st'
    step seen (q, s) st st' p e r =
        let l = lookup-record_access resources q s r st.0 st'.0 st.1 st'.1 e in
        elim (Bool-cases (s == r)) [
          | inl same ↦
              subst (λ x. Explains (lookup r st'.0) r (seen ++ (q, x) ∷ []))
                (sym (eq_of_beq s r same))
                (subst (λ o. Explains o r (seen ++ (q, r) ∷ [])) (sym (rw same at l))
                  (Explains-self (lookup r st.0) r q seen (p r)))
          | inr other ↦
              subst (λ o. Explains o r (seen ++ (q, s) ∷ [])) (sym (rw other at l))
                (Explains-other (lookup r st.0) r q s seen (ne_of_beq s r other) (p r))
        ]

-- The table of ownerships says of every resource how it is accessed.
pub analyze-Explains :
    (debug : Bool) (app : App) (a : Analysis)
    → analyze debug app ≡ ok a
    → (r : Ident) → Explains (lookup r a.ownerships) r (resource_accesses app)
unfolding ownerships
analyze-Explains debug app a h =
    fold-Explains app.resources (resource_accesses app) a.ownerships a.needs_sync
      (analyze-Parts debug app a h).ownerships_ok

-- So a ceiling is never below the priority of an access: the entry is there, and is the highest
-- priority of all accesses.
pub analyze_ceiling :
    (debug : Bool) (app : App) (a : Analysis)
    → analyze debug app ≡ ok a
    → (p : ℕ) (r : Ident) → In (p, r) (resource_accesses app)
    → (o : Ownership) × (lookup r a.ownerships ≡ some o)
      × (p ≤ ceiling_of o)
      × In (ceiling_of o, r) (resource_accesses app)
analyze_ceiling debug app a h p r i =
    go (lookup r a.ownerships) refl (analyze-Explains debug app a h r)
  where
    go :
        (o : Option Ownership)
        → lookup r a.ownerships ≡ o
        → Explains o r (resource_accesses app)
        → (o : Ownership) × (lookup r a.ownerships ≡ some o)
          × (p ≤ ceiling_of o)
          × In (ceiling_of o, r) (resource_accesses app)
    go none e x = absurd (x p i)
    go (some (owned c)) e x = (owned c, e, omega (arith, x.1 p i), x.0)
    go (some (shared c)) e x = (shared c, e, x.1 p i, x.0)
