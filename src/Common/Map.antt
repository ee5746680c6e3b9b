-- ===== src/Common/Map.antt =====
-- `HashMap` as an association list. Its order stands for the map's order of iteration, which the
-- source leaves open: every theorem holds for every order.
use mathlib.Core.Path.{◌≡◌, refl, sym, ap, subst}
use mathlib.Core.Logic.{◌⊎◌, inl, inr}
use mathlib.Core.Bool.{Bool}
use mathlib.Core.Option
use mathlib.Core.Option.{Option, none, some}
use mathlib.Core.List.{List, [], ◌∷◌}
use native.Mathlib.Omega.{arith}
use rtfm.Common.Tests.{
  Eq, ◌==◌, if◌then◌else◌, eq_of_beq, beq_of_eq, ne_of_beq, Bool-cases, Option-cases,
}
use rtfm.Common.Lists.{In, Distinct, contains}

abbrev pub HashMap : Type 0 → Type 0 → Type 0
HashMap K V = List (K × V)

module _ {K V : Type 0} where
  abbrev pub keys : HashMap K V → List K
  keys [] = []
  keys ((k, v) ∷ m) = k ∷ keys m

  abbrev pub values : HashMap K V → List V
  values [] = []
  values ((k, v) ∷ m) = v ∷ values m

  pub In-keys : (k : K) (v : V) (m : HashMap K V) → In (k, v) m → In k (keys m)
  In-keys k v [] h = h
  In-keys k v ((j, w) ∷ m) (inl p) = inl (ap (λ e. e.0) p)
  In-keys k v ((j, w) ∷ m) (inr h) = inr (In-keys k v m h)

  pub In-values : (k : K) (v : V) (m : HashMap K V) → In (k, v) m → In v (values m)
  In-values k v [] h = h
  In-values k v ((j, w) ∷ m) (inl p) = inl (ap (λ e. e.1) p)
  In-values k v ((j, w) ∷ m) (inr h) = inr (In-values k v m h)

  pub values-In : (v : V) (m : HashMap K V) → In v (values m) → (k : K) × In (k, v) m
  values-In v [] h = absurd h
  values-In v ((j, w) ∷ m) (inl p) = (j, inl (ap (λ x. (j, x)) p))
  values-In v ((j, w) ∷ m) (inr h) = let (k, i) = values-In v m h in (k, inr i)

module _ {K V : Type 0} ⦃e : Eq K⦄ where
  abbrev pub lookup : K → HashMap K V → Option V
  lookup k [] = none
  lookup k ((j, v) ∷ m) = if j == k then some v else lookup k m

  abbrev pub contains_key : K → HashMap K V → Bool
  contains_key k m = contains (keys m) k

  abbrev pub insert : K → V → HashMap K V → HashMap K V
  insert k v [] = (k, v) ∷ []
  insert k v ((j, w) ∷ m) = if j == k then (j, v) ∷ m else (j, w) ∷ insert k v m

  -- A write through `get_mut`; without the key nothing is written.
  abbrev pub modify : K → (V → V) → HashMap K V → HashMap K V
  modify k f [] = []
  modify k f ((j, w) ∷ m) = if j == k then (j, f w) ∷ m else (j, w) ∷ modify k f m

  pub lookup-insert :
      (k j : K) (v : V) (m : HashMap K V)
      → lookup j (insert k v m) ≡ (if k == j then some v else lookup j m)
  lookup-insert k j v [] = refl
  lookup-insert k j v ((i, w) ∷ m) =
      ground (arith, lookup-insert k j v m, e.beq_iff k j, e.beq_iff i k, e.beq_iff i j)

  pub lookup-modify :
      (k j : K) (f : V → V) (m : HashMap K V)
      → lookup j (modify k f m) ≡ (if k == j then Option.map f (lookup j m) else lookup j m)
  lookup-modify k j f [] = ground arith
  lookup-modify k j f ((i, w) ∷ m) =
      ground (arith, lookup-modify k j f m, e.beq_iff k j, e.beq_iff i k, e.beq_iff i j)

  pub keys-modify : (k : K) (f : V → V) (m : HashMap K V) → keys (modify k f m) ≡ keys m
  keys-modify k f [] = refl
  keys-modify k f ((i, w) ∷ m) = ground (arith, keys-modify k f m)

  pub lookup→In : (k : K) (v : V) (m : HashMap K V) → lookup k m ≡ some v → In (k, v) m
  lookup→In k v [] h = cc
  lookup→In k v ((j, w) ∷ m) h = elim (Bool-cases (j == k)) [
    | inl p ↦ inl (ground (arith, eq_of_beq j k p))
    | inr p ↦ inr (lookup→In k v m (ground arith))
  ]

  pub lookup-In_keys : (k : K) (v : V) (m : HashMap K V) → lookup k m ≡ some v → In k (keys m)
  lookup-In_keys k v m h = In-keys k v m (lookup→In k v m h)

  pub In_keys-lookup : (k : K) (m : HashMap K V) → In k (keys m) → (v : V) × (lookup k m ≡ some v)
  In_keys-lookup k [] h = absurd h
  In_keys-lookup k ((j, w) ∷ m) (inl p) = (w, ground (arith, beq_of_eq j k p))
  In_keys-lookup k ((j, w) ∷ m) (inr h) = elim (Bool-cases (j == k)) [
    | inl p ↦ (w, ground arith)
    | inr p ↦ let (v, q) = In_keys-lookup k m h in (v, ground arith)
  ]

  pub not_In_keys-lookup : (k : K) (m : HashMap K V) → ¬ (In k (keys m)) → lookup k m ≡ none
  not_In_keys-lookup k m h = elim (Option-cases (lookup k m)) [
    | inl p ↦ p
    | inr (v, p) ↦ absurd (h (lookup-In_keys k v m p))
  ]

  pub In→lookup :
      (k : K) (v : V) (m : HashMap K V) → Distinct (keys m) → In (k, v) m → lookup k m ≡ some v
  In→lookup k v [] d h = absurd h
  In→lookup k v ((j, w) ∷ m) d (inl p) =
      ground (arith, ap (λ x. x.1) p, beq_of_eq j k (ap (λ x. x.0) p))
  In→lookup k v ((j, w) ∷ m) d (inr h) = elim (Bool-cases (j == k)) [
    | inl p ↦ absurd (d.0 (subst (λ x. In x (keys m)) (sym (eq_of_beq j k p)) (In-keys k v m h)))
    | inr p ↦ ground (arith, In→lookup k v m d.1 h)
  ]

  pub In_keys-insert :
      (k j : K) (v : V) (m : HashMap K V) → In j (keys (insert k v m)) → (k ≡ j) ⊎ In j (keys m)
  In_keys-insert k j v [] (inl p) = inl p
  In_keys-insert k j v [] (inr h) = absurd h
  In_keys-insert k j v ((i, w) ∷ m) h = elim (Bool-cases (i == k)) [
    | inl p ↦ inr (rw p at h)
    | inr p ↦ step (In_keys-insert k j v m) (rw p at h)
  ]
    where
      step :
          (In j (keys (insert k v m)) → (k ≡ j) ⊎ In j (keys m))
          → (i ≡ j) ⊎ In j (keys (insert k v m))
          → (k ≡ j) ⊎ (i ≡ j) ⊎ In j (keys m)
      step ih (inl q) = inr (inl q)
      step ih (inr q) = elim (ih q) [ inl a ↦ inl a | inr b ↦ inr (inr b) ]

  -- Insertion keeps the keys apart: a map never holds a key twice.
  pub Distinct-insert :
      (k : K) (v : V) (m : HashMap K V) → Distinct (keys m) → Distinct (keys (insert k v m))
  Distinct-insert k v [] d = ((λ h. h), tt)
  Distinct-insert k v ((i, w) ∷ m) d = elim (Bool-cases (i == k)) [
    | inl p ↦ rw p d
    | inr p ↦ rw p (
      (λ h. elim (In_keys-insert k i v m h) [ inl q ↦ ne_of_beq i k p (sym q) | inr q ↦ d.0 q ]),
      Distinct-insert k v m d.1,
    )
  ]

module _ {K V : Type 0} ⦃e : Eq K⦄ where
  -- Insertion adds its key.
  pub In_keys-insert_self : (k : K) (v : V) (m : HashMap K V) → In k (keys (insert k v m))
  In_keys-insert_self k v [] = inl refl
  In_keys-insert_self k v ((j, w) ∷ m) = elim (Bool-cases (j == k)) [
    | inl p ↦ rw p (inl (eq_of_beq j k p))
    | inr p ↦ rw p (inr (In_keys-insert_self k v m))
  ]

  pub In_keys-insert_old :
      (k j : K) (v : V) (m : HashMap K V) → In j (keys m) → In j (keys (insert k v m))
  In_keys-insert_old k j v [] i = absurd i
  In_keys-insert_old k j v ((l, w) ∷ m) i = elim (Bool-cases (l == k)) [
    | inl p ↦ rw p i
    | inr p ↦ rw p (other i (In_keys-insert_old k j v m))
  ]
    where
      other :
          (l ≡ j) ⊎ In j (keys m)
          → (In j (keys m) → In j (keys (insert k v m)))
          → (l ≡ j) ⊎ In j (keys (insert k v m))
      other (inl q) h = inl q
      other (inr q) h = inr (h q)
