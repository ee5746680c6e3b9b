-- ===== src/Common/Lists.antt =====
-- Lists measured by native numbers, membership as a family that proofs can match, and tests over
-- lists that run.
use Prim.Native.Nat.{ℕ, suc, ◌+◌, ◌≤◌}
use mathlib.Core.Path.{◌≡◌, refl, sym, ap, subst, ◌∙◌}
use mathlib.Core.Logic.{◌⊎◌, inl, inr}
use mathlib.Core.Bool.{Bool, true, false, ◌||◌}
use mathlib.Core.List.{List, [], ◌∷◌, ◌++◌, map}
use native.Mathlib.Omega.{arith}
use rtfm.Common.Tests.{Eq, ◌==◌, if◌then◌else◌, eq_of_beq, beq_of_eq, Bool-cases}

module _ {ℓ} {A : Type ℓ} where
  abbrev pub length : List A → ℕ
  length [] = 0
  length (x ∷ xs) = suc (length xs)

  pub length-append : (xs ys : List A) → length (xs ++ ys) ≡ length xs + length ys
  length-append [] ys = omega arith
  length-append (x ∷ xs) ys = omega (arith, length-append xs ys)

  -- Every entry of the list has the property.
  abbrev pub All {κ} : (A → Type κ) → List A → Type κ
  All P [] = Unit
  All P (x ∷ xs) = P x × All P xs

  pub All-append {κ} : (P : A → Type κ) (xs ys : List A) → All P xs → All P ys → All P (xs ++ ys)
  All-append P [] ys h k = k
  All-append P (x ∷ xs) ys h k = (h.0, All-append P xs ys h.1 k)

module _ {A : Type 0} where
  -- `a` stands in the list.
  abbrev pub In : A → List A → Type 0
  In a [] = ⊥
  In a (x ∷ xs) = (x ≡ a) ⊎ In a xs

  pub In-append_left : (a : A) (xs ys : List A) → In a xs → In a (xs ++ ys)
  In-append_left a [] ys h = absurd h
  In-append_left a (x ∷ xs) ys (inl p) = inl p
  In-append_left a (x ∷ xs) ys (inr h) = inr (In-append_left a xs ys h)

  pub In-append_right : (a : A) (xs ys : List A) → In a ys → In a (xs ++ ys)
  In-append_right a [] ys h = h
  In-append_right a (x ∷ xs) ys h = inr (In-append_right a xs ys h)

  pub In-append : (a : A) (xs ys : List A) → In a (xs ++ ys) → In a xs ⊎ In a ys
  In-append a [] ys h = inr h
  In-append a (x ∷ xs) ys (inl p) = inl (inl p)
  In-append a (x ∷ xs) ys (inr h) = elim (In-append a xs ys h) [
    | inl l ↦ inl (inr l)
    | inr r ↦ inr r
  ]

  pub All-In {κ} : (P : A → Type κ) (xs : List A) → All P xs → (a : A) → In a xs → P a
  All-In P [] h a m = absurd m
  All-In P (x ∷ xs) h a (inl p) = rw (← p) h.0
  All-In P (x ∷ xs) h a (inr m) = All-In P xs h.1 a m

  pub In-All {κ} : (P : A → Type κ) (xs : List A) → ((a : A) → In a xs → P a) → All P xs
  In-All P [] h = tt
  In-All P (x ∷ xs) h = (h x (inl refl), In-All P xs (λ a m. h a (inr m)))

  -- No entry stands twice.
  abbrev pub Distinct : List A → Type 0
  Distinct [] = Unit
  Distinct (x ∷ xs) = (¬ (In x xs)) × Distinct xs

module _ {A B : Type 0} where
  pub In-map : (f : A → B) (a : A) (xs : List A) → In a xs → In (f a) (map f xs)
  In-map f a [] h = absurd h
  In-map f a (x ∷ xs) (inl p) = inl (ap f p)
  In-map f a (x ∷ xs) (inr h) = inr (In-map f a xs h)

  pub map-In : (f : A → B) (b : B) (xs : List A) → In b (map f xs) → (a : A) × In a xs × (f a ≡ b)
  map-In f b [] h = absurd h
  map-In f b (x ∷ xs) (inl p) = (x, inl refl, p)
  map-In f b (x ∷ xs) (inr h) = let (a, m, p) = map-In f b xs h in (a, inr m, p)

  -- `flat_map`, as the iterators of the source have it.
  abbrev pub flat_map : (A → List B) → List A → List B
  flat_map f [] = []
  flat_map f (x ∷ xs) = f x ++ flat_map f xs

  pub In-flat_map :
      (f : A → List B) (a : A) (b : B) (xs : List A) → In a xs → In b (f a) → In b (flat_map f xs)
  In-flat_map f a b [] h m = absurd h
  In-flat_map f a b (x ∷ xs) (inl p) m =
      In-append_left b (f x) (flat_map f xs) (subst (λ c. In b (f c)) (sym p) m)
  In-flat_map f a b (x ∷ xs) (inr h) m =
      In-append_right b (f x) (flat_map f xs) (In-flat_map f a b xs h m)

  pub flat_map-In :
      (f : A → List B) (b : B) (xs : List A) → In b (flat_map f xs) → (a : A) × In a xs × In b (f a)
  flat_map-In f b [] h = absurd h
  flat_map-In f b (x ∷ xs) h = elim (In-append b (f x) (flat_map f xs) h) [
    | inl l ↦ (x, inl refl, l)
    | inr r ↦ let (a, m, k) = flat_map-In f b xs r in (a, inr m, k)
  ]

module _ {A : Type 0} ⦃e : Eq A⦄ where
  -- `contains` of a vector or of a set.
  abbrev pub contains : List A → A → Bool
  contains [] a = false
  contains (x ∷ xs) a = (x == a) || contains xs a

  pub contains→In : (xs : List A) (a : A) → contains xs a ≡ true → In a xs
  contains→In [] a h = cc
  contains→In (x ∷ xs) a h = elim (Bool-cases (x == a)) [
    | inl p ↦ inl (eq_of_beq x a p)
    | inr p ↦ inr (contains→In xs a (ground arith))
  ]

  pub In→contains : (xs : List A) (a : A) → In a xs → contains xs a ≡ true
  In→contains [] a h = absurd h
  In→contains (x ∷ xs) a (inl p) = ground (arith, beq_of_eq x a p)
  In→contains (x ∷ xs) a (inr h) = ground (arith, In→contains xs a h)

  pub In-contains-false : (xs : List A) (a : A) → contains xs a ≡ false → ¬ (In a xs)
  In-contains-false xs a h m = ground (arith, In→contains xs a m)

  pub contains-false : (xs : List A) (a : A) → ¬ (In a xs) → contains xs a ≡ false
  contains-false xs a h = elim (Bool-cases (contains xs a)) [
    | inl p ↦ absurd (h (contains→In xs a p))
    | inr p ↦ p
  ]

  -- `insert` of a set: a second insertion changes nothing. The order of the list is the set's
  -- order of iteration, which is unspecified.
  abbrev pub set_insert : A → List A → List A
  set_insert a xs = if contains xs a then xs else (xs ++ a ∷ [])

module _ {A : Type 0} where
  -- A list with one entry more at its end.
  pub In-snoc : (a x : A) (xs : List A) → In a (xs ++ x ∷ []) → In a xs ⊎ (x ≡ a)
  In-snoc a x xs i = elim (In-append a xs (x ∷ []) i) [
    | inl l ↦ inl l
    | inr m ↦ elim m [ inl e ↦ inr e | inr n ↦ absurd n ]
  ]

module _ {A : Type 0} ⦃e : Eq A⦄ where
  pub set_insert-In : (a x : A) (xs : List A) → In a (set_insert x xs) → In a xs ⊎ (x ≡ a)
  set_insert-In a x xs i = elim (Bool-cases (contains xs x)) [
    | inl old ↦ inl (rw old at i)
    | inr new ↦ In-snoc a x xs (rw new at i)
  ]

  pub In-set_insert : (a x : A) (xs : List A) → In a xs ⊎ (x ≡ a) → In a (set_insert x xs)
  In-set_insert a x xs i = elim (Bool-cases (contains xs x)) [
    | inl old ↦
        rw old (elim i [ inl l ↦ l | inr p ↦ subst (λ y. In y xs) p (contains→In xs x old) ])
    | inr new ↦ rw new (elim i [
      | inl l ↦ In-append_left a xs (x ∷ []) l
      | inr p ↦ In-append_right a xs (x ∷ []) (inl p)
    ])
  ]

module _ {A : Type 0} ⦃e : Eq A⦄ where
  -- The list without one occurrence.
  remove : A → List A → List A
  remove a [] = []
  remove a (x ∷ xs) = if x == a then xs else (x ∷ remove a xs)

  length-remove : (a : A) (xs : List A) → In a xs → suc (length (remove a xs)) ≡ length xs
  unfolding remove
  length-remove a [] i = absurd i
  length-remove a (x ∷ xs) (inl p) = ground (arith, beq_of_eq x a p)
  length-remove a (x ∷ xs) (inr i) = ground (arith, length-remove a xs i)

  In-remove : (a b : A) (xs : List A) → In b xs → ¬ (b ≡ a) → In b (remove a xs)
  unfolding remove
  In-remove a b [] i ne = i
  In-remove a b (x ∷ xs) i ne = elim (Bool-cases (x == a)) [
    | inl p ↦ rw p (elim i [ inl q ↦ absurd (ne (sym q ∙ eq_of_beq x a p)) | inr j ↦ j ])
    | inr p ↦ rw p (other i (λ j. In-remove a b xs j ne))
  ]
    where
      other : (x ≡ b) ⊎ In b xs → (In b xs → In b (remove a xs)) → (x ≡ b) ⊎ In b (remove a xs)
      other (inl q) k = inl q
      other (inr j) k = inr (k j)

  -- A list without repetition is no longer than a list that holds its entries.
  pub length-le_of_Distinct :
      (xs ys : List A) → Distinct xs → ((a : A) → In a xs → In a ys) → length xs ≤ length ys
  length-le_of_Distinct [] ys d h = omega arith
  length-le_of_Distinct (x ∷ xs) ys d h = omega (
    arith,
    length-remove x ys (h x (inl refl)),
    length-le_of_Distinct xs (remove x ys) d.1
        (λ a i. In-remove x a ys (h a (inr i)) (λ p. d.0 (subst (λ y. In y xs) p i))),
  )
