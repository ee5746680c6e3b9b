-- ===== src/Messages/Count.antt =====
-- Counting the entries of a list that pass a test.
use rtfm.Common.{
  ℕ, ◌+◌, ◌≤◌, ◌<◌, ◌≡◌, refl, Bool, true, List, [], ◌∷◌, ◌++◌, In, inl, inr, Distinct, length,
  length-le_of_Distinct, arith, Eq, ◌==◌, beq_self, if◌then◌else◌,
}
use rtfm.Messages.Queue.{count_if}

module _ {A : Type 0} where
  pub count-append :
      (p : A → Bool) (xs ys : List A) → count_if p (xs ++ ys) ≡ count_if p xs + count_if p ys
  count-append p [] ys = omega arith
  count-append p (x ∷ xs) ys = omega (arith, count-append p xs ys)

  pub count-In : (p : A → Bool) (a : A) (xs : List A) → In a xs → p a ≡ true → 0 < count_if p xs
  count-In p a [] i e = absurd i
  count-In p a (x ∷ xs) (inl q) e = ground (arith, rw (← q) at e)
  count-In p a (x ∷ xs) (inr i) e = omega (arith, count-In p a xs i e)

module _ {A : Type 0} ⦃e : Eq A⦄ where
  abbrev pub one : A → A → ℕ
  one y x = if y == x then 1 else 0

  abbrev pub count : A → List A → ℕ
  count x ys = count_if (λ y. y == x) ys

  pub one_self : (x : A) → one x x ≡ 1
  one_self x = rw (beq_self x) refl

  pub count-Distinct : (xs : List A) → ((a : A) → count a xs ≤ 1) → Distinct xs
  count-Distinct [] h = tt
  count-Distinct (x ∷ xs) h = (
    λ i. omega (arith, h x, one_self x, count-In (λ y. y == x) x xs i (beq_self x)),
    count-Distinct xs (λ a. omega (arith, h a)),
  )

  -- A list of which no entry is there twice, not even with one more, is shorter than a list that
  -- holds them all.
  pub shorter :
      (y : A) (xs us : List A)
      → ((a : A) → one y a + count a xs ≤ 1)
      → ((a : A) → 0 < one y a + count a xs → In a us)
      → length xs < length us
  shorter y xs us h k = omega (
    arith,
    length-le_of_Distinct (y ∷ xs) us (count-Distinct (y ∷ xs) h)
        (λ a i. k a (count-In (λ b. b == a) a (y ∷ xs) i (beq_self a))),
  )
