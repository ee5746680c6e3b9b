-- ===== src/Common/Entries.antt =====
-- Lists with the same entries, in any order, and the lists that `flat_map` builds.
use mathlib.Core.Path.{subst}
use mathlib.Core.Logic.{◌⊎◌, inl, inr}
use mathlib.Core.List.{List, ◌++◌, append_assoc}
use rtfm.Common.Lists.{
  In, In-append, In-append_left, In-append_right, flat_map, In-flat_map, flat_map-In,
}

module _ {A B : Type 0} where
  -- A list made of two parts for each entry holds what the parts hold.
  pub flat_map_append-In :
      (f g : A → List B) (b : B) (xs : List A)
      → In b (flat_map (λ x. f x ++ g x) xs)
      → In b (flat_map f xs) ⊎ In b (flat_map g xs)
  flat_map_append-In f g b xs h =
      let (a, m, k) = flat_map-In (λ x. f x ++ g x) b xs h in
      elim (In-append b (f a) (g a) k) [
        | inl l ↦ inl (In-flat_map f a b xs m l)
        | inr r ↦ inr (In-flat_map g a b xs m r)
      ]

  pub In-flat_map_append :
      (f g : A → List B) (b : B) (xs : List A)
      → In b (flat_map f xs) ⊎ In b (flat_map g xs)
      → In b (flat_map (λ x. f x ++ g x) xs)
  In-flat_map_append f g b xs (inl h) =
      let (a, m, k) = flat_map-In f b xs h in
      In-flat_map (λ x. f x ++ g x) a b xs m (In-append_left b (f a) (g a) k)
  In-flat_map_append f g b xs (inr h) =
      let (a, m, k) = flat_map-In g b xs h in
      In-flat_map (λ x. f x ++ g x) a b xs m (In-append_right b (f a) (g a) k)

-- Two lists with the same entries.
pub record SameEntries {A : Type 0} (xs ys : List A) : Type 0 where
  pub into : (a : A) → In a xs → In a ys
  pub back : (a : A) → In a ys → In a xs

module _ {A : Type 0} where
  In-append_both :
      (a : A) (xs xs' ys ys' : List A)
      → (In a xs → In a xs')
      → (In a ys → In a ys')
      → In a (xs ++ ys)
      → In a (xs' ++ ys')
  In-append_both a xs xs' ys ys' h k i = elim (In-append a xs ys i) [
    | inl l ↦ In-append_left a xs' ys' (h l)
    | inr r ↦ In-append_right a xs' ys' (k r)
  ]

  pub SameEntries-append :
      (xs xs' ys ys' : List A)
      → SameEntries xs xs'
      → SameEntries ys ys'
      → SameEntries (xs ++ ys) (xs' ++ ys')
  SameEntries-append xs xs' ys ys' h k = record {
    into = λ a. In-append_both a xs xs' ys ys' (h.into a) (k.into a);
    back = λ a. In-append_both a xs' xs ys' ys (h.back a) (k.back a);
  }

  pub SameEntries-refl : (xs : List A) → SameEntries xs xs
  SameEntries-refl xs = record { into = λ a i. i; back = λ a i. i }

  pub SameEntries-trans :
      (xs ys zs : List A) → SameEntries xs ys → SameEntries ys zs → SameEntries xs zs
  SameEntries-trans xs ys zs h k = record {
    into = λ a i. k.into a (h.into a i);
    back = λ a i. h.back a (k.back a i);
  }

  In-swap : (a : A) (xs ys zs : List A) → In a (xs ++ (ys ++ zs)) → In a (ys ++ (xs ++ zs))
  In-swap a xs ys zs i = elim (In-append a xs (ys ++ zs) i) [
    | inl l ↦ In-append_right a ys (xs ++ zs) (In-append_left a xs zs l)
    | inr r ↦ In-append_both a ys ys zs (xs ++ zs) (λ m. m) (In-append_right a xs zs) r
  ]

  pub SameEntries-swap : (xs ys zs : List A) → SameEntries (xs ++ (ys ++ zs)) (ys ++ (xs ++ zs))
  SameEntries-swap xs ys zs = record {
    into = λ a. In-swap a xs ys zs;
    back = λ a. In-swap a ys xs zs;
  }

  -- Two chains, taken link by link.
  pub SameEntries-merge :
      (xs ys zs xs' ys' zs' : List A)
      → SameEntries (xs ++ ys) zs
      → SameEntries (xs' ++ ys') zs'
      → SameEntries ((xs ++ xs') ++ (ys ++ ys')) (zs ++ zs')
  SameEntries-merge xs ys zs xs' ys' zs' h k = rw append_assoc (
      SameEntries-trans (xs ++ (xs' ++ (ys ++ ys'))) (xs ++ (ys ++ (xs' ++ ys'))) (zs ++ zs')
        (SameEntries-append xs xs (xs' ++ (ys ++ ys')) (ys ++ (xs' ++ ys')) (SameEntries-refl xs)
          (SameEntries-swap xs' ys ys'))
        (subst (λ l. SameEntries l (zs ++ zs')) (append_assoc xs ys (xs' ++ ys'))
          (SameEntries-append (xs ++ ys) zs (xs' ++ ys') zs' h k)))

module _ {A B : Type 0} where
  pub SameEntries-flat_map :
      (f g : A → List B) (xs : List A)
      → SameEntries (flat_map f xs ++ flat_map g xs) (flat_map (λ x. f x ++ g x) xs)
  SameEntries-flat_map f g xs = record {
    into = λ b i. In-flat_map_append f g b xs (In-append b (flat_map f xs) (flat_map g xs) i);
    back = λ b i. elim (flat_map_append-In f g b xs i) [
      | inl l ↦ In-append_left b (flat_map f xs) (flat_map g xs) l
      | inr r ↦ In-append_right b (flat_map f xs) (flat_map g xs) r
    ];
  }
