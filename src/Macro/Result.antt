-- ===== src/Macro/Result.antt =====
-- `parse::Result`, with the panics of `expect`, `unwrap` and checked arithmetic beside it.
use rtfm.Common.{
  ℕ, ◌≡◌, refl, ◌≢◌, Bool, true, false, Option, none, some, List, [], ◌∷◌, String, All, In, All-In,
  In-All, ap, arith,
}

-- The errors by their texts; a name is that of the span which the error points at.
pub data Error : Type 0 where
  -- macros/src/check.rs
  resource_undeclared : String → Error
  late_assigned_to_init : String → Error
  late_uninitialized : String → Error
  task_undeclared : String → Error
  interrupts_required : ℕ → Error
  free_interrupt_used : String → Error
  -- macros/src/syntax.rs
  must_appear_once : String → Error
  defined_multiple_times : String → Error
  must_live_outside : String → Error
  listed_twice : String → Error
  extern_at_most_once : Error
  wrong_signature : String → Error
  inputs_must_be_named : String → Error
  resource_must_be_private : String → Error
  extern_only_functions : Error
  argument_repeated : String → Error
  element_repeated : String → Error
  unexpected_key : String → Error
  timer_queue_required : String → Error
  must_be_unsuffixed : Error
  out_of_range : Error
  argument_missing : String → Error
  syntax_error : Error

pub data Result {ℓ} (A : Type ℓ) : Type ℓ where
  ok : A → Result A
  err : Error → Result A
  panic : Result A

infixl 5 ◌>>=◌ ◌>>◌
abbrev pub ◌>>=◌ {ℓ κ} : {A : Type ℓ} {B : Type κ} → Result A → (A → Result B) → Result B
ok a >>= f = f a
err e >>= f = err e
panic >>= f = panic

abbrev pub ◌>>◌ {ℓ} : {B : Type ℓ} → Result (Unit {0}) → Result B → Result B
m >> k = m >>= λ _. k

-- `if !condition { return Err(..) }`.
abbrev pub ensure : Bool → Error → Result (Unit {0})
ensure true e = ok tt
ensure false e = err e

abbrev pub expect {ℓ} : {A : Type ℓ} → Option A → Result A
expect (some a) = ok a
expect none = panic

-- A `for` loop whose body may return an error.
abbrev pub for_each : {A : Type 0} → (A → Result (Unit {0})) → List A → Result (Unit {0})
for_each f [] = ok tt
for_each f (x ∷ xs) = f x >> for_each f xs

pub ensure-eq-ok : (b : Bool) (e : Error) → ensure b e ≡ ok tt → b ≡ true
ensure-eq-ok true e h = refl
ensure-eq-ok false e h = cc

pub ensure-ne-panic : (b : Bool) (e : Error) → ensure b e ≢ panic
ensure-ne-panic true e h = cc
ensure-ne-panic false e h = cc

module _ {A : Type 0} (f : A → Result (Unit {0})) where
  pub for_each→All : (xs : List A) → for_each f xs ≡ ok tt → All (λ x. f x ≡ ok tt) xs
  for_each→All [] h = tt
  for_each→All (x ∷ xs) h = (ground arith, for_each→All xs (ground arith))

  pub All→for_each : (xs : List A) → All (λ x. f x ≡ ok tt) xs → for_each f xs ≡ ok tt
  All→for_each [] h = refl
  All→for_each (x ∷ xs) h = ground (arith, All→for_each xs h.1)

  pub for_each-ne-panic : (xs : List A) → All (λ x. f x ≢ panic) xs → for_each f xs ≢ panic
  for_each-ne-panic [] h e = cc
  for_each-ne-panic (x ∷ xs) h e = ground (arith, h.0, for_each-ne-panic xs h.1)

pub >>-eq-ok {ℓ} :
    {B : Type ℓ} (m : Result (Unit {0})) (k : Result B) {b : B}
    → (m >> k) ≡ ok b
    → (m ≡ ok tt) × (k ≡ ok b)
>>-eq-ok (ok tt) k h = (refl, h)
>>-eq-ok (err e) k h = cc
>>-eq-ok panic k h = cc

pub >>-ne-panic {ℓ} :
    {B : Type ℓ} (m : Result (Unit {0})) (k : Result B)
    → m ≢ panic
    → (m ≡ ok tt → k ≢ panic)
    → (m >> k) ≢ panic
>>-ne-panic (ok u) k h g e = g refl e
>>-ne-panic (err x) k h g e = cc
>>-ne-panic panic k h g e = h refl

module _ {A : Type 0} (b : A → Bool) (e : A → Error) where
  -- A loop of checks passes just if every check holds, and never panics.
  pub ensure_all→ :
      (xs : List A) → for_each (λ x. ensure (b x) (e x)) xs ≡ ok tt → (x : A) → In x xs → b x ≡ true
  ensure_all→ xs h x i = ensure-eq-ok (b x) (e x) (
      All-In (λ x. ensure (b x) (e x) ≡ ok tt) xs (for_each→All (λ x. ensure (b x) (e x)) xs h) x i)

  pub ensure_all← :
      (xs : List A)
      → ((x : A) → In x xs → b x ≡ true)
      → for_each (λ x. ensure (b x) (e x)) xs ≡ ok tt
  ensure_all← xs h =
      All→for_each (λ x. ensure (b x) (e x)) xs
        (In-All (λ x. ensure (b x) (e x) ≡ ok tt) xs (λ x i. ap (λ c. ensure c (e x)) (h x i)))

  pub ensure_all-ne-panic : (xs : List A) → for_each (λ x. ensure (b x) (e x)) xs ≢ panic
  ensure_all-ne-panic xs =
      for_each-ne-panic (λ x. ensure (b x) (e x)) xs
        (In-All (λ x. ensure (b x) (e x) ≢ panic) xs (λ x i. ensure-ne-panic (b x) (e x)))

-- A chain that succeeds, taken apart.
pub >>=-eq-ok {ℓ κ} :
    {A : Type ℓ} {B : Type κ} (first : Result A) (next : A → Result B) {last : B}
    → (first >>= next) ≡ ok last
    → (between : A) × (first ≡ ok between) × (next between ≡ ok last)
>>=-eq-ok panic next chain = cc
>>=-eq-ok (err e) next chain = cc
>>=-eq-ok (ok between) next chain = (between, refl, chain)

pub ok-injective {ℓ} : {A : Type ℓ} {a b : A} → ok a ≡ ok b → a ≡ b
ok-injective h = cc

pub >>=-ne-panic :
    {A B : Type 0} (m : Result A) (f : A → Result B)
    → m ≢ panic
    → ((a : A) → m ≡ ok a → f a ≢ panic)
    → (m >>= f) ≢ panic
>>=-ne-panic (ok a) f h g e = g a refl e
>>=-ne-panic (err x) f h g e = cc
>>=-ne-panic panic f h g e = h refl
