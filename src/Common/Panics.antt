-- ===== src/Common/Panics.antt =====
-- A computation that may panic, as Rust's `assert!`, `expect` and checked arithmetic do.
use mathlib.Core.Path.{◌≡◌, refl, ap}
use mathlib.Core.Bool.{Bool, true, false}
use mathlib.Core.Option.{Option, none, some}
use rtfm.Common.Tests.{if◌then◌else◌}

pub data Outcome {ℓ} (A : Type ℓ) : Type ℓ where
  ok : A → Outcome A
  panic : Outcome A

infixl 5 ◌>>=◌ ◌>>◌
abbrev pub ◌>>=◌ {ℓ κ} : {A : Type ℓ} {B : Type κ} → Outcome A → (A → Outcome B) → Outcome B
ok a >>= f = f a
panic >>= f = panic

abbrev pub ◌>>◌ {ℓ} : {B : Type ℓ} → Outcome (Unit {0}) → Outcome B → Outcome B
m >> k = m >>= λ _. k

-- `assert!`.
abbrev pub assert : Bool → Outcome (Unit {0})
assert true = ok tt
assert false = panic

-- `expect` and `unwrap`, and the index of a map.
abbrev pub expect {ℓ} : {A : Type ℓ} → Option A → Outcome A
expect (some a) = ok a
expect none = panic

pub >>=-eq-ok {ℓ κ} :
    {A : Type ℓ} {B : Type κ} (first : Outcome A) (next : A → Outcome B) {last : B}
    → (first >>= next) ≡ ok last
    → (between : A) × (first ≡ ok between) × (next between ≡ ok last)
>>=-eq-ok panic next chain = cc
>>=-eq-ok (ok between) next chain = (between, refl, chain)

pub >>=_assoc {ℓ κ μ} :
    {A : Type ℓ} {B : Type κ} {C : Type μ} (m : Outcome A) (f : A → Outcome B) (g : B → Outcome C)
    → (m >>= f >>= g) ≡ (m >>= λ a. f a >>= g)
>>=_assoc (ok a) f g = refl
>>=_assoc panic f g = refl

pub if->>= {ℓ κ} :
    {A : Type ℓ} {B : Type κ} (b : Bool) (x y : Outcome A) (f : A → Outcome B)
    → ((if b then x else y) >>= f) ≡ (if b then x >>= f else (y >>= f))
if->>= true x y f = refl
if->>= false x y f = refl

pub >>=-ok {ℓ} : {A : Type ℓ} (m : Outcome A) → (m >>= λ a. ok a) ≡ m
>>=-ok (ok a) = refl
>>=-ok panic = refl

pub ruleset outcome_laws = (>>=_assoc, if->>=, >>=-ok)

abbrev or_else {ℓ} : {A : Type ℓ} → A → Outcome A → A
or_else d (ok a) = a
or_else d panic = d

pub ok-injective {ℓ} : {A : Type ℓ} {a b : A} → ok a ≡ ok b → a ≡ b
ok-injective {a} e = ap (or_else a) e

pub expect→ {ℓ} : {A : Type ℓ} (o : Option A) (a : A) → expect o ≡ ok a → o ≡ some a
expect→ (some b) a e = ap some (ok-injective e)
expect→ none a e = cc

pub some_injective {ℓ} : {A : Type ℓ} {a b : A} → some a ≡ some b → a ≡ b
some_injective e = cc

-- What does not panic returns.
pub returns {ℓ} : {A : Type ℓ} (o : Outcome A) → ¬ (o ≡ panic) → (a : A) × (o ≡ ok a)
returns (ok a) h = (a, refl)
returns panic h = absurd (h refl)
