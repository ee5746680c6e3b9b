-- ===== src/Macro/Syn.antt =====
-- The syntax trees of the `syn` crate, as far as macros/src/syntax.rs takes them apart. What it
-- only carries along is a text.
use rtfm.Common.{
  String, List, [], ◌∷◌, Bool, true, false, ◌&&◌, Eq, ◌==◌, string_eq, ◌≡◌, refl, ap, ◌↔◌, arith,
}

pub data Attribute : Type 0 where
  -- An outer attribute whose path has no arguments: the segments, and the tokens behind them.
  outer : List String → String → Attribute
  -- Any other: an inner one, or one with arguments in its path.
  other_attribute : String → Attribute

pub data SynType : Type 0 where
  never : SynType
  tuple_type : List String → SynType
  other_type : String → SynType

pub data ReturnType : Type 0 where
  default_return : ReturnType
  returns : SynType → ReturnType

pub data Expr : Type 0 where
  tuple : List String → Expr
  -- A path, by its segments.
  path : List String → Expr
  assign : Expr → Expr → Expr
  other_expr : String → Expr

pub record ItemStatic : Type 0 where
  pub attrs : List Attribute
  pub is_inherited : Bool
  pub mutability : Bool
  pub ident : String
  pub ty : SynType
  pub expr : Expr

pub data Stmt : Type 0 where
  item_static : ItemStatic → Stmt
  -- An expression with a semicolon.
  semi : Expr → Stmt
  other_stmt : String → Stmt

pub data FnArg : Type 0 where
  captured : String → SynType → FnArg
  other_arg : String → FnArg

-- A function, or with an empty block a function of an `extern` block. The flags say whether the
-- visibility is inherited and which of the other parts are there.
pub record ItemFn : Type 0 where
  pub attrs : List Attribute
  pub is_inherited : Bool
  pub constness : Bool
  pub asyncness : Bool
  pub abi : Bool
  pub ident : String
  pub generic_params : Bool
  pub where_clause : Bool
  pub inputs : List FnArg
  pub variadic : Bool
  pub output : ReturnType
  pub block : List Stmt

pub data ForeignItem : Type 0 where
  foreign_fn : ItemFn → ForeignItem
  other_foreign : String → ForeignItem

pub data Item : Type 0 where
  item_fn : ItemFn → Item
  static_item : ItemStatic → Item
  foreign_mod : List ForeignItem → Item
  other_item : String → Item

texts_beq : List String → List String → Bool
texts_beq [] [] = true
texts_beq (x ∷ xs) (y ∷ ys) = (x == y) && texts_beq xs ys
texts_beq xs ys = false

texts_beq_iff : (xs ys : List String) → (texts_beq xs ys ≡ true) ↔ (xs ≡ ys)
unfolding texts_beq
texts_beq_iff [] [] = (λ h. refl, λ h. refl)
texts_beq_iff [] (y ∷ ys) = (λ h. cc, λ h. cc)
texts_beq_iff (x ∷ xs) [] = (λ h. cc, λ h. cc)
texts_beq_iff (x ∷ xs) (y ∷ ys) = (
  λ h. ground (arith, string_eq.beq_iff x y, texts_beq_iff xs ys),
  λ h. ground (arith, string_eq.beq_iff x y, texts_beq_iff xs ys),
)

pub type_beq : SynType → SynType → Bool
unfolding texts_beq
type_beq never never = true
type_beq (tuple_type xs) (tuple_type ys) = texts_beq xs ys
type_beq (other_type x) (other_type y) = x == y
type_beq a b = false

pub type_beq_iff : (a b : SynType) → (type_beq a b ≡ true) ↔ (a ≡ b)
unfolding type_beq
type_beq_iff never never = (λ h. refl, λ h. refl)
type_beq_iff never (tuple_type ys) = (λ h. cc, λ h. cc)
type_beq_iff never (other_type y) = (λ h. cc, λ h. cc)
type_beq_iff (tuple_type xs) never = (λ h. cc, λ h. cc)
type_beq_iff (tuple_type xs) (tuple_type ys) =
    (λ h. ap tuple_type ((texts_beq_iff xs ys).0 h), λ h. ground (arith, texts_beq_iff xs ys))
type_beq_iff (tuple_type xs) (other_type y) = (λ h. cc, λ h. cc)
type_beq_iff (other_type x) never = (λ h. cc, λ h. cc)
type_beq_iff (other_type x) (tuple_type ys) = (λ h. cc, λ h. cc)
type_beq_iff (other_type x) (other_type y) =
    (λ h. ap other_type ((string_eq.beq_iff x y).0 h), λ h. ground (arith, string_eq.beq_iff x y))

-- `==` on `syn::Type`.
instance abbrev pub type_eq : Eq SynType
unfolding type_beq
type_eq = record { beq = type_beq; beq_iff = type_beq_iff }
