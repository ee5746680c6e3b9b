-- ===== src/Macro/Codegen/Prelude.antt =====
-- The resources of a context in `prelude` of macros/src/codegen.rs: for each name a field of the
-- generated structure `Resources`, with its type and the expression that initializes it.
use rtfm.Common.{
  ℕ, Bool, true, false, not, ◌||◌, List, [], ◌∷◌, lookup, contains_key, string_eq, Outcome, ok,
  ◌>>=◌, expect, if◌then◌else◌,
}
use rtfm.Macro.Syntax.{App, Ident, Idents, Resource}
use rtfm.Macro.Check.{is_none}
use rtfm.Macro.Analyze.{Analysis, needs_lock}
use rtfm.Macro.Codegen.Kind.{Kind, is_init, runs_once}

pub data Lifetime : Type 0 where
  static : Lifetime
  local : Lifetime

-- The type of a field; the base type is the name of a singleton, and the declared type otherwise.
pub data FieldType : Type 0 where
  owned_value : FieldType
  reference : Lifetime → Bool → FieldType
  proxy_type : FieldType

-- The flag of a reference says whether it is `&mut`.
pub data FieldExpr : Type 0 where
  -- `<name as Singleton>::new()`, and a reference to it.
  singleton_new : FieldExpr
  to_singleton : Bool → FieldExpr
  -- `resources::name { priority }`.
  proxy : FieldExpr
  -- `& alias` or `&mut alias`.
  to_static : Bool → FieldExpr
  -- `alias.get_mut()` and `alias.get_ref()`.
  get_mut : FieldExpr
  get_ref : FieldExpr

pub record Field : Type 0 where
  pub name : Ident
  pub ty : FieldType
  pub expr : FieldExpr
  pub needs_unsafe : Bool
  pub may_call_lock : Bool

abbrev pub a_field : Ident → FieldType → FieldExpr → Bool → Bool → Field
a_field name ty expr needs_unsafe may_call_lock = record {
  name = name;
  ty = ty;
  expr = expr;
  needs_unsafe = needs_unsafe;
  may_call_lock = may_call_lock;
}

-- A field of `init`.
unfoldable pub init_field : Analysis → Ident → Resource → Field
init_field analysis name res =
    if not (contains_key name analysis.ownerships)
    then (if res.singleton
        then a_field name owned_value singleton_new true false
        else a_field name (reference static res.mutability) (to_static res.mutability) false false)
    else (if res.singleton
        then a_field name (reference local true) (to_singleton true) true false
        else a_field name (reference local true) (to_static true) true false)

-- The reference to the `static mut` of a resource that is no singleton.
unfoldable pub static_expr : Resource → FieldExpr
static_expr res =
    if not (is_none res.expr)
    then to_static res.mutability
    else (if res.mutability then get_mut else get_ref)

abbrev pub lifetime : Kind → Lifetime
lifetime kind = if runs_once kind then static else local

-- A field of another context, which has to lock the resource or not.
unfoldable pub locked_field : Ident → Resource → Field
unfolding static_expr
locked_field name res =
    if res.mutability
    then a_field name proxy_type proxy false true
    else (if res.singleton
        then a_field name (reference local false) (to_singleton false) true true
        else a_field name (reference local false) (static_expr res) true true)

unfoldable pub direct_field : Kind → Ident → Resource → Field
unfolding static_expr runs_once
direct_field kind name res =
    if res.singleton
    then (if runs_once kind
        then a_field name owned_value singleton_new true false
        else a_field name (reference local true) (to_singleton true) true false)
    else a_field name (reference (lifetime kind) res.mutability) (static_expr res) true false

-- One round of the loop over the resources of a context that runs at `logical_prio`.
unfoldable pub field : Bool → Kind → App → ℕ → Analysis → Ident → Outcome Field
unfolding is_init init_field locked_field direct_field
field debug kind app logical_prio analysis name = do
  res ← expect (lookup name app.resources)
  if is_init kind then ok (init_field analysis name res) else (do
    ownership ← expect (lookup name analysis.ownerships)
    lock ← needs_lock debug ownership logical_prio
    ok (if lock then locked_field name res else direct_field kind name res))

unfoldable pub fields : Bool → Kind → App → ℕ → Analysis → Idents → Outcome (List Field)
unfolding field
fields debug kind app logical_prio analysis [] = ok []
fields debug kind app logical_prio analysis (name ∷ resources) = do
  f ← field debug kind app logical_prio analysis name
  fs ← fields debug kind app logical_prio analysis resources
  ok (f ∷ fs)

-- Whether the initializer stands in an `unsafe` block, and whether `Mutex` is brought into scope.
unfoldable pub needs_unsafe : List Field → Bool
needs_unsafe [] = false
needs_unsafe (f ∷ fs) = f.needs_unsafe || needs_unsafe fs

unfoldable pub may_call_lock : List Field → Bool
may_call_lock [] = false
may_call_lock (f ∷ fs) = f.may_call_lock || may_call_lock fs
