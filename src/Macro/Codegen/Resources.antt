-- ===== src/Macro/Codegen/Resources.antt =====
-- `resources` of macros/src/codegen.rs: the static of each resource, and the proxy with its ceiling
-- for those that have to be locked.
use rtfm.Common.{ℕ, List, [], ◌∷◌, Option, none, some, lookup, string_eq, if◌then◌else◌}
use rtfm.Macro.Syntax.{App, Ident, Resource, Resources}
use rtfm.Macro.Check.{is_none}
use rtfm.Macro.Analyze.{Analysis, Ownership, Ownerships, owned, shared}

pub data Storage : Type 0 where
  -- `pub static mut name: ty = expr`, of the singleton's name.
  singleton_static : Storage
  -- `static mut alias: ty = expr`.
  plain_static : Storage
  -- `static mut alias: MaybeUninit<ty> = MaybeUninit::uninitialized()`.
  late_static : Storage

-- What a proxy's `ptr` returns.
pub data Pointer : Type 0 where
  new_singleton : Pointer
  late_get_mut : Pointer
  static_mut : Pointer

-- `mk_resource`: the implementation of `Mutex` for `resources::name`.
pub record Proxy : Type 0 where
  pub ceiling : ℕ
  pub ptr : Pointer

pub record Generated : Type 0 where
  pub name : Ident
  pub storage : Storage
  pub proxy : Option Proxy

-- `if let Some(Ownership::Shared { ceiling }) = analysis.ownerships.get(name)`.
abbrev pub shared_ceiling : Option Ownership → Option ℕ
shared_ceiling none = none
shared_ceiling (some (owned priority)) = none
shared_ceiling (some (shared ceiling)) = some ceiling

abbrev pub with_ptr : Pointer → Option ℕ → Option Proxy
with_ptr ptr none = none
with_ptr ptr (some ceiling) = some (record { ceiling = ceiling; ptr = ptr })

unfoldable pub resource : Ownerships → Ident × Resource → Generated
resource ownerships (name, res) =
    let ceiling = shared_ceiling (lookup name ownerships) in
    if res.singleton
    then record { name = name; storage = singleton_static; proxy = with_ptr new_singleton ceiling }
    else record {
      name = name;
      storage = if is_none res.expr then late_static else plain_static;
      proxy =
          if res.mutability
          then with_ptr (if is_none res.expr then late_get_mut else static_mut) ceiling
          else none;
    }

unfoldable pub resources_of : Ownerships → Resources → List Generated
unfolding resource
resources_of ownerships [] = []
resources_of ownerships (r ∷ rs) = resource ownerships r ∷ resources_of ownerships rs

unfoldable pub resources : App → Analysis → List Generated
unfolding resources_of
resources app analysis = resources_of analysis.ownerships app.resources
