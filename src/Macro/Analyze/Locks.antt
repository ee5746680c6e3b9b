-- ===== src/Macro/Analyze/Locks.antt =====
-- Which accesses need a lock.
use rtfm.Common.{ℕ, ◌≡◌, refl, Bool, Option, none, some, In, lookup, ok, arith, string_eq, ltb}
use rtfm.Macro.Syntax.{App, Ident, resource_accesses}
use rtfm.Macro.Analyze.{Analysis, Ownership, owned, shared, ceiling_of, needs_lock, analyze}
use rtfm.Macro.Analyze.Ceilings.{Explains, analyze-Explains}

-- If the analysis returns, `needs_lock` says of each access to a resource whether its priority is
-- below the ceiling, and its `debug_assert` holds.
pub analyze-needs_lock :
    (debug debug' : Bool) (app : App) (a : Analysis)
    → analyze debug app ≡ ok a
    → (p : ℕ) (r : Ident) → In (p, r) (resource_accesses app)
    → (o : Ownership) × (lookup r a.ownerships ≡ some o)
      × (needs_lock debug' o p ≡ ok (ltb p (ceiling_of o)))
unfolding needs_lock
analyze-needs_lock debug debug' app a h p r i =
    go (lookup r a.ownerships) refl (analyze-Explains debug app a h r)
  where
    go :
        (o : Option Ownership)
        → lookup r a.ownerships ≡ o
        → Explains o r (resource_accesses app)
        → (o : Ownership) × (lookup r a.ownerships ≡ some o)
          × (needs_lock debug' o p ≡ ok (ltb p (ceiling_of o)))
    go none e x = absurd (x p i)
    go (some (owned c)) e x = (owned c, e, ground (arith, x.1 p i))
    go (some (shared c)) e x = (shared c, e, ground (arith, x.1 p i))
