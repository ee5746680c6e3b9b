-- ===== src/Kernel/Guard.antt =====
-- How the priority cell of a handler, its claims and the registers hang together.
use rtfm.Common.{
  ℕ, ◌≤◌, ◌<◌, ◌^◌, ◌≡◌, refl, ◌⊎◌, inl, inr, Bool, true, false, Bool-cases, List, [], ◌∷◌, In,
  arith, dec_lt,
}
use rtfm.Runtime.Core.{CortexM}
use rtfm.Runtime.Priority.{hw, hw_masks, hw_pos}
use rtfm.Runtime.Mutex.Section.{nested, masked, raised}
use rtfm.Runtime.Mutex.Protects.{IsBlocked}
use rtfm.Kernel.{System, Claim, claimed}

module _ (m : CortexM) {Task Resource : Type 0} (system : System Task Resource m.prio_bits) where
  -- A handler of priority `p` whose cell holds `cell`, with BASEPRI `b` and PRIMASK `mask` while it
  -- runs: without claims the cell holds `p`; each claim has raised the cell to its ceiling, and left
  -- the registers so that they hold back whatever is not above the cell.
  abbrev pub Guard : ℕ → ℕ → ℕ → Bool → List (Claim m Resource) → Type 0
  Guard p cell b mask [] = (cell ≡ p) × (mask ≡ false)
  Guard p cell b mask ((r, current, nested) ∷ cs) =
      (system.ceiling r ≤ cell) × (cell ≡ current) × Guard p current b mask cs
  Guard p cell b mask ((r, current, masked before) ∷ cs) =
      (system.ceiling r ≤ cell)
      × (cell ≡ 255)
      × (current < cell)
      × (mask ≡ true)
      × (m.is_masked before ≡ false)
      × Guard p current b false cs
  Guard p cell b mask ((r, current, raised) ∷ cs) =
      (system.ceiling r ≤ cell)
      × (current < cell)
      × (cell < 2 ^ m.prio_bits)
      × (b ≡ hw m.prio_bits cell)
      × (mask ≡ false)
      × Guard p current (hw m.prio_bits current) false cs

  -- The cell is never below the handler's own priority.
  pub Guard-le :
      (p cell b : ℕ) (mask : Bool) (cs : List (Claim m Resource))
      → Guard p cell b mask cs
      → p ≤ cell
  Guard-le p cell b mask [] g = omega arith
  Guard-le p cell b mask ((r, current, nested) ∷ cs) g =
      omega (arith, Guard-le p current b mask cs g.2)
  Guard-le p cell b mask ((r, current, masked before) ∷ cs) g =
      omega (arith, Guard-le p current b false cs g.5)
  Guard-le p cell b mask ((r, current, raised) ∷ cs) g =
      omega (arith, Guard-le p current (hw m.prio_bits current) false cs g.5)

  -- Nor below the ceiling of anything that is claimed.
  pub Guard-ceiling :
      (p cell b : ℕ) (mask : Bool) (cs : List (Claim m Resource)) (q : Resource)
      → Guard p cell b mask cs
      → In q (claimed cs)
      → system.ceiling q ≤ cell
  Guard-ceiling p cell b mask [] q g i = absurd i
  Guard-ceiling p cell b mask ((r, current, nested) ∷ cs) q g (inl e) = rw (← e) g.0
  Guard-ceiling p cell b mask ((r, current, nested) ∷ cs) q g (inr i) =
      omega (arith, Guard-ceiling p current b mask cs q g.2 i)
  Guard-ceiling p cell b mask ((r, current, masked before) ∷ cs) q g (inl e) = rw (← e) g.0
  Guard-ceiling p cell b mask ((r, current, masked before) ∷ cs) q g (inr i) =
      omega (arith, Guard-ceiling p current b false cs q g.5 i)
  Guard-ceiling p cell b mask ((r, current, raised) ∷ cs) q g (inl e) = rw (← e) g.0
  Guard-ceiling p cell b mask ((r, current, raised) ∷ cs) q g (inr i) =
      omega (arith, Guard-ceiling p current (hw m.prio_bits current) false cs q g.5 i)

  -- With PRIMASK clear, a cell that is above the handler's priority is what BASEPRI holds.
  pub Guard-basepri :
      (p cell b : ℕ) (cs : List (Claim m Resource))
      → Guard p cell b false cs
      → (cell ≡ p) ⊎ ((b ≡ hw m.prio_bits cell) × (0 < cell) × (cell < 2 ^ m.prio_bits))
  Guard-basepri p cell b [] g = inl g.0
  Guard-basepri p cell b ((r, current, nested) ∷ cs) g = rw g.1 (Guard-basepri p current b cs g.2)
  Guard-basepri p cell b ((r, current, masked before) ∷ cs) g = cc
  Guard-basepri p cell b ((r, current, raised) ∷ cs) g = inr (g.3, omega arith, g.2)

  -- Writing the value of the cell to BASEPRI, as a release does, keeps the relation.
  pub Guard-rebase :
      (p cell b : ℕ) (cs : List (Claim m Resource))
      → Guard p cell b false cs
      → Guard p cell (hw m.prio_bits cell) false cs
  Guard-rebase p cell b [] g = g
  Guard-rebase p cell b ((r, current, nested) ∷ cs) g =
      (g.0, g.1, rw g.1 (Guard-rebase p current b cs g.2))
  Guard-rebase p cell b ((r, current, masked before) ∷ cs) g = cc
  Guard-rebase p cell b ((r, current, raised) ∷ cs) g = (g.0, g.1, g.2, refl, g.4, g.5)

  -- With PRIMASK set the cell holds the highest number there is.
  pub Guard-masked :
      (p cell b : ℕ) (cs : List (Claim m Resource)) → Guard p cell b true cs → cell ≡ 255
  Guard-masked p cell b [] g = cc
  Guard-masked p cell b ((r, current, nested) ∷ cs) g = rw g.1 (Guard-masked p current b cs g.2)
  Guard-masked p cell b ((r, current, masked before) ∷ cs) g = g.1
  Guard-masked p cell b ((r, current, raised) ∷ cs) g = cc

  -- A handler that the core does start is above the cell of the one that it preempts.
  pub Guard-start :
      (core : m.Core) (p cell q : ℕ) (cs : List (Claim m Resource))
      → Guard p cell (m.read_basepri core) (m.is_masked core) cs
      → p < q
      → q ≤ 2 ^ m.prio_bits
      → ¬ (IsBlocked m core q)
      → (cell < q) × (m.is_masked core ≡ false)
  Guard-start core p cell q cs g pq k free = elim (Bool-cases (m.is_masked core)) [
    | inl e ↦ absurd (free (inl e))
    | inr e ↦ (above (Guard-basepri p cell (m.read_basepri core) cs (rw e at g)), e)
  ]
    where
      above :
          (cell ≡ p)
            ⊎ ((m.read_basepri core ≡ hw m.prio_bits cell) × (0 < cell) × (cell < 2 ^ m.prio_bits))
          → cell < q
      above (inl e) = omega arith
      above (inr (e, c0, ck)) = elim (dec_lt cell q) [
        | yes lt ↦ lt
        | no ge ↦ absurd (
            free (
              inr (
                rw e (
                  hw_pos m.prio_bits system.bits_pos system.bits_lt cell c0 ck,
                  (hw_masks m.prio_bits q cell system.bits_pos system.bits_lt (omega arith) k c0
                        ck).1
                      (omega arith),
                ))))
      ]
