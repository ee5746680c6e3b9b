-- ===== src/Kernel.antt =====
-- Tasks that preempt one another around the critical sections of `Mutex::claim`: the stack of
-- handlers, as a step relation. The steps of the core are those that the architecture documents:
-- a handler starts if its priority is above that of the running handler and neither PRIMASK nor
-- BASEPRI holds it back. The steps of a handler are `run` (src/export.rs), which each generated
-- handler is wrapped in, and the two ends of `claim` (src/lib.rs).
pub mod Guard
pub mod Preserve
pub mod Exclusion
pub mod Progress
pub mod Hardware
pub mod Application
pub mod Started
use rtfm.Common.{ℕ, ◌+◌, ◌≤◌, ◌<◌, ◌^◌, ◌≡◌, Bool, true, false, List, [], ◌∷◌, Outcome, ok, ◌⊎◌, In}
use rtfm.Runtime.Core.{CortexM}
use rtfm.Runtime.Mutex.{Context}
use rtfm.Runtime.Mutex.Section.{Nesting, enter, leave}
use rtfm.Runtime.Mutex.Protects.{IsBlocked}

-- What the macro fixes of an application: priorities, ceilings and who lists which resource.
pub record System (Task Resource : Type 0) (prio_bits : ℕ) : Type 0 where
  pub priority : Task → ℕ
  pub ceiling : Resource → ℕ
  pub accesses : Task → Resource → Bool
  pub bits_pos : 0 < prio_bits
  pub bits_lt : prio_bits < 8
  pub priority_le : (t : Task) → priority t ≤ 2 ^ prio_bits
  pub ceiling_le : (r : Resource) → ceiling r ≤ 2 ^ prio_bits
  pub priority_le_ceiling : (t : Task) (r : Resource) → accesses t r ≡ true → priority t ≤ ceiling r

module _ (m : CortexM) (Resource : Type 0) where
  -- A claim that a handler is in: its resource, the priority that it will put back, and what it
  -- has to undo.
  abbrev pub Claim : Type 0
  Claim = Resource × ℕ × Nesting m

module _ {m : CortexM} {Resource : Type 0} where
  abbrev pub claimed : List (Claim m Resource) → List Resource
  claimed [] = []
  claimed ((r, current, nesting) ∷ cs) = r ∷ claimed cs

module _ (m : CortexM) (Task Resource : Type 0) where
  -- A handler that has started: its priority cell, the BASEPRI that `run` found, and its claims,
  -- innermost first.
  pub record Frame : Type 0 where
    pub task : Task
    pub cell : ℕ
    pub initial : ℕ
    pub claims : List (Claim m Resource)

  -- The running handler is the first frame; the last one is `main`.
  pub record Machine : Type 0 where
    pub core : m.Core
    pub frames : List Frame

module _ {m : CortexM} {Task Resource : Type 0} where
  abbrev pub context : m.Core → Frame m Task Resource → Context m (Unit {0})
  context core f = record { priority = f.cell; core = core; memory = tt }

module _ (m : CortexM) {Task Resource : Type 0} (system : System Task Resource m.prio_bits) where
  -- After `init`: `main` runs `idle`, interrupts are enabled and BASEPRI masks nothing.
  pub record IsBoot (s : Machine m Task Resource) : Type 0 where
    pub idle : Task
    pub idle_priority : system.priority idle ≡ 0
    pub unmasked : m.is_masked s.core ≡ false
    pub one_frame : s.frames ≡ record { task = idle; cell = 0; initial = 0; claims = [] } ∷ []

  -- The handler may use the resource: it lists it, and it either has direct access, since its
  -- priority is the ceiling, or is inside a claim.
  abbrev pub Holds : Frame m Task Resource → Resource → Type 0
  Holds f r =
      (system.accesses f.task r ≡ true)
      × ((system.ceiling r ≤ system.priority f.task) ⊎ In r (claimed f.claims))

module _ (m : CortexM) {Task Resource : Type 0} (system : System Task Resource m.prio_bits)
    (debug : Bool) where
  pub data Step (s u : Machine m Task Resource) : Type 0 where
    start :
        (t : Task) (f : Frame m Task Resource) (fs : List (Frame m Task Resource))
        → s.frames ≡ f ∷ fs
        → 0 < system.priority t
        → system.priority f.task < system.priority t
        → ¬ (IsBlocked m s.core (system.priority t))
        → u ≡ record {
          core = s.core;
          frames =
              record {
                task = t;
                cell = system.priority t;
                initial = m.read_basepri s.core;
                claims = [];
              }
              ∷ f
              ∷ fs;
        }
        → Step s u
    claim :
        (r : Resource) (f : Frame m Task Resource) (fs : List (Frame m Task Resource))
        (n : Nesting m) (c : Context m (Unit {0}))
        → s.frames ≡ f ∷ fs
        → system.accesses f.task r ≡ true
        → enter m debug (system.ceiling r) (context s.core f) ≡ ok (n, c)
        → u ≡ record {
          core = c.core;
          frames = record f { cell = c.priority; claims = (r, f.cell, n) ∷ f.claims } ∷ fs;
        }
        → Step s u
    release :
        (r : Resource) (current : ℕ) (n : Nesting m) (cs : List (Claim m Resource))
        (f : Frame m Task Resource) (fs : List (Frame m Task Resource)) (c : Context m (Unit {0}))
        → s.frames ≡ f ∷ fs
        → f.claims ≡ (r, current, n) ∷ cs
        → leave m debug current n (context s.core f) ≡ ok c
        → u ≡ record { core = c.core; frames = record f { cell = c.priority; claims = cs } ∷ fs }
        → Step s u
    finish :
        (f g : Frame m Task Resource) (fs : List (Frame m Task Resource))
        → s.frames ≡ f ∷ g ∷ fs
        → f.claims ≡ []
        → u ≡ record { core = m.write_basepri f.initial s.core; frames = g ∷ fs }
        → Step s u

  pub data Reach (s : Machine m Task Resource) : Machine m Task Resource → Type 0 where
    here : Reach s s
    next : {t u : Machine m Task Resource} → Reach s t → Step t u → Reach s u
