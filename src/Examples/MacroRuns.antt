-- ===== src/Examples/MacroRuns.antt =====
-- The theorems on the macro at the example application.
use rtfm.Common.{
  ltb, ◌≡◌, refl, true, false, [], ◌∷◌, some, ok, lookup, In, inl, ◌⊎◌, ◌↔◌, string_eq,
}
use rtfm.Macro.Syntax.{Ident, resource_accesses, spawn_calls}
use rtfm.Macro.Result.{Result}
use rtfm.Macro.Check.{check}
use rtfm.Macro.Check.Sound.{IsWellFormed}
use rtfm.Macro.Check.Decides.{check-IsWellFormed}
use rtfm.Macro.Analyze.{needs_lock, Analysis, analyze, ceiling_of, Ownership}
use rtfm.Macro.Analyze.Ceilings.{Explains, analyze-Explains}
use rtfm.Macro.Analyze.Queues.{QueueCeilings, analyze-QueueCeilings}
use rtfm.Macro.Analyze.Sends.{CrossSpawned, analyze-needs_send}
use rtfm.Macro.Analyze.Locks.{analyze-needs_lock}
use rtfm.Macro.Analyze.Total.{analyze_total}
use rtfm.Examples.Blinky.{blinky, blinky_analysis, blinky_done, blinky-IsWellFormed}

check-IsWellFormed_example : (check blinky ≡ Result.ok tt) ↔ IsWellFormed blinky
check-IsWellFormed_example = check-IsWellFormed blinky

analyze_total_example : (a : Analysis) × (analyze false blinky ≡ ok a)
analyze_total_example = analyze_total blinky blinky-IsWellFormed

analyze-Explains_example :
    Explains (lookup "count" blinky_analysis.ownerships) "count" (resource_accesses blinky)
analyze-Explains_example = analyze-Explains true blinky blinky_analysis (blinky_done true) "count"

analyze-QueueCeilings_example : QueueCeilings blinky blinky_analysis
analyze-QueueCeilings_example = analyze-QueueCeilings true blinky blinky_analysis (blinky_done true)

abbrev log : Ident
log = "log"

analyze-needs_send_example :
    In log blinky_analysis.needs_send
    ↔ (In log ("blink" ∷ []) ⊎ CrossSpawned blinky.tasks (spawn_calls blinky) log)
analyze-needs_send_example = analyze-needs_send true blinky blinky_analysis (blinky_done true) log

count_accessed : In (0, "count") (resource_accesses blinky)
unfolding resource_accesses
count_accessed = inl refl

analyze-needs_lock_example :
    (o : Ownership) × (lookup "count" blinky_analysis.ownerships ≡ some o)
    × (needs_lock true o 0 ≡ ok (ltb 0 (ceiling_of o)))
analyze-needs_lock_example =
    analyze-needs_lock true true blinky blinky_analysis (blinky_done true) 0 "count" count_accessed
