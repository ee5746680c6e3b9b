-- ===== src/Messages/Ownership.antt =====
-- Each slot of a task is in exactly one place, and what is written in it is what the call that took
-- it was given.
pub mod Queues
pub mod Full
pub mod Sending
pub mod Queueing
pub mod Receiving
pub mod Initial
pub mod Reached
pub mod Safe
use rtfm.Common.{
  ℕ, ◌+◌, ◌<◌, ◌≡◌, Bool, true, false, ◌&&◌, Option, none, some, List, [], ◌∷◌, In, Eq, ◌==◌,
  nat_eq, ltb, if◌then◌else◌,
}
use rtfm.Runtime.TimerQueue.{BinaryHeap, SysTick, NotReady}
use rtfm.Macro.Syntax.{Ident}
use rtfm.Messages.{Layout, Slot, slot_eq, Message, Store}
use rtfm.Messages.Queue.{Spsc, Entries, count_if}
use rtfm.Messages.Steps.{Stage, taken, filled, stamped, Phase, waiting, popped, loaded, Machine}
use rtfm.Messages.Count.{one, count}

abbrev stage_eq : Stage → Stage → Bool
stage_eq taken taken = true
stage_eq filled filled = true
stage_eq stamped stamped = true
stage_eq a b = false

-- A call at the stage whose slot this is.
abbrev pub is_call : Stage → Slot → Slot × Stage → Bool
is_call stage x c = stage_eq c.1 stage && (c.0 == x)

abbrev pub nr_slot : NotReady Ident → Slot
nr_slot nr = (nr.task, nr.index)

module _ {F : Spsc ℕ} {R : Spsc Slot} {S : SysTick} {H : BinaryHeap (NotReady Ident)}
    {Input : Type 0} where
  abbrev pub in_free : Store F R S H Input → Slot → ℕ
  in_free s x = count x.1 (F.items (s.free x.0))

  abbrev pub in_ready : Layout → Store F R S H Input → Slot → ℕ
  in_ready layout s x = count x (R.items (s.ready (layout.level x.0)))

  abbrev pub in_calls : Stage → Machine F R S H Input → Slot → ℕ
  in_calls stage s x = count_if (is_call stage x) s.calls

abbrev pub in_option : Option Slot → Slot → ℕ
in_option none x = 0
in_option (some y) x = one y x

module _ {Input : Type 0} where
  abbrev pub in_popped : Phase Input → Slot → ℕ
  in_popped waiting x = 0
  in_popped (popped y) x = one y x
  in_popped (loaded y m) x = 0

  abbrev pub in_loaded : Phase Input → Slot → ℕ
  in_loaded waiting x = 0
  in_loaded (popped y) x = 0
  in_loaded (loaded y m) x = one y x

module _ {F : Spsc ℕ} {R : Spsc Slot} {S : SysTick} {H : BinaryHeap (NotReady Ident)}
    {Input : Type 0} (layout : Layout) (E : Entries H layout.timer_capacity) where
  abbrev pub in_timer : Store F R S H Input → Slot → ℕ
  in_timer s x = count_if (λ nr. nr_slot nr == x) (E.entries s.timer.queue)

  -- In how many places the slot is from which it will be read.
  abbrev pub written : Machine F R S H Input → Slot → ℕ
  written s x =
      in_calls stamped s x
      + in_option s.forwarding x
      + in_popped (s.dispatchers (layout.level x.0)) x
      + in_ready layout s.store x
      + in_timer s.store x

  -- In how many places the slot is.
  abbrev pub places : Machine F R S H Input → Slot → ℕ
  places s x =
      in_free s.store x
      + in_calls taken s x
      + in_calls filled s x
      + in_loaded (s.dispatchers (layout.level x.0)) x
      + written s x

  pub record Owned (s : Machine F R S H Input) : Type 0 where
    pub once : (x : Slot) → places s x ≡ (if ltb x.1 (layout.capacity x.0) then 1 else 0)
    pub input :
        (x : Slot)
        → 0 < in_calls filled s x + written s x
        → s.store.inputs x ≡ some (s.arguments x).input
    pub baseline :
        (x : Slot) → 0 < written s x → s.store.scheduleds x ≡ some (s.arguments x).baseline
    pub read :
        (l : ℕ) (x : Slot) (m : Message Input) → s.dispatchers l ≡ loaded x m → m ≡ s.arguments x
    pub own_ready :
        (l : ℕ) (x : Slot) → 0 < count x (R.items (s.store.ready l)) → layout.level x.0 ≡ l
    pub own_dispatcher :
        (l : ℕ) (x : Slot)
        → 0 < in_popped (s.dispatchers l) x + in_loaded (s.dispatchers l) x
        → layout.level x.0 ≡ l
    pub own_timer : (x : Slot) → 0 < in_timer s.store x → In x.0 layout.timer_tasks
    pub free_capacity : (t : Ident) → F.capacity (s.store.free t) ≡ layout.free_capacity t
    pub ready_capacity : (l : ℕ) → R.capacity (s.store.ready l) ≡ layout.ready_capacity l
