-- ===== src/Examples/TimerRuns.antt =====
-- The theorems on the timer queue at a queue of three messages.
use rtfm.Common.{
  ℕ, suc, ◌+◌, ◌≡◌, refl, Ordering, Bool, true, false, List, [], ◌∷◌, Option, none, some, length,
  arith, if◌then◌else◌, Bool-cases, inl, inr, String,
}
use rtfm.Runtime.Clock.{at}
use rtfm.Runtime.TimerQueue.{
  BinaryHeap, SysTick, NotReady, TimerQueue, compare_not_ready, poll, isr,
}
use rtfm.Messages.Queue.{Entries, count_if}
use rtfm.Runtime.TimerQueue.Delivery.{Settled, deliver, poll-at, isr-Settled}

abbrev pub Message : Type 0
Message = NotReady String

abbrev pub message : String → ℕ → Message
message task t = record { index = 0; instant = at t; task = task }

-- A heap as a list with the first message at its head.
abbrev pub is_later : Ordering → Bool
is_later Ordering.gt = true
is_later order = false

pub push : Message → List Message → List Message
push m [] = m ∷ []
push m (n ∷ ns) = if is_later (compare_not_ready m n) then n ∷ push m ns else m ∷ n ∷ ns

pub pop : List Message → Message × List Message
pop [] = (message "none" 0, [])
pop (m ∷ ms) = (m, ms)

abbrev pub peek : List Message → Option Message
peek [] = none
peek (m ∷ ms) = some m

pub pop-peek : (h : List Message) (m : Message) → peek h ≡ some m → (pop h).0 ≡ m
unfolding pop
pop-peek [] m e = cc
pop-peek (n ∷ ns) m e = cc

pub length-pop :
    (h : List Message) (m : Message) → peek h ≡ some m → suc (length (pop h).1) ≡ length h
unfolding pop
length-pop [] m e = cc
length-pop (n ∷ ns) m e = refl

pub length-push : (m : Message) (h : List Message) → length (push m h) ≡ suc (length h)
unfolding push
length-push m [] = refl
length-push m (n ∷ ns) = elim (Bool-cases (is_later (compare_not_ready m n))) [
  | inl p ↦ rw (p, push) (omega (arith, length-push m ns))
  | inr p ↦ rw (p, push) refl
]

abbrev pub heap : BinaryHeap Message
heap = record {
  Heap = List Message;
  empty = [];
  peek = peek;
  push_unchecked = push;
  pop_unchecked = pop;
  len = length;
  peek-empty = refl;
  pop-peek = pop-peek;
  len-pop = length-pop;
  len-push = length-push;
}

pub count-push :
    (p : Message → Bool) (m : Message) (h : List Message)
    → count_if p (push m h) ≡ count_if p (m ∷ h)
unfolding push
count-push p m [] = refl
count-push p m (n ∷ ns) = elim (Bool-cases (is_later (compare_not_ready m n))) [
  | inl e ↦ rw (e, push) (omega (arith, count-push p m ns))
  | inr e ↦ rw (e, push) refl
]

pub count-pop :
    (p : Message → Bool) (h : List Message) (m : Message)
    → peek h ≡ some m
    → count_if p h ≡ count_if p (m ∷ (pop h).1)
unfolding pop
count-pop p [] m e = cc
count-pop p (n ∷ ns) m e = cc

abbrev pub heap_entries : (n : ℕ) → Entries heap n
heap_entries n = record {
  entries = λ h. h;
  entries-empty = refl;
  entries-push = λ p m h l. count-push p m h;
  entries-pop = count-pop;
}

pub record Registers : Type 0 where
  pub interrupt : Bool
  pub reload : ℕ
  pub pending : Bool

abbrev pub sys_tick : SysTick
sys_tick = record {
  Syst = Registers;
  enable_interrupt = λ r. record r { interrupt = true };
  disable_interrupt = λ r. record r { interrupt = false };
  set_reload = λ v r. record r { reload = v };
  clear_current = λ r. r;
  set_pending = λ r. record r { pending = true };
}

abbrev idle_timer : Registers
idle_timer = record { interrupt = false; reload = 0; pending = false }

abbrev Queue : Type 0
Queue = TimerQueue sys_tick heap

abbrev three : Queue
three = record {
  syst = record { interrupt = true; reload = 0; pending = false };
  queue = message "a" 10 ∷ message "b" 20 ∷ message "c" 4000 ∷ [];
}

-- At time 15 the first message is taken.
poll-at_example :
    poll sys_tick heap 15 three
    ≡ (some ("a", 0), record three { queue = message "b" 20 ∷ message "c" 4000 ∷ [] })
unfolding pop
poll-at_example =
    poll-at sys_tick heap three (message "a" 10) 10 15 refl refl (omega arith) (omega arith)

abbrev collect : String → ℕ → List String → List String
collect task index tasks = task ∷ tasks

isr-Settled_example :
    (ms : List (String × ℕ)) × (rest : Queue) × (isr sys_tick heap collect
        (λ k. k + 100)
        4
        0
        []
        three
      ≡ some (deliver sys_tick heap collect ms [], rest))
    × (heap.len rest.queue + length ms ≡ 3)
    × Settled sys_tick heap (0 + length ms + 100) rest
isr-Settled_example = isr-Settled sys_tick heap collect (λ k. k + 100) 4 0 [] three (omega arith)
