-- ===== src/Messages/Steps.antt =====
-- The message passing as a step relation. Between two steps any other handler may run: the calls of
-- `spawn` and `schedule` that are under way, the handler of SysTick and the dispatchers each have
-- their place in the machine, and their steps come in any order. A `claim` of a queue is one step:
-- the users of a free queue, of the timer queue and, among the callers of `spawn`, of a ready queue
-- have at most the ceiling that the analysis computes; the handler of SysTick, which writes to the
-- ready queues too, has at most their ceilings in a layout (`timer_locked`, a condition on the
-- application). Analysed/Producers is about these users. An operation of one end of a queue is one
-- step too.
use rtfm.Common.{ℕ, ◌≡◌, List, [], ◌∷◌, ◌++◌, Option, none, some, ok, In, nat_eq}
use rtfm.Runtime.TimerQueue.{BinaryHeap, SysTick, NotReady, poll}
use rtfm.Macro.Syntax.{Ident}
use rtfm.Messages.{
  Layout, Slot, slot_eq, put, Message, Store, take_free, write_input, write_scheduled, push_timer,
  forward, pop_ready, read_slot, put_free, pre_init,
}
use rtfm.Messages.Queue.{Spsc}

-- What a call of `spawn` or `schedule` has done with its slot: taken its index, written the input,
-- written the baseline.
pub data Stage : Type 0 where
  taken : Stage
  filled : Stage
  stamped : Stage

-- What a dispatcher holds: nothing, a slot from its ready queue, or what it has read from one.
pub data Phase (Input : Type 0) : Type 0 where
  waiting : Phase Input
  popped : Slot → Phase Input
  loaded : Slot → Message Input → Phase Input

-- A message and the task that it is for.
abbrev pub Post : Type 0 → Type 0
Post Input = Ident × Message Input

module _ (F : Spsc ℕ) (R : Spsc Slot) (S : SysTick) (H : BinaryHeap (NotReady Ident))
    (Input : Type 0) where
  pub record Machine : Type 0 where
    pub store : Store F R S H Input
    -- The calls under way, and the arguments of the last call that took each slot.
    pub calls : List (Slot × Stage)
    pub arguments : Slot → Message Input
    -- The slot that the handler of SysTick forwards.
    pub forwarding : Option Slot
    pub dispatchers : ℕ → Phase Input
    -- The messages put in the ready queue of a priority, and those its tasks were called with.
    pub sent : ℕ → List (Post Input)
    pub called : ℕ → List (Post Input)

module _ {F : Spsc ℕ} {R : Spsc Slot} {S : SysTick} {H : BinaryHeap (NotReady Ident)}
    {Input : Type 0} (layout : Layout) where
  abbrev pub take_to : Slot → Message Input → Machine F R S H Input → Machine F R S H Input
  take_to slot m s = record s {
    store = (take_free layout slot.0 s.store).1;
    calls = (slot, taken) ∷ s.calls;
    arguments = put slot m s.arguments;
  }

  abbrev pub queue_to : Slot → Machine F R S H Input → Machine F R S H Input
  queue_to slot s = record s {
    store = forward layout slot s.store;
    sent =
        put (layout.level slot.0) (s.sent (layout.level slot.0) ++ (slot.0, s.arguments slot) ∷ [])
          s.sent;
  }

  abbrev pub call_to : ℕ → Slot → Message Input → Machine F R S H Input → Machine F R S H Input
  call_to l slot m s = record s {
    store = put_free layout slot s.store;
    dispatchers = put l waiting s.dispatchers;
    called = put l (s.called l ++ (slot.0, m) ∷ []) s.called;
  }

  pub data Step (s u : Machine F R S H Input) : Type 0 where
    take :
        (slot : Slot) (m : Message Input)
        → (take_free layout slot.0 s.store).0 ≡ some slot.1
        → u ≡ take_to slot m s
        → Step s u
    reject :
        (t : Ident)
        → (take_free layout t s.store).0 ≡ none
        → u ≡ record s { store = (take_free layout t s.store).1 }
        → Step s u
    fill :
        (slot : Slot) (before after : List (Slot × Stage)) (store : Store F R S H Input)
        → s.calls ≡ before ++ (slot, taken) ∷ after
        → write_input layout slot (s.arguments slot).input s.store ≡ ok store
        → u ≡ record s { store = store; calls = before ++ (slot, filled) ∷ after }
        → Step s u
    stamp :
        (slot : Slot) (before after : List (Slot × Stage)) (store : Store F R S H Input)
        → s.calls ≡ before ++ (slot, filled) ∷ after
        → write_scheduled layout slot (s.arguments slot).baseline s.store ≡ ok store
        → u ≡ record s { store = store; calls = before ++ (slot, stamped) ∷ after }
        → Step s u
    -- The end of a call of `spawn`.
    commit :
        (slot : Slot) (before after : List (Slot × Stage))
        → s.calls ≡ before ++ (slot, stamped) ∷ after
        → u ≡ queue_to slot (record s { calls = before ++ after })
        → Step s u
    -- The end of a call of `schedule`.
    delay :
        (slot : Slot) (before after : List (Slot × Stage))
        → s.calls ≡ before ++ (slot, stamped) ∷ after
        → In slot.0 layout.timer_tasks
        → u ≡ record s {
          store = push_timer layout slot (s.arguments slot).baseline s.store;
          calls = before ++ after;
        }
        → Step s u
    -- A round of `sys_tick`, and the call of its closure.
    tick :
        (now : ℕ)
        → s.forwarding ≡ none
        → u ≡ record s {
          store = record s.store { timer = (poll S H now s.store.timer).1 };
          forwarding = (poll S H now s.store.timer).0;
        }
        → Step s u
    pass :
        (slot : Slot)
        → s.forwarding ≡ some slot
        → u ≡ queue_to slot (record s { forwarding = none })
        → Step s u
    -- A round of the loop of a dispatcher.
    pop :
        (l : ℕ) (slot : Slot)
        → s.dispatchers l ≡ waiting
        → (pop_ready layout l s.store).0 ≡ some slot
        → u ≡ record s {
          store = (pop_ready layout l s.store).1;
          dispatchers = put l (popped slot) s.dispatchers;
        }
        → Step s u
    leave :
        (l : ℕ)
        → s.dispatchers l ≡ waiting
        → (pop_ready layout l s.store).0 ≡ none
        → u ≡ record s { store = (pop_ready layout l s.store).1 }
        → Step s u
    load :
        (l : ℕ) (slot : Slot) (m : Message Input)
        → s.dispatchers l ≡ popped slot
        → read_slot layout slot s.store ≡ ok m
        → u ≡ record s { dispatchers = put l (loaded slot m) s.dispatchers }
        → Step s u
    call :
        (l : ℕ) (slot : Slot) (m : Message Input)
        → s.dispatchers l ≡ loaded slot m
        → u ≡ call_to l slot m s
        → Step s u

  pub data Reach (s : Machine F R S H Input) : Machine F R S H Input → Type 0 where
    here : Reach s s
    next : {t u : Machine F R S H Input} → Reach s t → Step t u → Reach s u

  -- After `pre_init`, with any values for what is not used yet.
  abbrev pub boot : S.Syst → Message Input → Machine F R S H Input
  boot syst m = record {
    store = pre_init F R S H Input layout syst;
    calls = [];
    arguments = λ slot. m;
    forwarding = none;
    dispatchers = λ l. waiting;
    sent = λ l. [];
    called = λ l. [];
  }
