-- ===== src/Lib.antt =====
-- Cortex-M RTFM: a library of real-time tasks (src/) and the procedural macro `#[app]` (macros/src/)
-- that turns the specification of an application into its tasks, resources and message queues.
--
-- The parts and how they interact. The macro parses the items of the application
-- (macros/src/syntax.rs), checks the rules of the specification language (macros/src/check.rs),
-- computes the ceilings and capacities (macros/src/analyze.rs) and generates code
-- (macros/src/codegen.rs) that calls the runtime: `Mutex::claim`, `run`, `Instant` (src/lib.rs,
-- src/export.rs) and the timer queue (src/tq.rs), and passes messages through queues. The ceilings of the analysis are the ones that
-- the generated code passes to `claim`; the priorities are the ones that it configures.
--
-- Common: the shared names. Tests (Boolean tests, equality as an interface), Lists (membership,
-- sets as lists), Entries (equality up to order), Map (`HashMap` as an association list whose order is arbitrary), Panics (code
-- that may panic).
-- Runtime/Clock: `Instant` and `Duration` of src/lib.rs on 32-bit patterns; Order and Arithmetic
-- hold the theorems. The cycle counter is an argument.
-- Runtime/Core: the registers BASEPRI and PRIMASK of the `cortex-m` crate as an interface, and
-- `run` of src/export.rs. Runtime/Priority: `logical2hw` on `u8`. Runtime/Mutex: both variants of
-- `Mutex::claim`; Section takes a claim apart at its closure, Protects and Restores say what holds
-- inside of it and behind it.
-- Runtime/TimerQueue: `TimerQueue` and `isr` of src/tq.rs over interfaces for the heap and SysTick;
-- Delivery holds the theorems. The readings of the cycle counter are a sequence.
-- Runtime/Uninit: `MaybeUninit` of src/export.rs; to read what is not initialized is a panic here.
-- Kernel: the stack of preempting handlers as a step relation around the critical sections: a
-- handler starts above the running one if the registers let it, claims and releases resources, and
-- ends. Exclusion is the invariant, Progress says that no handler blocks; Hardware has the interrupt
-- controller start the handlers by the values of its registers. Application applies the invariant to
-- what the analysis computes, Started to what the generated `main` has asserted and written. Without
-- `idle`, `main` waits in a loop, with the priority 0 and no resources. A handler of priority 0, which
-- the parser accepts, has the highest priority in the hardware: the theorems leave it out.
-- Macro/Syn: the syntax trees of the `syn` crate as far as the macro looks at them. Macro/Syntax:
-- `App` with its parts and iterators. Macro/Parse: the parser over the interface ParseStream for
-- the token streams of `syn` (Args: the arguments of attributes, Body and Items: functions and
-- statics, Program: `App::parse`; Arguments, Fuel, Extract and Names hold the theorems).
-- Macro/Check: `app` of check.rs. Macro/Analyze: `app` of analyze.rs, in the order of its loops.
-- Macro/Entry: `app` of macros/src/lib.rs, which chains them.
-- Macro/Codegen: what codegen.rs decides, as data: Kind (the contexts), Prelude (the field of a
-- context for each of its resources), Resources (statics and proxies), Start (the assignments of
-- late resources at the end of `init`), PostInit (the calls that set the priorities),
-- Handlers (which contexts get a prelude), Sizes
-- (`mk_typenum_capacity`). Exclusive, Statics, Late, Handlers/Complete and PostInit/Levels hold the theorems.
-- Messages: the message passing of the generated code. Messages.antt has the statics and the
-- functions that codegen.rs generates for `spawn`, `schedule`, the dispatchers, the handler of
-- SysTick and `pre_init`; Queue the interfaces for the queues of `heapless`; Steps the same functions
-- as steps between which other handlers run. Ownership says in which place each slot is, Fifo in
-- which order messages are delivered, Calls what the functions do without preemption, and Analysed
-- that the capacities which the analysis computes suffice, and who claims which queue.
-- Examples: a device, two applications and token streams on which the theorems apply.
--
-- Bounds and fuel. `debug` says whether the build checks overflow; without it the sums wrap. The
-- loop over the arguments of an attribute gets one round more than there are tokens, and each round
-- consumes tokens. The handler of the timer queue needs one round more than there are messages.
-- The device has 1 to 7 priority bits: `logical2hw` has no room for the levels of 8. Priorities and ceilings are at most the number of levels, which the generated code asserts.
--
-- In the message passing a `claim` of a queue is one step, and so is the use of one end of a queue;
-- any order of the steps of different handlers is allowed, of which the priorities allow some. That
-- a claim is one step is right if no two users of a queue are in claims of it at once. The analysis
-- sees to that but for the ready queues, whose ceilings it takes from the callers of `spawn` while
-- the handler of SysTick writes to them too. The layouts of the message passing therefore have, as a
-- condition on the application, that these ceilings are at least the priority of that handler;
-- Messages/Analysed/Producers is about the users of the queues. (Examples/Blinky does not meet the
-- condition, Examples/Chatty does; for an application that schedules no task it is empty.)
--
-- Not modelled. The text of the quotations that the macro generates, with its names and attributes;
-- the modules of the contexts, what the preludes do for `spawn` and `schedule`, and `assertions` of
-- codegen.rs;
-- `mk_ident`; spans and the exact texts of errors, which are constructors here.
pub mod Common
pub mod Runtime
pub mod Kernel
pub mod Macro
pub mod Messages
pub mod Examples
