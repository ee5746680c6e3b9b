-- ===== src/Macro/Codegen/PostInit.antt =====
-- `post_init` of macros/src/codegen.rs: what the generated `main` does between `init` and `idle`.
pub mod Levels
use rtfm.Common.{
  ℕ, ◌++◌, Bool, true, false, not, List, [], ◌∷◌, Option, none, some, Outcome, ok, ◌>>=◌, ◌>>◌,
  assert, leb, if◌then◌else◌,
}
use rtfm.Runtime.Priority.{shl8, logical2hw}
use rtfm.Macro.Syntax.{App, Ident, Idents, Exception, Interrupt}
use rtfm.Macro.Check.{is_none}
use rtfm.Macro.Analyze.{Analysis, Dispatcher, fold}
use rtfm.Macro.Parse.Body.{is_nil}

-- What `set_priority` is called for: an interrupt of the device, or a system handler.
pub data Target : Type 0 where
  interrupt : Ident → Target
  handler : Ident → Target

-- The calls on the peripherals, in order, and what else is switched on.
pub record Board : Type 0 where
  pub enabled : Idents
  pub priorities : List (Target × ℕ)
  pub sleep_on_exit : Bool
  pub timer_enabled : Bool
  pub cycle_counter : Bool

module _ (debug : Bool) (nvic_prio_bits : ℕ) where
  -- `assert!(priority <= (1 << nvic_prio_bits))` and `set_priority(..)`, on `u8`. The value is
  -- computed as in `logical2hw`.
  unfoldable pub set_priority : Target → ℕ → Board → Outcome Board
  set_priority target priority board = do
    levels ← shl8 debug 1 nvic_prio_bits
    assert (leb priority levels)
    value ← logical2hw debug priority nvic_prio_bits
    ok (record board { priorities = board.priorities ++ (target, value) ∷ [] })

  unfoldable pub enable : Ident → Board → Board
  enable name board = record board { enabled = board.enabled ++ name ∷ [] }

  unfoldable pub set_interrupt : Ident × Interrupt → Board → Outcome Board
  unfolding set_priority enable
  set_interrupt (name, i) board = set_priority (interrupt name) i.args.priority (enable name board)

  unfoldable pub set_exception : Ident × Exception → Board → Outcome Board
  unfolding set_priority
  set_exception (name, e) board = set_priority (handler name) e.args.priority board

  unfoldable pub set_timer : Analysis → Board → Outcome Board
  unfolding set_priority
  set_timer analysis board =
      if not (is_nil analysis.timer_queue.tasks)
      then set_priority (handler "SysTick") analysis.timer_queue.priority board
      else ok board

  unfoldable pub set_dispatcher : ℕ × Dispatcher → Board → Outcome Board
  unfolding set_priority enable
  set_dispatcher (priority, d) board =
      set_priority (interrupt d.interrupt) priority (enable d.interrupt board)

  unfoldable pub post_init : Bool → App → Analysis → Board → Outcome Board
  unfolding set_interrupt set_exception set_timer set_dispatcher
  post_init timer_queue app analysis board = do
    b₁ ← fold set_interrupt app.interrupts board
    b₂ ← fold set_exception app.exceptions b₁
    b₃ ← set_timer analysis b₂
    b₄ ← fold set_dispatcher analysis.dispatchers b₃
    ok (record b₄ {
      sleep_on_exit = if is_none app.idle then true else b₄.sleep_on_exit;
      timer_enabled = if is_nil analysis.timer_queue.tasks then b₄.timer_enabled else true;
      cycle_counter = if timer_queue then true else b₄.cycle_counter;
    })
