-- ===== src/Examples.antt =====
-- Concrete devices and applications, on which the theorems of the other modules apply.
pub mod Device
pub mod Blinky
pub mod Chatty
pub mod QueueRuns
pub mod RuntimeRuns
pub mod MacroRuns
pub mod KernelRuns
pub mod Parser
pub mod ParserRuns
pub mod TimerRuns
pub mod MessageRuns
pub mod CodegenRuns
