-- ===== src/Runtime.antt =====
-- The runtime crate: the files under src/.
pub mod Clock
pub mod Core
pub mod Priority
pub mod Mutex
pub mod TimerQueue
pub mod Uninit
