-- ===== src/Commands.antt =====
-- The handlers of gdb's commands.
pub mod Arguments
pub mod Session
pub mod MemoryAccess
pub mod BreakWatch
