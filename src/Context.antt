-- ===== src/Context.antt =====
-- core/context.c: registers that lie in several places, numbered in one sequence.
pub mod Core
pub mod Copy
pub mod Flat
pub mod Registers
mod Tests
