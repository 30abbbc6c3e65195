-- ===== src/Memory.antt =====
-- core/memory.c: the memory of the debuggee as text of a packet, and back.
pub mod Platform
pub mod Read
pub mod Write
pub mod ReadLaws
mod Tests
