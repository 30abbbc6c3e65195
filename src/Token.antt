-- ===== src/Token.antt =====
-- core/token.c: a string split at separators.
pub mod Core
pub mod Split
pub mod Copies
mod Tests
