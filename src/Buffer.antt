-- ===== src/Buffer.antt =====
-- core/buffer.c and core/buffer.h: the text buffer. `Core` has the state and the routines that move
-- its pointers, `Bytes` those for characters and strings, `Integers` those for numbers, and
-- `Matching` the comparisons; the others are the proofs.
pub mod Core
pub mod Bytes
pub mod Integers
pub mod Signed
pub mod Matching
pub mod Cases
pub mod Digits
pub mod Emit
pub mod Reading
pub mod Numbers
pub mod RoundTrip
pub mod Room
pub mod Safety
mod Tests
