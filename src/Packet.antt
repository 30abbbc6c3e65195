-- ===== src/Packet.antt =====
-- core/packet.c and core/packet.h: packets to and from gdb. `Link` has the state, `Receive` and `Send`
-- the routines; the others are the proofs.
pub mod Link
pub mod Receive
pub mod Send
pub mod Frames
pub mod Data
pub mod Heard
pub mod Rounds
pub mod Get
pub mod Termination
pub mod Answers
pub mod Resend
pub mod Complete
pub mod Framing
pub mod SendLaws
mod Tests
