-- ===== src/Monitor.antt =====
-- core/mri.c, and the handlers of core/ that need more of the monitor's state than the packet.
pub mod State
pub mod Signal
pub mod Monad
pub mod Console
pub mod Continue
pub mod Registers
pub mod Step
pub mod Threads
pub mod Query
pub mod VCont
pub mod ActionErrors
pub mod FileIo
pub mod Loop
pub mod FileRequests
pub mod Breakpoint
pub mod TempBreakpoint
pub mod Responses
pub mod UnknownCommand
pub mod RegisterResponse
pub mod Resume
pub mod Detach
pub mod Transmission
pub mod Window
pub mod Startup
pub mod RangedStep
pub mod Exception
pub mod Init
pub mod Termination
pub mod Board
mod Tests
