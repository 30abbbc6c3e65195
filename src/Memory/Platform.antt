-- ===== src/Memory/Platform.antt =====
-- What core/memory.c uses of the platform: the accesses of core/platforms.h to the debuggee's memory.
use mri.Prelude.{ℕ, Bool}
use mri.Buffer.Core.{Buffer}

-- `size` is 1, 2, 4 or 8, for the `Platform_MemRead…` and the `Platform_MemWrite…` of so many bytes. The
-- question whether an access faulted changes the state: the flag that it asks for is cleared.
pub record Platform (S : Type 0) : Type 0 where
  pub mem_read : (size address : ℕ) → S → ℕ × S
  pub mem_write : (size address value : ℕ) → S → S
  pub was_memory_fault_encountered : S → Bool × S

-- The text buffer, and the platform's state.
pub record Target (S : Type 0) : Type 0 where
  pub buffer : Buffer
  pub state : S
