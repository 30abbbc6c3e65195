-- ===== src/Monitor/Breakpoint.antt =====
-- core/mri.c: the temporary breakpoint, a breakpoint with a callback.
use mri.Prelude.{ℕ, ◌-◌, ◌%◌, ◌^◌, ◌==◌, Bool, true, false, ◌&&◌, if◌then◌else◌, Option, none}
use mri.Buffer.Core.{throw}
use mri.Monitor.State.{Machine}
use mri.Monitor.Monad.{
  Run, ◌>>=◌, ◌>>◌, pure, gets, ask, on_state, change_buffer, clear_exception, attempt,
}

-- `clearThumbBitOfAddress`
abbrev pub clear_thumb_bit : ℕ → ℕ
clear_thumb_bit address = address - address % 2

-- A routine of the platform that can throw
unfoldable pub on_platform : {S : Type 0} → (S → ℕ × S) → Run S (Unit {0})
on_platform routine = do exception_code ← on_state routine; change_buffer (throw exception_code)

module _ {S : Type 0} (machine : Machine S) where
  -- The assignments of `SetTempBreakpoint`, with `setTempBreakpointFlag`
  abbrev record_temp_breakpoint : ℕ → Option (S → Bool × S) → Run S (Unit {0})
  record_temp_breakpoint address callback m = pure tt (record m {
    temp_breakpoint_address = address;
    temp_breakpoint_callback = callback;
    temp_breakpoint = true;
  })

  -- `SetTempBreakpoint`
  unfoldable pub set_temp_breakpoint : ℕ → Option (S → Bool × S) → Run S Bool
  set_temp_breakpoint breakpoint_address callback = do
    is_set ← gets (λ m. m.temp_breakpoint)
    if is_set
        then pure false
        else (clear_exception
            >> attempt
                (on_platform (machine.set_hardware_breakpoint (clear_thumb_bit breakpoint_address)))
                (clear_exception >> pure false)
                (λ u.
                  record_temp_breakpoint (clear_thumb_bit breakpoint_address) callback
                  >> pure true))

  -- `wasTempBreakpointHit`
  unfoldable pub was_temp_breakpoint_hit : Run S Bool
  was_temp_breakpoint_hit = do
    is_set ← gets (λ m. m.temp_breakpoint)
    address ← gets (λ m. m.temp_breakpoint_address)
    pc ← ask machine.get_program_counter
    pure (is_set && clear_thumb_bit (pc % 2 ^ 32) == address)

  -- The assignments of `clearTempBreakpoint`, with `clearTempBreakpointFlag`
  abbrev forget_temp_breakpoint : Run S (Unit {0})
  forget_temp_breakpoint m = pure tt (record m {
    temp_breakpoint_address = 0;
    temp_breakpoint_callback = none;
    temp_breakpoint = false;
  })

  -- `clearTempBreakpoint`
  unfoldable pub clear_temp_breakpoint : Run S (Unit {0})
  clear_temp_breakpoint = do
    address ← gets (λ m. m.temp_breakpoint_address)
    clear_exception
    attempt (on_platform (machine.clear_hardware_breakpoint address))
        (clear_exception >> forget_temp_breakpoint) (λ u. forget_temp_breakpoint)
