-- ===== src/Monitor/Continue.antt =====
-- core/cmd_continue.c: the commands 'c', 'C' and 'D'.
use mri.Prelude.{ℕ, ◌%◌, ◌^◌, ltb, Bool, true, false, if◌then◌else◌}
use mri.Buffer.Core.{Buffer, bytes_left}
use mri.Buffer.Integers.{is_next_char_equal_to}
use mri.Commands.Arguments.{read_uinteger_argument}
use mri.Commands.Session.{mri_error_invalid_argument}
use mri.Monitor.State.{
  Machine, HandlerReturn, PlatformInstructionType, other, arm_semihost_call, newlib_semihost_call,
  hardcoded_breakpoint, nothing, only_resume, only_skipped, resume_immediately, combine, thawed,
  all_threads,
}
use mri.Monitor.Monad.{
  Run, ◌>>=◌, ◌>>◌, pure, ask, on_buffer, on_state, change_state, clear_exception, attempt,
}
use mri.Monitor.Console.{ok_response, respond, respond_and_stay}

abbrev pub is_hardcoded_breakpoint : PlatformInstructionType → Bool
is_hardcoded_breakpoint other = false
is_hardcoded_breakpoint arm_semihost_call = false
is_hardcoded_breakpoint newlib_semihost_call = false
is_hardcoded_breakpoint hardcoded_breakpoint = true

-- The condition `Buffer_BytesLeft(pBuffer) > 0 && Buffer_IsNextCharEqualTo(pBuffer, ';')`, which
-- core/cmd_vcont.c has too
unfoldable pub take_semicolon : Buffer → Bool × Buffer
take_semicolon b =
    let next = is_next_char_equal_to b b';' in if ltb 0 (bytes_left b) then next else (false, b)

module _ {S : Type 0} (machine : Machine S) where
  -- `isCurrentInstructionHardcodedBreakpoint`
  unfoldable pub is_current_instruction_hardcoded_breakpoint : Run S Bool
  is_current_instruction_hardcoded_breakpoint = do
    type ← on_state machine.type_of_current_instruction
    pure (is_hardcoded_breakpoint type)

  -- `shouldSkipHardcodedBreakpoint`: the instruction is looked at only if the program counter is as it was.
  unfoldable pub should_skip_hardcoded_breakpoint : Run S Bool
  should_skip_hardcoded_breakpoint = do
    modified ← ask machine.was_program_counter_modified
    if modified then pure false else is_current_instruction_hardcoded_breakpoint

  -- `SkipHardcodedBreakpoint`
  unfoldable pub skip_hardcoded_breakpoint : Run S HandlerReturn
  skip_hardcoded_breakpoint = do
    skip ← should_skip_hardcoded_breakpoint
    if skip
        then (change_state machine.advance_program_counter >> pure only_skipped)
        else pure nothing

  -- The first statement of `ContinueExecution` and of `HandleDetachCommand`
  unfoldable pub thaw_all_threads : Run S (Unit {0})
  thaw_all_threads =
      if machine.is_set_thread_state_supported
      then change_state (machine.set_thread_state all_threads thawed)
      else pure tt

  -- `ContinueExecution`
  unfoldable pub continue_execution : Bool → ℕ → Run S HandlerReturn
  continue_execution set_pc new_pc = do
    thaw_all_threads
    return_value ← skip_hardcoded_breakpoint
    if set_pc then change_state (machine.set_program_counter new_pc) else pure tt
    pure (combine return_value resume_immediately)

  -- `HandleContinueCommand`; the new program counter is kept in a `uint32_t`.
  unfoldable pub handle_continue_command : Run S HandlerReturn
  handle_continue_command = do
    clear_exception
    attempt (on_buffer (read_uinteger_argument machine.bytes))
        (clear_exception >> continue_execution false 0)
        (λ new_pc. continue_execution true (new_pc % 2 ^ 32))

  -- `HandleContinueWithSignalCommand`
  unfoldable pub handle_continue_with_signal_command : Run S HandlerReturn
  handle_continue_with_signal_command =
      clear_exception
      >> attempt (on_buffer (read_uinteger_argument machine.bytes))
          (respond_and_stay machine mri_error_invalid_argument)
          (λ signal.
            attempt (on_buffer take_semicolon) (respond_and_stay machine mri_error_invalid_argument)
              (λ more.
                if more
                then attempt (on_buffer (read_uinteger_argument machine.bytes))
                    (respond_and_stay machine mri_error_invalid_argument)
                    (λ new_pc. continue_execution true (new_pc % 2 ^ 32))
                else continue_execution false 0))

  -- `HandleDetachCommand`
  unfoldable pub handle_detach_command : Run S HandlerReturn
  handle_detach_command = do
    thaw_all_threads
    skipped ← skip_hardcoded_breakpoint
    respond machine ok_response
    pure only_resume
