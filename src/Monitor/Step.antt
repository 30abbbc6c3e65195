-- ===== src/Monitor/Step.antt =====
-- core/cmd_step.c: the commands 's' and 'S'.
use mri.Prelude.{◌%◌, ◌^◌, ◌==◌, if◌then◌else◌}
use mri.Monitor.State.{Machine, HandlerReturn, is_set, single_stepping}
use mri.Monitor.Monad.{Run, ◌>>=◌, ◌>>◌, pure, ask, change_state}
use mri.Monitor.Registers.{send_t_stop_response}
use mri.Monitor.Continue.{handle_continue_command, handle_continue_with_signal_command}

module _ {S : Type 0} (machine : Machine S) where
  -- The halted thread is marked as the one that steps.
  unfoldable pub step_halted_thread : Run S (Unit {0})
  step_halted_thread =
      if machine.is_set_thread_state_supported
      then change_state
          (λ s. machine.set_thread_state (machine.halted_thread_id s) single_stepping s)
      else pure tt

  -- `HandleSingleStepCommand`; the program counter is kept in a `uint32_t` and compared with the one now.
  unfoldable pub handle_single_step_command : Run S HandlerReturn
  handle_single_step_command = do
    return_value ← handle_continue_command machine
    if return_value.skipped_over_break
        then send_t_stop_response machine
        else if is_set return_value
        then (do
          before ← ask (λ s. machine.get_program_counter s % 2 ^ 32)
          change_state machine.enable_single_step
          after ← ask machine.get_program_counter
          if after == before
              then (step_halted_thread >> pure return_value)
              else send_t_stop_response machine)
        else pure return_value

  -- `HandleSingleStepWithSignalCommand`
  unfoldable pub handle_single_step_with_signal_command : Run S HandlerReturn
  handle_single_step_with_signal_command = do
    return_value ← handle_continue_with_signal_command machine
    if return_value.skipped_over_break
        then send_t_stop_response machine
        else if is_set return_value
        then (step_halted_thread >> (change_state machine.enable_single_step >> pure return_value))
        else pure return_value
