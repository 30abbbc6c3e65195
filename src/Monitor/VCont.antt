-- ===== src/Monitor/VCont.antt =====
-- core/cmd_vcont.c: the commands that start with 'v'.
pub mod Parse
pub mod Passes
pub mod Room
use mri.Prelude.{ℕ, ◌%◌, ◌^◌, Bool, true, false, ◌&&◌, ◌||◌, if◌then◌else◌}
use mri.Libc.{literal}
use mri.Buffer.Bytes.{write_string}
use mri.Buffer.Matching.{matches_string}
use mri.Commands.Session.{mri_error_invalid_argument}
use mri.Packet.Link.{Span}
use mri.Monitor.State.{Machine, MriCore, HandlerReturn, AddressRange, is_set, nothing}
use mri.Monitor.Monad.{
  Run, ◌>>=◌, ◌>>◌, pure, gets, on_buffer, change_buffer, clear_exception, attempt, branch,
}
use mri.Monitor.Console.{init_buffers, respond_and_stay, empty_response}
use mri.Monitor.Continue.{continue_execution, skip_hardcoded_breakpoint}
use mri.Monitor.Registers.{send_t_stop_response}
use mri.Monitor.Step.{handle_single_step_command}
use Parse.{
  ActionType, Action, action_none, action_continue, action_single_step, action_ranged_single_step,
  is_action_none,
}
use Passes.{Actions, no_actions, set_single_stepping_range, first_parse_pass, second_parse_pass}

module _ {S : Type 0} (machine : Machine S) where
  -- `handleVContQueryCommand`
  unfoldable pub handle_v_cont_query_command : Run S HandlerReturn
  handle_v_cont_query_command = do
    init_buffers machine
    change_buffer (λ b. write_string b (literal "vCont;c;C;s;S;r"))
    pure nothing

  -- A ranged step, `ACTION_RANGED_SINGLE_STEP` of `handleAction`
  unfoldable pub step_in_range : AddressRange → Run S HandlerReturn
  step_in_range range = do
    return_value ← handle_single_step_command machine
    if is_set return_value then set_single_stepping_range range else pure tt
    pure return_value

  -- The `switch` of `handleAction`
  unfoldable pub handle_action_of_type : ActionType → AddressRange → Run S HandlerReturn
  handle_action_of_type action_none range = respond_and_stay machine mri_error_invalid_argument
  handle_action_of_type action_continue range = continue_execution machine false 0
  handle_action_of_type action_single_step range = handle_single_step_command machine
  handle_action_of_type action_ranged_single_step range = step_in_range range

  -- `handleAction`
  abbrev pub handle_action : Action → Run S HandlerReturn
  handle_action action = handle_action_of_type action.type action.range

  -- `handleSingleStepAndContinueCommands`
  unfoldable pub handle_single_step_and_continue_commands : Actions → Run S HandlerReturn
  handle_single_step_and_continue_commands actions =
      if is_action_none actions.step.type
      then handle_action actions.continuing
      else handle_action actions.step

  -- `handleSingleStepAndContinueCommandsWithSetThreadState`
  unfoldable pub handle_commands_with_set_thread_state : Span → Actions → Run S HandlerReturn
  handle_commands_with_set_thread_state replay actions =
      if is_action_none actions.continuing.type && is_action_none actions.step.type
      then second_parse_pass machine replay
      else (skip_hardcoded_breakpoint machine >>= λ skipped.
          if is_action_none actions.step.type
          then second_parse_pass machine replay
          else if skipped.skipped_over_break
          then send_t_stop_response machine
          else second_parse_pass machine replay)

  -- `handleVContCommand`
  unfoldable pub handle_v_cont_command : Run S HandlerReturn
  handle_v_cont_command = do
    replay ← gets (λ m. m.session.packet.data_buffer)
    clear_exception
    attempt (first_parse_pass machine no_actions) (pure nothing) (λ actions.
        if machine.is_set_thread_state_supported
        then handle_commands_with_set_thread_state replay actions
        else handle_single_step_and_continue_commands actions)

  -- `HandleVContCommands`
  unfoldable pub handle_v_cont_commands : Run S HandlerReturn
  handle_v_cont_commands =
      branch (on_buffer (λ b. matches_string b (literal "Cont?") 5)) handle_v_cont_query_command (
        branch (on_buffer (λ b. matches_string b (literal "Cont") 4)) handle_v_cont_command
          (empty_response machine))
