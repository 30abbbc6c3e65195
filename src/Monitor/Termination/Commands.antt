-- ===== src/Monitor/Termination/Commands.antt =====
-- The handlers that wait for gdb, or that call others, and their fuel.
use mri.Prelude.{ℕ, arith, Bool, false, List, Option}
use mri.Buffer.Core.{Buffer}
use mri.Monitor.State.{Machine, AddressRange}
use mri.Monitor.FileIo.{handle_file_io_command, read_errno_and_flag, record_control_c_flag}
use mri.Monitor.Query.{handle_query_command, handle_query_supported_command}
use mri.Monitor.Query.Transfer.{
  AnnexOffsetLength, handle_query_transfer_read_command, read_transfer,
  handle_query_transfer_command,
}
use mri.Monitor.Query.ThreadInfo.{
  output_thread_ids, handle_query_first_thread_info_command,
  handle_query_subsequent_thread_info_command, handle_query_thread_extra_info_command,
}
use mri.Monitor.Query.Rcmd.{
  request_reset_on_next_continue, handle_monitor_reset_command, handle_monitor_show_fault_command,
  handle_monitor_help_command, handle_monitor_command,
}
use mri.Monitor.VCont.{
  handle_v_cont_query_command, step_in_range, handle_action_of_type,
  handle_single_step_and_continue_commands, handle_commands_with_set_thread_state,
  handle_v_cont_command, handle_v_cont_commands,
}
use mri.Monitor.VCont.Parse.{
  ActionType, action_none, action_continue, action_single_step, action_ranged_single_step,
}
use mri.Monitor.Termination.{Runs, runs}
use mri.Monitor.Termination.Handlers.{
  Runs-init_buffers, Runs-respond, write_string_to_gdb_console-Runs,
  write_strings_to_gdb_console-Runs, skip_hardcoded_breakpoint-Runs, continue_execution-Runs,
  send_t_stop_response-Runs, handle_single_step_command-Runs,
}
use mri.Monitor.Termination.Loops.{first_parse_pass-Runs, second_parse_pass-Runs, output_loop-Runs}

module _ {S : Type 0} (machine : Machine S) where
  record_control_c_flag-Runs : (flag : Bool) → Runs {S = S} (record_control_c_flag flag)
  record_control_c_flag-Runs flag m = omega arith

  request_reset-Runs : Runs {S = S} request_reset_on_next_continue
  request_reset-Runs m = omega arith

  pub handle_file_io_command-Runs : Runs (handle_file_io_command machine)
  unfolding handle_file_io_command read_errno_and_flag
  handle_file_io_command-Runs = search (runs, record_control_c_flag-Runs) depth 30

  output_thread_ids-Runs : (id : ℕ) → Runs (output_thread_ids machine id)
  unfolding output_thread_ids
  output_thread_ids-Runs id = search (runs, Runs-init_buffers, output_loop-Runs machine) depth 30

  handle_query_transfer_read_command-Runs :
      (annex : List ℕ) (size : ℕ) (arguments : AnnexOffsetLength)
      → Runs (handle_query_transfer_read_command machine annex size arguments)
  unfolding handle_query_transfer_read_command
  handle_query_transfer_read_command-Runs annex size arguments =
      search (runs, Runs-init_buffers) depth 30

  read_transfer-Runs :
      (validate : Option (List ℕ) → Buffer → Buffer) (annex : List ℕ) (size : ℕ)
      → Runs (read_transfer machine validate annex size)
  unfolding read_transfer
  read_transfer-Runs validate annex size =
      search (runs, Runs-respond, handle_query_transfer_read_command-Runs) depth 30

  handle_query_transfer_command-Runs : Runs (handle_query_transfer_command machine)
  unfolding handle_query_transfer_command
  handle_query_transfer_command-Runs = search (runs, Runs-respond, read_transfer-Runs) depth 30

  handle_query_thread_extra_info_command-Runs :
      Runs (handle_query_thread_extra_info_command machine)
  unfolding handle_query_thread_extra_info_command
  handle_query_thread_extra_info_command-Runs =
      search (runs, Runs-init_buffers, Runs-respond) depth 30

  handle_query_first_thread_info_command-Runs :
      Runs (handle_query_first_thread_info_command machine)
  unfolding handle_query_first_thread_info_command
  handle_query_first_thread_info_command-Runs =
      search (runs, Runs-respond, output_thread_ids-Runs) depth 30

  handle_query_subsequent_thread_info_command-Runs :
      Runs (handle_query_subsequent_thread_info_command machine)
  unfolding handle_query_subsequent_thread_info_command
  handle_query_subsequent_thread_info_command-Runs = search (runs, output_thread_ids-Runs) depth 30

  handle_monitor_help_command-Runs : Runs (handle_monitor_help_command machine)
  unfolding handle_monitor_help_command
  handle_monitor_help_command-Runs =
      search (runs, Runs-respond, write_string_to_gdb_console-Runs) depth 30

  handle_monitor_reset_command-Runs : Runs (handle_monitor_reset_command machine)
  unfolding handle_monitor_reset_command
  handle_monitor_reset_command-Runs =
      search (runs, Runs-respond, request_reset-Runs, write_string_to_gdb_console-Runs) depth 30

  handle_monitor_show_fault_command-Runs : Runs (handle_monitor_show_fault_command machine)
  unfolding handle_monitor_show_fault_command
  handle_monitor_show_fault_command-Runs =
      search (runs, Runs-respond, write_strings_to_gdb_console-Runs) depth 30

  handle_monitor_command-Runs : Runs (handle_monitor_command machine)
  unfolding handle_monitor_command
  handle_monitor_command-Runs =
      search
        (
          runs, Runs-respond, write_string_to_gdb_console-Runs, handle_monitor_help_command-Runs,
          handle_monitor_reset_command-Runs, handle_monitor_show_fault_command-Runs,
        )
        depth 30

  pub handle_query_command-Runs : Runs (handle_query_command machine)
  unfolding handle_query_command handle_query_supported_command
  handle_query_command-Runs =
      search
        (
          runs, Runs-respond, Runs-init_buffers, handle_query_transfer_command-Runs,
          handle_query_first_thread_info_command-Runs,
          handle_query_subsequent_thread_info_command-Runs,
          handle_query_thread_extra_info_command-Runs, handle_monitor_command-Runs,
        )
        depth 40

  step_in_range-Runs : (range : AddressRange) → Runs (step_in_range machine range)
  unfolding step_in_range
  step_in_range-Runs range = search (runs, handle_single_step_command-Runs) depth 30

  handle_action-Runs :
      (type : ActionType) (range : AddressRange) → Runs (handle_action_of_type machine type range)
  unfolding handle_action_of_type
  handle_action-Runs action_none range = search (runs, Runs-respond) depth 12
  handle_action-Runs action_continue range = continue_execution-Runs machine false 0
  handle_action-Runs action_single_step range = handle_single_step_command-Runs machine
  handle_action-Runs action_ranged_single_step range = step_in_range-Runs range

  handle_v_cont_command-Runs : Runs (handle_v_cont_command machine)
  unfolding handle_v_cont_command handle_commands_with_set_thread_state
      handle_single_step_and_continue_commands
  handle_v_cont_command-Runs =
      search
        (
          runs, first_parse_pass-Runs, second_parse_pass-Runs, handle_action-Runs,
          skip_hardcoded_breakpoint-Runs, send_t_stop_response-Runs,
        )
        depth 30

  pub handle_v_cont_commands-Runs : Runs (handle_v_cont_commands machine)
  unfolding handle_v_cont_commands handle_v_cont_query_command
  handle_v_cont_commands-Runs =
      search (runs, Runs-respond, Runs-init_buffers, handle_v_cont_command-Runs) depth 30
