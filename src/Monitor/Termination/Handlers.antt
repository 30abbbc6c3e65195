-- ===== src/Monitor/Termination/Handlers.antt =====
-- The handlers without a loop of their own.
use mri.Prelude.{ℕ, arith, Bool, List, [], ◌∷◌, Option, none, some}
use mri.Packet.Send.{send_to_gdb}
use mri.Packet.Termination.Sending.{send_to_gdb-Ends}
use mri.Context.Core.{ContextSection}
use mri.Monitor.State.{Machine}
use mri.Monitor.Console.{
  init_buffers, respond, send_packet_to_gdb, write_sized_string_to_gdb_console,
  write_string_to_gdb_console, write_strings_to_gdb_console,
}
use mri.Monitor.Continue.{
  is_current_instruction_hardcoded_breakpoint, should_skip_hardcoded_breakpoint,
  skip_hardcoded_breakpoint, thaw_all_threads, continue_execution, handle_continue_command,
  handle_continue_with_signal_command, handle_detach_command,
}
use mri.Monitor.Registers.{
  send_t_stop_response, handle_register_read_command, copy_registers_from_buffer,
  handle_register_write_command,
}
use mri.Monitor.Step.{
  step_halted_thread, handle_single_step_command, handle_single_step_with_signal_command,
}
use mri.Monitor.Threads.{
  select_context, handle_thread_context_command, handle_is_thread_active_command,
}
use mri.Monitor.Termination.{Runs, runs, Runs-on_packet, Runs-bind}
use mri.Packet.Link.{init}
use mri.Commands.Session.{prepare_string_response}

module _ {S : Type 0} (machine : Machine S) where
  pub Runs-init_buffers : Runs (init_buffers machine)
  unfolding init
  Runs-init_buffers m = omega arith

  pub Runs-respond : (text : List ℕ) → Runs (respond machine text)
  unfolding prepare_string_response init
  Runs-respond text m = omega arith

  pub send_packet_to_gdb-Runs : Runs (send_packet_to_gdb machine)
  unfolding send_packet_to_gdb
  send_packet_to_gdb-Runs =
      search (runs, Runs-init_buffers, Runs-on_packet send_to_gdb send_to_gdb-Ends) depth 20

  pub write_sized_string_to_gdb_console-Runs :
      (string : List ℕ) (length : ℕ)
      → Runs (write_sized_string_to_gdb_console machine string length)
  unfolding write_sized_string_to_gdb_console
  write_sized_string_to_gdb_console-Runs string length =
      search (runs, Runs-init_buffers, send_packet_to_gdb-Runs) depth 20

  pub write_string_to_gdb_console-Runs :
      (string : List ℕ) → Runs (write_string_to_gdb_console machine string)
  unfolding write_string_to_gdb_console
  write_string_to_gdb_console-Runs string = write_sized_string_to_gdb_console-Runs string _

  pub write_strings_to_gdb_console-Runs :
      (strings : List (List ℕ)) → Runs (write_strings_to_gdb_console machine strings)
  unfolding write_strings_to_gdb_console
  write_strings_to_gdb_console-Runs [] = search runs
  write_strings_to_gdb_console-Runs (string ∷ strings) =
      Runs-bind _ _ (write_string_to_gdb_console-Runs string)
        (λ written. write_strings_to_gdb_console-Runs strings)

  ruleset sending = (runs, Runs-init_buffers, Runs-respond, send_packet_to_gdb-Runs)

  pub skip_hardcoded_breakpoint-Runs : Runs (skip_hardcoded_breakpoint machine)
  unfolding skip_hardcoded_breakpoint should_skip_hardcoded_breakpoint
      is_current_instruction_hardcoded_breakpoint
  skip_hardcoded_breakpoint-Runs = search (runs) depth 20

  pub thaw_all_threads-Runs : Runs (thaw_all_threads machine)
  unfolding thaw_all_threads
  thaw_all_threads-Runs = search runs

  pub continue_execution-Runs :
      (set_pc : Bool) (new_pc : ℕ) → Runs (continue_execution machine set_pc new_pc)
  unfolding continue_execution
  continue_execution-Runs set_pc new_pc =
      search (runs, skip_hardcoded_breakpoint-Runs, thaw_all_threads-Runs) depth 20

  pub handle_continue_command-Runs : Runs (handle_continue_command machine)
  unfolding handle_continue_command
  handle_continue_command-Runs = search (runs, continue_execution-Runs) depth 20

  pub handle_continue_with_signal_command-Runs : Runs (handle_continue_with_signal_command machine)
  unfolding handle_continue_with_signal_command
  handle_continue_with_signal_command-Runs =
      search (runs, Runs-respond, continue_execution-Runs) depth 20

  pub handle_detach_command-Runs : Runs (handle_detach_command machine)
  unfolding handle_detach_command
  handle_detach_command-Runs =
      search (runs, Runs-respond, skip_hardcoded_breakpoint-Runs, thaw_all_threads-Runs) depth 20

  pub send_t_stop_response-Runs : Runs (send_t_stop_response machine)
  unfolding send_t_stop_response
  send_t_stop_response-Runs = search (sending) depth 30

  pub step_halted_thread-Runs : Runs (step_halted_thread machine)
  unfolding step_halted_thread
  step_halted_thread-Runs = search runs

  pub handle_single_step_command-Runs : Runs (handle_single_step_command machine)
  unfolding handle_single_step_command
  handle_single_step_command-Runs =
      search
        (runs, handle_continue_command-Runs, send_t_stop_response-Runs, step_halted_thread-Runs)
        depth 20

  pub handle_single_step_with_signal_command-Runs :
      Runs (handle_single_step_with_signal_command machine)
  unfolding handle_single_step_with_signal_command
  handle_single_step_with_signal_command-Runs =
      search
        (
          runs, handle_continue_with_signal_command-Runs, send_t_stop_response-Runs,
          step_halted_thread-Runs,
        )
        depth 20

  pub handle_register_read_command-Runs : Runs (handle_register_read_command machine)
  unfolding handle_register_read_command
  handle_register_read_command-Runs = search (sending) depth 20

  pub copy_registers_from_buffer-Runs : Runs (copy_registers_from_buffer machine)
  unfolding copy_registers_from_buffer
  copy_registers_from_buffer-Runs m = omega arith

  pub handle_register_write_command-Runs : Runs (handle_register_write_command machine)
  unfolding handle_register_write_command
  handle_register_write_command-Runs = search (sending, copy_registers_from_buffer-Runs) depth 20

  pub select_context-Runs :
      (context : Option (List ContextSection)) → Runs (select_context machine context)
  unfolding select_context
  select_context-Runs none = search (sending) depth 20
  select_context-Runs (some sections) =
      Runs-bind _ _ (λ m. omega arith) (λ u. search (sending) depth 20)

  pub handle_thread_context_command-Runs : Runs (handle_thread_context_command machine)
  unfolding handle_thread_context_command
  handle_thread_context_command-Runs = search (sending, select_context-Runs) depth 30

  pub handle_is_thread_active_command-Runs : Runs (handle_is_thread_active_command machine)
  unfolding handle_is_thread_active_command
  handle_is_thread_active_command-Runs = search (sending) depth 30
