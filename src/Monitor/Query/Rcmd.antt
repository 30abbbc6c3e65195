-- ===== src/Monitor/Query/Rcmd.antt =====
-- core/cmd_query.c: "qRcmd", the commands that a user gives by "monitor".
use mri.Prelude.{true}
use mri.Libc.{literal}
use mri.Buffer.Integers.{is_next_char_equal_to}
use mri.Buffer.Matching.{matches_hex_string}
use mri.Commands.Session.{mri_error_invalid_argument}
use mri.Monitor.State.{Machine, HandlerReturn}
use mri.Monitor.Monad.{Run, ◌>>=◌, ◌>>◌, pure, on_buffer, on_state, branch}
use mri.Monitor.Console.{
  ok_response, respond_and_stay, write_string_to_gdb_console, write_strings_to_gdb_console,
}

-- `RequestResetOnNextContinue`
abbrev pub request_reset_on_next_continue : {S : Type 0} → Run S (Unit {0})
request_reset_on_next_continue m = pure tt (record m { reset_on_continue = true })

module _ {S : Type 0} (machine : Machine S) where
  -- `handleMonitorResetCommand`
  unfoldable pub handle_monitor_reset_command : Run S HandlerReturn
  handle_monitor_reset_command = do
    request_reset_on_next_continue
    written ← write_string_to_gdb_console machine (literal "Will reset on next continue.\r\n")
    respond_and_stay machine ok_response

  -- `handleMonitorShowFaultCommand`
  unfoldable pub handle_monitor_show_fault_command : Run S HandlerReturn
  handle_monitor_show_fault_command = do
    texts ← on_state machine.fault_cause
    write_strings_to_gdb_console machine texts
    respond_and_stay machine ok_response

  -- `handleMonitorHelpCommand`
  unfoldable pub handle_monitor_help_command : Run S HandlerReturn
  handle_monitor_help_command = do
    first ← write_string_to_gdb_console machine (literal "Supported monitor commands:\r\n")
    second ← write_string_to_gdb_console machine (literal "reset\r\n")
    third ← write_string_to_gdb_console machine (literal "showfault\r\n")
    respond_and_stay machine ok_response

  -- `handleMonitorCommand`
  unfoldable pub handle_monitor_command : Run S HandlerReturn
  handle_monitor_command =
      branch (on_buffer (λ b. is_next_char_equal_to b b','))
        (branch (on_buffer (λ b. matches_hex_string b (literal "reset") 5))
          handle_monitor_reset_command
          (branch (on_buffer (λ b. matches_hex_string b (literal "showfault") 9))
            handle_monitor_show_fault_command
            (branch (on_buffer (λ b. matches_hex_string b (literal "help") 4))
              handle_monitor_help_command
              (write_string_to_gdb_console machine (literal "Unrecognized monitor command!\r\n")
                >>= λ written. handle_monitor_help_command))))
        (respond_and_stay machine mri_error_invalid_argument)
