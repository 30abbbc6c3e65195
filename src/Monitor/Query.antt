-- ===== src/Monitor/Query.antt =====
-- core/cmd_query.c: the command 'q', which is handed on by the name that follows.
pub mod Transfer
pub mod ThreadInfo
pub mod Rcmd
use mri.Prelude.{ℕ, ◌-◌, ◌%◌, ◌^◌, Bool, if◌then◌else◌}
use mri.Libc.{literal}
use mri.Buffer.Bytes.{write_string}
use mri.Buffer.Integers.{write_uinteger_as_hex}
use mri.Buffer.Matching.{matches_string}
use mri.Monitor.State.{Machine, HandlerReturn, nothing}
use mri.Monitor.Monad.{Run, ◌>>=◌, ◌>>◌, pure, branch, on_buffer, change_buffer}
use mri.Monitor.Console.{init_buffers, empty_response}
use Transfer.{handle_query_transfer_command}
use ThreadInfo.{
  handle_query_first_thread_info_command, handle_query_subsequent_thread_info_command,
  handle_query_thread_extra_info_command,
}
use Rcmd.{handle_monitor_command}

module _ {S : Type 0} (machine : Machine S) where
  -- `handleQuerySupportedCommand`; the size is kept in a `uint32_t`.
  unfoldable pub handle_query_supported_command : Run S HandlerReturn
  handle_query_supported_command = do
    init_buffers machine
    change_buffer (λ b.
        write_string b
          (literal "qXfer:memory-map:read+;qXfer:features:read+;vContSupported+;PacketSize="))
    change_buffer (λ b. write_uinteger_as_hex machine.bytes b ((machine.packet_size - 4) % 2 ^ 32))
    pure nothing

  -- `HandleQueryCommand`
  unfoldable pub handle_query_command : Run S HandlerReturn
  handle_query_command =
      branch (on_buffer (λ b. matches_string b (literal "Supported") 9))
        handle_query_supported_command
        (branch (on_buffer (λ b. matches_string b (literal "Xfer") 4))
          (handle_query_transfer_command machine)
          (branch (on_buffer (λ b. matches_string b (literal "fThreadInfo") 11))
            (handle_query_first_thread_info_command machine)
            (branch (on_buffer (λ b. matches_string b (literal "sThreadInfo") 11))
              (handle_query_subsequent_thread_info_command machine)
              (branch (on_buffer (λ b. matches_string b (literal "ThreadExtraInfo") 15))
                (handle_query_thread_extra_info_command machine)
                (branch (on_buffer (λ b. matches_string b (literal "Rcmd") 4))
                  (handle_monitor_command machine) (empty_response machine))))))
