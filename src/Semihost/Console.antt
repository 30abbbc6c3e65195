-- ===== src/Semihost/Console.antt =====
-- semihost/semihost.c: what the debuggee writes, to a file or to gdb's console.
use mri.Prelude.{◌==◌, Bool, true, false, if◌then◌else◌}
use mri.Buffer.Integers.{sign_extend_int}
use mri.Monitor.State.{Machine}
use mri.Monitor.Signal.{sigint}
use mri.Monitor.Monad.{Run, ◌>>=◌, ◌>>◌, pure, gets, ask}
use mri.Monitor.Console.{write_sized_string_to_gdb_console}
use mri.Monitor.FileIo.{set_semihost_return_values}
use mri.Monitor.FileRequests.{
  TransferParameters, issue_gdb_file_write_request, flag_semihost_call_as_handled, set_signal_value,
}

module _ {S : Type 0} (machine : Machine S) where
  -- `writeToGdbConsole`; the size becomes a `size_t`.
  unfoldable pub write_to_gdb_console : TransferParameters → Run S Bool
  write_to_gdb_console p = do
    string ←
        ask (machine.memory_bytes p.buffer_address (sign_extend_int machine.bytes p.buffer_size))
    written ←
        write_sized_string_to_gdb_console machine string
          (sign_extend_int machine.bytes p.buffer_size)
    set_semihost_return_values written 0
    flag_semihost_call_as_handled machine
    control_c ← gets (λ m. m.session.packet.control_c)
    if control_c then (set_signal_value sigint >> pure false) else pure true

  -- `Semihost_WriteToFileOrConsole`
  unfoldable pub write_to_file_or_console : TransferParameters → Run S Bool
  write_to_file_or_console p =
      if p.file_descriptor == 1
      then write_to_gdb_console p
      else issue_gdb_file_write_request machine p
