-- ===== src/Monitor/FileRequests.antt =====
-- core/cmd_file.c: the requests for a file, which are sent to gdb and wait for its command 'F'.
use mri.Prelude.{ℕ, ◌==◌, Bool, true, false, if◌then◌else◌, String}
use mri.Libc.{literal}
use mri.Buffer.Core.{Buffer}
use mri.Buffer.Bytes.{write_char, write_string}
use mri.Buffer.Integers.{write_uinteger_as_hex, write_integer_as_hex, sign_extend_int}
use mri.Monitor.State.{Machine}
use mri.Monitor.Signal.{sigint, eintr}
use mri.Monitor.Monad.{Run, ◌>>=◌, ◌>>◌, pure, gets, change_buffer, change_state}
use mri.Monitor.Console.{init_buffers, send_packet_to_gdb}
use mri.Monitor.Loop.{gdb_command_handling_loop}

-- `OpenParameters`, and the parameters of the other requests. An `int32_t` is its 32-bit pattern.
pub record OpenParameters : Type 0 where
  pub filename_address : ℕ
  pub filename_length : ℕ
  pub flags : ℕ
  pub mode : ℕ

pub record TransferParameters : Type 0 where
  pub file_descriptor : ℕ
  pub buffer_address : ℕ
  pub buffer_size : ℕ

pub record SeekParameters : Type 0 where
  pub file_descriptor : ℕ
  pub offset : ℕ
  pub whence : ℕ

pub record RemoveParameters : Type 0 where
  pub filename_address : ℕ
  pub filename_length : ℕ

pub record StatParameters : Type 0 where
  pub filename_address : ℕ
  pub filename_length : ℕ
  pub file_stat_buffer : ℕ

pub record RenameParameters : Type 0 where
  pub orig_filename_address : ℕ
  pub orig_filename_length : ℕ
  pub new_filename_address : ℕ
  pub new_filename_length : ℕ

-- `SetSignalValue`
abbrev pub set_signal_value : {S : Type 0} → ℕ → Run S (Unit {0})
set_signal_value signal m = pure tt (record m { signal_value = signal })

module _ {S : Type 0} (machine : Machine S) where
  -- `FlagSemihostCallAsHandled`
  unfoldable pub flag_semihost_call_as_handled : Run S (Unit {0})
  flag_semihost_call_as_handled = do
    change_state machine.advance_program_counter
    return_code ← gets (λ m. m.semihost_return_code)
    errno ← gets (λ m. m.semihost_errno)
    change_state (machine.set_semihost_call_return_and_errno_values return_code errno)

  -- `processGdbFileResponseCommands`
  unfoldable pub process_gdb_file_response_commands : Run S Bool
  process_gdb_file_response_commands = do
    gdb_command_handling_loop machine
    control_c ← gets (λ m. m.semihost_control_c)
    errno ← gets (λ m. m.semihost_errno)
    if control_c
        then ((if errno == eintr then pure tt else flag_semihost_call_as_handled)
            >> (set_signal_value sigint >> pure false))
        else (flag_semihost_call_as_handled >> pure true)

  -- What all requests have in common; `write` puts the request into the buffer.
  abbrev issue : (Buffer → Buffer) → Run S Bool
  issue write = do
    init_buffers machine
    change_buffer write
    send_packet_to_gdb machine
    process_gdb_file_response_commands

  -- The name of the request, with the first number
  abbrev name_with : String → ℕ → Buffer → Buffer
  name_with name value b = write_uinteger_as_hex machine.bytes (write_string b (literal name)) value

  -- A separator and a number, unsigned or signed
  abbrev field : ℕ → ℕ → Buffer → Buffer
  field separator value b = write_uinteger_as_hex machine.bytes (write_char b separator) value

  abbrev signed_field : ℕ → ℕ → Buffer → Buffer
  signed_field separator value b =
      write_integer_as_hex machine.bytes (write_char b separator)
        (sign_extend_int machine.bytes value)

  -- `IssueGdbFileOpenRequest`
  unfoldable pub issue_gdb_file_open_request : OpenParameters → Run S Bool
  issue_gdb_file_open_request p = issue (λ b.
      field b',' p.mode (
        field b',' p.flags
          (field b'/' p.filename_length (name_with "Fopen," p.filename_address b))))

  -- `IssueGdbFileWriteRequest`; the size becomes a `uintmri_t`.
  unfoldable pub issue_gdb_file_write_request : TransferParameters → Run S Bool
  issue_gdb_file_write_request p = issue (λ b.
      field b',' (sign_extend_int machine.bytes p.buffer_size)
        (field b',' p.buffer_address (name_with "Fwrite," p.file_descriptor b)))

  -- `IssueGdbFileReadRequest`
  unfoldable pub issue_gdb_file_read_request : TransferParameters → Run S Bool
  issue_gdb_file_read_request p = issue (λ b.
      field b',' (sign_extend_int machine.bytes p.buffer_size)
        (field b',' p.buffer_address (name_with "Fread," p.file_descriptor b)))

  -- `IssueGdbFileCloseRequest`
  unfoldable pub issue_gdb_file_close_request : ℕ → Run S Bool
  issue_gdb_file_close_request file_descriptor = issue (λ b. name_with "Fclose," file_descriptor b)

  -- `IssueGdbFileSeekRequest`
  unfoldable pub issue_gdb_file_seek_request : SeekParameters → Run S Bool
  issue_gdb_file_seek_request p = issue (λ b.
      signed_field b',' p.whence
        (signed_field b',' p.offset (name_with "Flseek," p.file_descriptor b)))

  -- `IssueGdbFileFStatRequest`
  unfoldable pub issue_gdb_file_f_stat_request : ℕ → ℕ → Run S Bool
  issue_gdb_file_f_stat_request file_descriptor file_stat_buffer =
      issue (λ b. field b',' file_stat_buffer (name_with "Ffstat," file_descriptor b))

  -- `IssueGdbFileUnlinkRequest`
  unfoldable pub issue_gdb_file_unlink_request : RemoveParameters → Run S Bool
  issue_gdb_file_unlink_request p =
      issue (λ b. field b'/' p.filename_length (name_with "Funlink," p.filename_address b))

  -- `IssueGdbFileStatRequest`
  unfoldable pub issue_gdb_file_stat_request : StatParameters → Run S Bool
  issue_gdb_file_stat_request p = issue (λ b.
      field b',' p.file_stat_buffer
        (field b'/' p.filename_length (name_with "Fstat," p.filename_address b)))

  -- `IssueGdbFileRenameRequest`
  unfoldable pub issue_gdb_file_rename_request : RenameParameters → Run S Bool
  issue_gdb_file_rename_request p = issue (λ b. field b'/' p.new_filename_length (
      field b',' p.new_filename_address
        (field b'/' p.orig_filename_length (name_with "Frename," p.orig_filename_address b))))
