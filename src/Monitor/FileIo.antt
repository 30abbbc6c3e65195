-- ===== src/Monitor/FileIo.antt =====
-- core/cmd_file.c: the command 'F', gdb's answer to a request for a file.
use mri.Prelude.{ℕ, ◌%◌, ◌^◌, Bool, false}
use mri.Libc.{literal}
use mri.Buffer.Integers.{is_next_char_equal_to, read_integer_as_hex}
use mri.Buffer.Matching.{matches_string}
use mri.Monitor.State.{Machine, HandlerReturn, resume_immediately}
use mri.Monitor.Monad.{Run, ◌>>=◌, ◌>>◌, pure, on_buffer, clear_exception, branch}

-- `SetSemihostReturnValues`; the values are `int`s.
abbrev pub set_semihost_return_values : {S : Type 0} → ℕ → ℕ → Run S (Unit {0})
set_semihost_return_values return_code errno m =
    pure tt
      (record m { semihost_return_code = return_code % 2 ^ 32; semihost_errno = errno % 2 ^ 32 })

-- `RecordControlCFlagSentFromGdb`
abbrev pub record_control_c_flag : {S : Type 0} → Bool → Run S (Unit {0})
record_control_c_flag flag m = pure tt (record m { semihost_control_c = flag })

module _ {S : Type 0} (machine : Machine S) where
  -- The error number, and whether the user has pressed Ctrl+C
  unfoldable pub read_errno_and_flag : Run S (ℕ × Bool)
  read_errno_and_flag =
      branch (on_buffer (λ b. is_next_char_equal_to b b','))
        (do
          errno ← on_buffer (read_integer_as_hex machine.bytes)
          flag ← on_buffer (λ b. matches_string b (literal ",C") 2)
          pure (errno, flag))
        (pure (0, false))

  -- `HandleFileIOCommand`
  unfoldable pub handle_file_io_command : Run S HandlerReturn
  handle_file_io_command = do
    return_code ← on_buffer (read_integer_as_hex machine.bytes)
    (errno, flag) ← read_errno_and_flag
    set_semihost_return_values return_code errno
    record_control_c_flag flag
    clear_exception
    pure resume_immediately
