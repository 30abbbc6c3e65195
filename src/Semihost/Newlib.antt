-- ===== src/Semihost/Newlib.antt =====
-- semihost/newlib/semihost_newlib.c: the calls of newlib's stubs.
use mri.Prelude.{ℕ, ◌%◌, ◌^◌, ◌==◌, Bool, true, false, if◌then◌else◌, Option}
use mri.Monitor.State.{Machine, PlatformSemihostParameters}
use mri.Monitor.Monad.{Run, ◌>>=◌, ◌>>◌, pure, gets, ask}
use mri.Monitor.FileIo.{set_semihost_return_values}
use mri.Monitor.FileRequests.{
  issue_gdb_file_open_request, issue_gdb_file_read_request, issue_gdb_file_close_request,
  issue_gdb_file_seek_request, issue_gdb_file_f_stat_request, issue_gdb_file_unlink_request,
  issue_gdb_file_stat_request, issue_gdb_file_rename_request, flag_semihost_call_as_handled,
  TransferParameters,
}
use mri.Semihost.Console.{write_to_file_or_console}

-- A `uint32_t` or an `int32_t` of a parameter
abbrev cut : ℕ → ℕ
cut parameter = parameter % 2 ^ 32

-- `TransferParameters` of the call
abbrev transfer : PlatformSemihostParameters → TransferParameters
transfer p = record {
  file_descriptor = cut p.parameter1;
  buffer_address = cut p.parameter2;
  buffer_size = cut p.parameter3;
}

-- `mriCoreSetDebuggerHooks`; `none` is NULL.
abbrev pub set_debugger_hooks : {S : Type 0} → Option (S → S) → Option (S → S) → Run S (Unit {0})
set_debugger_hooks entering leaving m =
    pure tt (record m { entering_hook = entering; leaving_hook = leaving })

module _ {S : Type 0} (machine : Machine S) where
  -- `handleNewlibSemihostWriteRequest`
  unfoldable pub handle_newlib_semihost_write_request : PlatformSemihostParameters → Run S Bool
  handle_newlib_semihost_write_request p = write_to_file_or_console machine (transfer p)

  -- `handleNewlibSemihostReadRequest`
  unfoldable pub handle_newlib_semihost_read_request : PlatformSemihostParameters → Run S Bool
  handle_newlib_semihost_read_request p = issue_gdb_file_read_request machine (transfer p)

  -- `handleNewlibSemihostOpenRequest`
  unfoldable pub handle_newlib_semihost_open_request : PlatformSemihostParameters → Run S Bool
  handle_newlib_semihost_open_request p = issue_gdb_file_open_request machine (record {
    filename_address = cut p.parameter1;
    filename_length = cut p.parameter2;
    flags = cut p.parameter3;
    mode = cut p.parameter4;
  })

  -- `handleNewlibSemihostUnlinkRequest`
  unfoldable pub handle_newlib_semihost_unlink_request : PlatformSemihostParameters → Run S Bool
  handle_newlib_semihost_unlink_request p =
      issue_gdb_file_unlink_request machine
        (record { filename_address = cut p.parameter1; filename_length = cut p.parameter2 })

  -- `handleNewlibSemihostLSeekRequest`
  unfoldable pub handle_newlib_semihost_l_seek_request : PlatformSemihostParameters → Run S Bool
  handle_newlib_semihost_l_seek_request p = issue_gdb_file_seek_request machine (record {
    file_descriptor = cut p.parameter1;
    offset = cut p.parameter2;
    whence = cut p.parameter3;
  })

  -- `handleNewlibSemihostStatRequest`
  unfoldable pub handle_newlib_semihost_stat_request : PlatformSemihostParameters → Run S Bool
  handle_newlib_semihost_stat_request p = issue_gdb_file_stat_request machine (record {
    filename_address = cut p.parameter1;
    filename_length = cut p.parameter2;
    file_stat_buffer = cut p.parameter3;
  })

  -- `handleNewlibSemihostRenameRequest`
  unfoldable pub handle_newlib_semihost_rename_request : PlatformSemihostParameters → Run S Bool
  handle_newlib_semihost_rename_request p = issue_gdb_file_rename_request machine (record {
    orig_filename_address = cut p.parameter1;
    orig_filename_length = cut p.parameter2;
    new_filename_address = cut p.parameter3;
    new_filename_length = cut p.parameter4;
  })

  -- `handleNewlibSemihostGetErrNoRequest`
  unfoldable pub handle_newlib_semihost_get_err_no_request : Run S Bool
  handle_newlib_semihost_get_err_no_request = do
    errno ← gets (λ m. m.semihost_errno)
    set_semihost_return_values errno 0
    flag_semihost_call_as_handled machine
    pure true

  -- `handleNewlibSemihostSetHooksRequest`; the pointers are functions of the debuggee.
  unfoldable pub handle_newlib_semihost_set_hooks_request : PlatformSemihostParameters → Run S Bool
  handle_newlib_semihost_set_hooks_request p = do
    set_debugger_hooks (machine.hook_at p.parameter1 p.parameter3)
        (machine.hook_at p.parameter2 p.parameter3)
    set_semihost_return_values 0 0
    flag_semihost_call_as_handled machine
    pure true

  -- The `switch` of `Semihost_HandleNewlibSemihostRequest`, on `MRI_NEWLIB_SEMIHOST_…`
  unfoldable pub handle_newlib_operation : ℕ → PlatformSemihostParameters → Run S Bool
  handle_newlib_operation operation p =
      if operation == 247
      then handle_newlib_semihost_write_request p
      else if operation == 248
      then handle_newlib_semihost_read_request p
      else if operation == 249
      then handle_newlib_semihost_open_request p
      else if operation == 251
      then handle_newlib_semihost_unlink_request p
      else if operation == 253
      then handle_newlib_semihost_l_seek_request p
      else if operation == 254
      then issue_gdb_file_close_request machine (cut p.parameter1)
      else if operation == 255
      then issue_gdb_file_f_stat_request machine (cut p.parameter1) (cut p.parameter2)
      else if operation == 252
      then handle_newlib_semihost_stat_request p
      else if operation == 250
      then handle_newlib_semihost_rename_request p
      else if operation == 246
      then handle_newlib_semihost_get_err_no_request
      else if operation == 245
      then handle_newlib_semihost_set_hooks_request p
      else pure false

  -- `Semihost_HandleNewlibSemihostRequest`
  unfoldable pub handle_newlib_semihost_request : PlatformSemihostParameters → Run S Bool
  handle_newlib_semihost_request p = do
    operation ← ask machine.get_newlib_semihost_operation
    handle_newlib_operation operation p
