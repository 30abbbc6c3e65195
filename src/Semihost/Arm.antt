-- ===== src/Semihost/Arm.antt =====
-- semihost/arm/semihost_arm.c: the calls of the ARM semihosting interface.
use mri.Prelude.{
  ℕ, ◌+◌, ◌-◌, ◌*◌, ◌%◌, ◌^◌, ◌==◌, bit_and, bit_or, ltb, Bool, true, false, if◌then◌else◌, List,
  take, drop, length, get_or,
}
use mri.Objects.{value_of}
use mri.Monitor.State.{Machine, PlatformSemihostParameters}
use mri.Monitor.Monad.{Run, ◌>>=◌, ◌>>◌, pure, gets, ask, change_state}
use mri.Monitor.FileRequests.{
  TransferParameters, issue_gdb_file_open_request, issue_gdb_file_read_request,
  issue_gdb_file_close_request, issue_gdb_file_seek_request, issue_gdb_file_f_stat_request,
  issue_gdb_file_unlink_request, issue_gdb_file_rename_request,
}
use mri.Semihost.Console.{write_to_file_or_console}

-- The `i`th 32-bit word of a structure that has been read
abbrev word : List ℕ → ℕ → ℕ
word object i = value_of (take 4 (drop (4 * i) object))

-- `parameters` as `TransferParameters`
abbrev transfer : List ℕ → TransferParameters
transfer object = record {
  file_descriptor = word object 0;
  buffer_address = word object 1;
  buffer_size = word object 2;
}

-- The first part of `convertRealViewOpenModeToPosixOpenFlags`: the mode, and the disposition
unfoldable pub mode_and_disposition : ℕ → ℕ × ℕ
mode_and_disposition open_mode =
    if ltb 0 (bit_and open_mode 4)
    then (1, bit_or 512 1024)
    else if ltb 0 (bit_and open_mode 8)
    then (1, bit_or 512 8)
    else (0, 0)

-- `convertRealViewOpenModeToPosixOpenFlags`
unfoldable pub convert_real_view_open_mode_to_posix_open_flags : ℕ → ℕ
convert_real_view_open_mode_to_posix_open_flags open_mode =
    let (mode, disposition) = mode_and_disposition open_mode in
    bit_or (if ltb 0 (bit_and open_mode 2) then 2 else mode) disposition

-- `extractWordFromBigEndianByteArray`
unfoldable pub extract_word_from_big_endian_byte_array : List ℕ → ℕ
extract_word_from_big_endian_byte_array value = bit_or (get_or value 3 0) (
    bit_or (get_or value 2 0 * 2 ^ 8)
      (bit_or (get_or value 1 0 * 2 ^ 16) (get_or value 0 0 * 2 ^ 24)))

module _ {S : Type 0} (machine : Machine S) where
  -- `Platform_ReadMemory` of a structure of `count` bytes, and the return when it cannot be read
  abbrev with_object : ℕ → PlatformSemihostParameters → (List ℕ → Run S Bool) → Run S Bool
  with_object count p request = ask (machine.read_memory p.parameter2 count) >>= λ object.
      if length object == count then request object else pure false

  -- `handleArmSemihostOpenRequest`
  unfoldable pub handle_arm_semihost_open_request : PlatformSemihostParameters → Run S Bool
  handle_arm_semihost_open_request p = with_object 12 p (λ object.
      issue_gdb_file_open_request machine (record {
        filename_address = word object 0;
        filename_length = (word object 2 + 1) % 2 ^ 32;
        flags = convert_real_view_open_mode_to_posix_open_flags (word object 1);
        mode = 438;
      }))

  -- `handleArmSemihostIsTtyRequest`
  unfoldable pub handle_arm_semihost_is_tty_request : Run S Bool
  handle_arm_semihost_is_tty_request = do
    change_state machine.advance_program_counter
    change_state (machine.set_semihost_call_return_and_errno_values 0 0)
    pure true

  -- `convertBytesTransferredToBytesNotTransferred`
  unfoldable pub convert_bytes_transferred : ℕ → Run S (Unit {0})
  convert_bytes_transferred to_be_transferred = do
    transferred ← gets (λ m. m.semihost_return_code)
    if ltb transferred (2 ^ 31)
        then change_state (
            machine.set_semihost_call_return_and_errno_values
              ((to_be_transferred + 2 ^ 32 - transferred) % 2 ^ 32) 0)
        else pure tt

  -- What follows the request in the two handlers below
  abbrev then_convert : Run S Bool → ℕ → Run S Bool
  then_convert request size = do
    handled ← request
    if handled then convert_bytes_transferred size else pure tt
    pure handled

  -- `handleArmSemihostWriteRequest`
  unfoldable pub handle_arm_semihost_write_request : PlatformSemihostParameters → Run S Bool
  handle_arm_semihost_write_request p =
      with_object 12 p (λ object.
        then_convert (write_to_file_or_console machine (transfer object)) (word object 2))

  -- `handleArmSemihostReadRequest`
  unfoldable pub handle_arm_semihost_read_request : PlatformSemihostParameters → Run S Bool
  handle_arm_semihost_read_request p = with_object 12 p (λ object.
      then_convert (issue_gdb_file_read_request machine (transfer object)) (word object 2))

  -- `handleArmSemihostCloseRequest`
  unfoldable pub handle_arm_semihost_close_request : PlatformSemihostParameters → Run S Bool
  handle_arm_semihost_close_request p =
      with_object 4 p (λ object. issue_gdb_file_close_request machine (word object 0))

  -- `handleArmSemihostSeekRequest`
  unfoldable pub handle_arm_semihost_seek_request : PlatformSemihostParameters → Run S Bool
  handle_arm_semihost_seek_request p = with_object 8 p (λ object.
      issue_gdb_file_seek_request machine
        (record { file_descriptor = word object 0; offset = word object 1; whence = 0 }))

  -- The second part of `handleArmSemihostFileLengthRequest`: gdb has filled the structure in.
  unfoldable pub return_file_length : Run S (Unit {0})
  return_file_length = do
    bytes ← ask (machine.memory_bytes (machine.file_stats_address + 32) 4)
    change_state (
        machine.set_semihost_call_return_and_errno_values
          (extract_word_from_big_endian_byte_array bytes) 0)

  -- `handleArmSemihostFileLengthRequest`
  unfoldable pub handle_arm_semihost_file_length_request : PlatformSemihostParameters → Run S Bool
  handle_arm_semihost_file_length_request p = with_object 4 p (λ object.
      issue_gdb_file_f_stat_request machine (word object 0) (machine.file_stats_address % 2 ^ 32)
      >>= λ handled. gets (λ m. m.semihost_return_code) >>= λ return_code.
          (if handled then (if return_code == 0 then return_file_length else pure tt) else pure tt)
          >> pure handled)

  -- `handleArmSemihostRemoveRequest`
  unfoldable pub handle_arm_semihost_remove_request : PlatformSemihostParameters → Run S Bool
  handle_arm_semihost_remove_request p = with_object 8 p (λ object.
      issue_gdb_file_unlink_request machine (record {
        filename_address = word object 0;
        filename_length = (word object 1 + 1) % 2 ^ 32;
      }))

  -- `handleArmSemihostRenameRequest`
  unfoldable pub handle_arm_semihost_rename_request : PlatformSemihostParameters → Run S Bool
  handle_arm_semihost_rename_request p = with_object 16 p (λ object.
      issue_gdb_file_rename_request machine (record {
        orig_filename_address = word object 0;
        orig_filename_length = (word object 1 + 1) % 2 ^ 32;
        new_filename_address = word object 2;
        new_filename_length = (word object 3 + 1) % 2 ^ 32;
      }))

  -- `handleArmSemihostErrorNoRequest`
  unfoldable pub handle_arm_semihost_error_no_request : Run S Bool
  handle_arm_semihost_error_no_request = do
    change_state machine.advance_program_counter
    errno ← gets (λ m. m.semihost_errno)
    change_state (machine.set_semihost_call_return_and_errno_values errno 0)
    pure true

  -- `handleMbedSemihostUidRequest`; a pointer has as many bytes as a `uintmri_t`.
  unfoldable pub handle_mbed_semihost_uid_request : PlatformSemihostParameters → Run S Bool
  handle_mbed_semihost_uid_request p = do
    buffer ← ask (machine.memory_bytes p.parameter2 machine.bytes)
    size ← ask (machine.memory_bytes (p.parameter2 + machine.bytes) 4)
    change_state (machine.set_memory_bytes (value_of buffer) (take (value_of size) machine.uid))
    change_state machine.advance_program_counter
    change_state (machine.set_semihost_call_return_and_errno_values 0 0)
    pure true

  -- The `switch` of `Semihost_HandleArmSemihostRequest`, on `MRI_ARM_SEMIHOST_…`
  unfoldable pub handle_arm_operation : ℕ → PlatformSemihostParameters → Run S Bool
  handle_arm_operation op_code p =
      if op_code == 1
      then handle_arm_semihost_open_request p
      else if op_code == 2
      then handle_arm_semihost_close_request p
      else if op_code == 5
      then handle_arm_semihost_write_request p
      else if op_code == 6
      then handle_arm_semihost_read_request p
      else if op_code == 9
      then handle_arm_semihost_is_tty_request
      else if op_code == 10
      then handle_arm_semihost_seek_request p
      else if op_code == 12
      then handle_arm_semihost_file_length_request p
      else if op_code == 14
      then handle_arm_semihost_remove_request p
      else if op_code == 15
      then handle_arm_semihost_rename_request p
      else if op_code == 19
      then handle_arm_semihost_error_no_request
      else if op_code == 257
      then handle_mbed_semihost_uid_request p
      else pure false

  -- `Semihost_HandleArmSemihostRequest`
  abbrev pub handle_arm_semihost_request : PlatformSemihostParameters → Run S Bool
  handle_arm_semihost_request p = handle_arm_operation (p.parameter1 % 2 ^ 32) p
