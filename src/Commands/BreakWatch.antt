-- ===== src/Commands/BreakWatch.antt =====
-- core/cmd_break_watch.c: the commands 'Z' and 'z'. Each handler returns 0, which is left out.
use mri.Prelude.{ℕ, ◌%◌, ◌^◌, Bool, ◌&&◌, ◌==◌, if◌then◌else◌, List, [], ◌∷◌}
use mri.TryCatch.{invalid_argument_exception}
use mri.Libc.{c_string}
use mri.Buffer.Core.{Buffer, clear_exception_code, no_throw}
use mri.Buffer.Bytes.{read_char}
use mri.Packet.Link.{data_view}
use mri.Commands.Arguments.{throw_if_next_char_is_not_equal_to, read_uinteger_argument}
use mri.Commands.Session.{Session, with_buffer, prepare_string_response, mri_error_invalid_argument}

-- `BreakpointWatchpointArguments`
pub record BreakpointWatchpointArguments : Type 0 where
  pub address : ℕ
  pub kind : ℕ
  pub type : ℕ

-- `PlatformWatchpointType`
pub data PlatformWatchpointType : Type 0 where
  write_watchpoint read_watchpoint read_write_watchpoint : PlatformWatchpointType

-- What the handlers use of the platform: `Platform_SetHardwareBreakpointOfGdbKind`,
-- `Platform_SetHardwareWatchpoint` and the two that clear. The result is the code of the exception
-- that is thrown, 0 for none, beside the state.
pub record Comparators (S : Type 0) : Type 0 where
  pub set_hardware_breakpoint : (address kind : ℕ) → S → ℕ × S
  pub clear_hardware_breakpoint : (address kind : ℕ) → S → ℕ × S
  pub set_hardware_watchpoint : (address size : ℕ) → PlatformWatchpointType → S → ℕ × S
  pub clear_hardware_watchpoint : (address size : ℕ) → PlatformWatchpointType → S → ℕ × S

abbrev pub mri_error_no_free_breakpoint : List ℕ
mri_error_no_free_breakpoint = c_string (b'E' ∷ b'0' ∷ b'5' ∷ [])

-- `parseBreakpointWatchpointCommandArguments`; `always_hardware` is
-- `MRI_ALWAYS_USE_HARDWARE_BREAKPOINT`, and the numbers are kept in a `uint32_t`. What has not been
-- read when an exception is thrown is 0.
unfoldable pub parse_arguments : ℕ → Bool → Buffer → BreakpointWatchpointArguments × Buffer
parse_arguments bytes always_hardware b =
    let (type, b₁) = read_char (clear_exception_code b) in
    let b₂ = throw_if_next_char_is_not_equal_to b₁ b',' in
    let (address, b₃) = read_uinteger_argument bytes b₂ in
    let b₄ = throw_if_next_char_is_not_equal_to b₃ b',' in
    let (kind, b₅) = read_uinteger_argument bytes b₄ in
    let type' = if always_hardware && type == b'0' then b'1' else type in
    let none : BreakpointWatchpointArguments = record { address = 0; kind = 0; type = 0 } in
    if no_throw b₁
    then (if no_throw b₂
        then (if no_throw b₃
            then (if no_throw b₄
                then (
                  record {
                    address = address % 2 ^ 32;
                    kind = kind % 2 ^ 32;
                    type = if no_throw b₅ then type' else type;
                  },
                  b₅,
                )
                else (none, b₄))
            else (none, b₃))
        else (none, b₂))
    else (none, b₁)

module _ {S : Type 0} (comparators : Comparators S) (bytes packet_start packet_size : ℕ)
    (always_hardware : Bool) where
  -- `PrepareEmptyResponseForUnknownCommand`
  abbrev prepare_empty_response : Session S → Session S
  prepare_empty_response s = prepare_string_response packet_start packet_size s (c_string [])

  -- The response to what the platform has done; `handleBreakpointWatchpointException` when it throws.
  unfoldable pub answer_platform : Session S → ℕ × S → Session S
  answer_platform s done =
      let s' = record s { state = done.1 } in
      if done.0 == 0
      then prepare_string_response packet_start packet_size s' (c_string (b'O' ∷ b'K' ∷ []))
      else (if done.0 == invalid_argument_exception
          then prepare_string_response packet_start packet_size s' mri_error_invalid_argument
          else prepare_string_response packet_start packet_size s' mri_error_no_free_breakpoint)

  -- `handleHardwareBreakpointSetCommand` and `handleWatchpointSetCommand`
  unfoldable pub set_comparator : BreakpointWatchpointArguments → Session S → Session S
  set_comparator a s =
      if a.type == b'1'
      then answer_platform s (comparators.set_hardware_breakpoint a.address a.kind s.state)
      else if a.type == b'2'
      then answer_platform s
          (comparators.set_hardware_watchpoint a.address a.kind write_watchpoint s.state)
      else if a.type == b'3'
      then answer_platform s
          (comparators.set_hardware_watchpoint a.address a.kind read_watchpoint s.state)
      else if a.type == b'4'
      then answer_platform s
          (comparators.set_hardware_watchpoint a.address a.kind read_write_watchpoint s.state)
      else prepare_empty_response s

  -- `handleHardwareBreakpointRemoveCommand` and `handleWatchpointRemoveCommand`
  unfoldable pub clear_comparator : BreakpointWatchpointArguments → Session S → Session S
  clear_comparator a s =
      if a.type == b'1'
      then answer_platform s (comparators.clear_hardware_breakpoint a.address a.kind s.state)
      else if a.type == b'2'
      then answer_platform s
          (comparators.clear_hardware_watchpoint a.address a.kind write_watchpoint s.state)
      else if a.type == b'3'
      then answer_platform s
          (comparators.clear_hardware_watchpoint a.address a.kind read_watchpoint s.state)
      else if a.type == b'4'
      then answer_platform s
          (comparators.clear_hardware_watchpoint a.address a.kind read_write_watchpoint s.state)
      else prepare_empty_response s

  -- What the two handlers do before and around their `switch`.
  abbrev with_arguments :
      (BreakpointWatchpointArguments → Session S → Session S) → Session S → Session S
  with_arguments act s =
      let (arguments, b) =
        parse_arguments bytes always_hardware (clear_exception_code (data_view s.packet)) in
      let s' = with_buffer s b in
      if no_throw b
      then act arguments s'
      else prepare_string_response packet_start packet_size s' mri_error_invalid_argument

  -- `HandleBreakpointWatchpointSetCommand`
  unfoldable pub handle_breakpoint_watchpoint_set_command : Session S → Session S
  handle_breakpoint_watchpoint_set_command s = with_arguments set_comparator s

  -- `HandleBreakpointWatchpointRemoveCommand`
  unfoldable pub handle_breakpoint_watchpoint_remove_command : Session S → Session S
  handle_breakpoint_watchpoint_remove_command s = with_arguments clear_comparator s
