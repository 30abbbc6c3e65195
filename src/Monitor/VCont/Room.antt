-- ===== src/Monitor/VCont/Room.antt =====
-- core/cmd_vcont.c: the room of the buffer as the actions of a "vCont" are read.
use mri.Prelude.{ℕ, ◌≤◌, ◌<◌, ◌≡◌, arith, Bool, true, false, if◌then◌else◌}
use mri.Libc.{literal}
use mri.Buffer.Core.{Buffer, bytes_left, clear_exception_code, throw, overrun_detected}
use mri.Buffer.Bytes.{read_char, read_byte_as_hex}
use mri.Buffer.Integers.{is_next_char_equal_to, read_uinteger_as_hex}
use mri.Buffer.Matching.{matches_string}
use mri.Buffer.Room.{
  read_char-shrinks, read_byte_as_hex-shrinks, is_next_char_equal_to-shrinks,
  is_next_char_equal_to-takes, matches_string-shrinks, read_uinteger_as_hex-shrinks,
}
use mri.Commands.Arguments.{throw_if_next_char_is_not_equal_to}
use mri.Monitor.Continue.{take_semicolon}
use mri.Monitor.VCont.Parse.{
  ActionType, Action, parse_optional_thread_id, parse_plain_action, parse_action_with_signal,
  parse_address_range, parse_ranged_single_step_action, parse_action,
}

pub take_semicolon-takes :
    (b : Buffer) → (take_semicolon b).0 ≡ true → bytes_left ((take_semicolon b).1) < bytes_left b
unfolding take_semicolon bytes_left overrun_detected
take_semicolon-takes b h = ground (arith, is_next_char_equal_to-takes b b';')

throw_if_not-shrinks :
    (b : Buffer) (c : ℕ) → bytes_left (throw_if_next_char_is_not_equal_to b c) ≤ bytes_left b
unfolding throw_if_next_char_is_not_equal_to bytes_left overrun_detected
throw_if_not-shrinks b c = ground (arith, is_next_char_equal_to-shrinks b c)

parse_optional_thread_id-shrinks :
    (bytes : ℕ) (b : Buffer) → bytes_left ((parse_optional_thread_id bytes b).1) ≤ bytes_left b
unfolding parse_optional_thread_id bytes_left overrun_detected
parse_optional_thread_id-shrinks bytes b =
    let b₁ = (is_next_char_equal_to b b':').1 in
    let b₂ = (matches_string b₁ (literal "-1") 2).1 in
    ground (
      arith,
      is_next_char_equal_to-shrinks b b':',
      matches_string-shrinks b₁ (literal "-1") 2,
      read_uinteger_as_hex-shrinks bytes (clear_exception_code b₂),
    )

parse_action_with_signal-shrinks :
    (bytes : ℕ) (type : ActionType) (b : Buffer)
    → bytes_left ((parse_action_with_signal bytes type b).1) ≤ bytes_left b
unfolding parse_action_with_signal parse_plain_action bytes_left overrun_detected
parse_action_with_signal-shrinks bytes type b =
    let b₁ = (read_byte_as_hex (clear_exception_code b)).1 in
    ground (
      arith,
      read_byte_as_hex-shrinks (clear_exception_code b),
      parse_optional_thread_id-shrinks bytes b₁,
    )

parse_address_range-shrinks :
    (bytes : ℕ) (b : Buffer) → bytes_left ((parse_address_range bytes b).1) ≤ bytes_left b
unfolding parse_address_range bytes_left overrun_detected
parse_address_range-shrinks bytes b =
    let b₁ = (read_uinteger_as_hex bytes (clear_exception_code b)).1 in
    let b₂ = throw_if_next_char_is_not_equal_to b₁ b',' in
    ground (
      arith,
      read_uinteger_as_hex-shrinks bytes (clear_exception_code b),
      throw_if_not-shrinks b₁ b',',
      read_uinteger_as_hex-shrinks bytes b₂,
    )

parse_ranged-shrinks :
    (bytes : ℕ) (b : Buffer)
    → bytes_left ((parse_ranged_single_step_action bytes b).1) ≤ bytes_left b
unfolding parse_ranged_single_step_action bytes_left overrun_detected
parse_ranged-shrinks bytes b =
    let b₁ = (parse_address_range bytes (clear_exception_code b)).1 in
    ground (
      arith,
      parse_address_range-shrinks bytes (clear_exception_code b),
      parse_optional_thread_id-shrinks bytes b₁,
    )

parse_plain_action-shrinks :
    (bytes : ℕ) (type : ActionType) (b : Buffer)
    → bytes_left ((parse_plain_action bytes type b).1) ≤ bytes_left b
unfolding parse_plain_action
parse_plain_action-shrinks bytes type b = parse_optional_thread_id-shrinks bytes b

shrinks-if :
    (t : Bool) (p q : Action × Buffer) (n : ℕ)
    → bytes_left (p.1) ≤ n
    → bytes_left (q.1) ≤ n
    → bytes_left ((if t then p else q).1) ≤ n
shrinks-if true p q n h k = h
shrinks-if false p q n h k = k

throw-shrinks : (code : ℕ) (b : Buffer) → bytes_left (throw code b) ≤ bytes_left b
unfolding bytes_left overrun_detected
throw-shrinks code b = omega arith

parse_action-after_char :
    (bytes : ℕ) (b : Buffer) → bytes_left ((parse_action bytes b).1) ≤ bytes_left ((read_char b).1)
unfolding parse_action
parse_action-after_char bytes b =
    search
      (
        shrinks-if, parse_plain_action-shrinks, parse_action_with_signal-shrinks,
        parse_ranged-shrinks, throw-shrinks,
      )
      depth 12

pub parse_action-shrinks :
    (bytes : ℕ) (b : Buffer) → bytes_left ((parse_action bytes b).1) ≤ bytes_left b
parse_action-shrinks bytes b = omega (arith, parse_action-after_char bytes b, read_char-shrinks b)

pub parse_action-shrinks_cleared :
    (bytes : ℕ) (b : Buffer)
    → bytes_left ((parse_action bytes (clear_exception_code b)).1) ≤ bytes_left b
unfolding bytes_left overrun_detected
parse_action-shrinks_cleared bytes b = parse_action-shrinks bytes (clear_exception_code b)
