-- ===== src/Buffer/Room.antt =====
-- The room of a buffer of core/buffer.c, before and behind each routine.
use mri.Prelude.{
  ℕ, ◌+◌, ◌-◌, ◌/◌, ◌%◌, ◌^◌, ◌<◌, ◌≤◌, ◌≡◌, arith, List, ltb, if◌then◌else◌, zero, suc, Bool-cases,
  inl, inr, true, false,
}
use mri.Buffer.Core.{
  Buffer, no_throw, clear_exception_code, bytes_left, overrun_detected, throw_and_flag_if_left_lt,
  throw_if_left_lt, put,
}
use mri.Buffer.Bytes.{write_char, read_char, write_byte_as_hex, read_byte_as_hex}
use mri.Buffer.Integers.{
  push_back_last_char, clear_overrun, is_next_char_equal_to, parse_next_hex_digit, parse_hex_digits,
  read_uinteger_as_hex, write_low_bytes, write_uinteger_as_hex, count_leading_zero_bytes,
}
use mri.Buffer.Matching.{matches_with, matches_string, does_buffer_contain_this_string}

-- The room left, by the pointers alone
abbrev left : ℕ → ℕ → ℕ
left last current = if ltb last current then 0 else last - current

left-eq : (last current : ℕ) → left last current ≡ last - current
left-eq last current = ground arith

pub bytes_left-eq : (b : Buffer) → bytes_left b ≡ b.last - b.current
unfolding bytes_left overrun_detected
bytes_left-eq b = left-eq b.last b.current

pub read_char-shrinks : (b : Buffer) → bytes_left ((read_char b).1) ≤ bytes_left b
unfolding read_char throw_and_flag_if_left_lt bytes_left overrun_detected
read_char-shrinks b = ground arith

pub is_next_char_equal_to-shrinks :
    (b : Buffer) (c : ℕ) → bytes_left ((is_next_char_equal_to b c).1) ≤ bytes_left b
unfolding is_next_char_equal_to throw_if_left_lt bytes_left overrun_detected
is_next_char_equal_to-shrinks b c = ground arith

pub is_next_char_equal_to-takes :
    (b : Buffer) (c : ℕ)
    → (is_next_char_equal_to b c).0 ≡ true
    → bytes_left ((is_next_char_equal_to b c).1) < bytes_left b
unfolding is_next_char_equal_to throw_if_left_lt bytes_left overrun_detected
is_next_char_equal_to-takes b c h = ground arith

pub write_char-shrinks : (b : Buffer) (c : ℕ) → bytes_left (write_char b c) ≤ bytes_left b
unfolding write_char throw_and_flag_if_left_lt put bytes_left overrun_detected
write_char-shrinks b c = ground arith

pub write_char-takes :
    (b : Buffer) (c : ℕ) → 0 < bytes_left b → bytes_left (write_char b c) < bytes_left b
unfolding write_char throw_and_flag_if_left_lt put bytes_left overrun_detected
write_char-takes b c h = ground arith

pub write_byte_as_hex-shrinks :
    (b : Buffer) (c : ℕ) → bytes_left (write_byte_as_hex b c) ≤ bytes_left b
unfolding write_byte_as_hex throw_and_flag_if_left_lt put bytes_left overrun_detected
write_byte_as_hex-shrinks b c = ground arith

pub read_byte_as_hex-shrinks : (b : Buffer) → bytes_left ((read_byte_as_hex b).1) ≤ bytes_left b
unfolding read_byte_as_hex throw_and_flag_if_left_lt bytes_left overrun_detected
read_byte_as_hex-shrinks b = ground arith

pub matches_string-shrinks :
    (b : Buffer) (string : List ℕ) (length : ℕ)
    → bytes_left ((matches_string b string length).1) ≤ bytes_left b
unfolding matches_string matches_with does_buffer_contain_this_string throw_if_left_lt bytes_left
    overrun_detected
matches_string-shrinks b string length = ground arith

parse_next_hex_digit-shrinks :
    (bytes : ℕ) (b : Buffer) (value : ℕ)
    → bytes_left ((parse_next_hex_digit bytes b value).1) ≤ bytes_left b
unfolding parse_next_hex_digit read_char push_back_last_char throw_and_flag_if_left_lt bytes_left
    overrun_detected
parse_next_hex_digit-shrinks bytes b value = ground arith

parse_hex_digits-shrinks :
    (bytes fuel : ℕ) (b : Buffer) (value digits : ℕ)
    → bytes_left ((parse_hex_digits bytes fuel b value digits).2) ≤ bytes_left b
unfolding parse_hex_digits bytes_left overrun_detected
parse_hex_digits-shrinks bytes zero b value digits = omega arith
parse_hex_digits-shrinks bytes (suc fuel) b value digits =
    let (value', b') = parse_next_hex_digit bytes (clear_exception_code b) value in
    ground (
      arith,
      parse_next_hex_digit-shrinks bytes (clear_exception_code b) value,
      parse_hex_digits-shrinks bytes fuel b' value' (digits + 1),
    )

clear_overrun-shrinks : (b : Buffer) → bytes_left (clear_overrun b) ≤ bytes_left b
unfolding clear_overrun bytes_left overrun_detected
clear_overrun-shrinks b = ground arith

pub read_uinteger_as_hex-shrinks :
    (bytes : ℕ) (b : Buffer) → bytes_left ((read_uinteger_as_hex bytes b).1) ≤ bytes_left b
unfolding read_uinteger_as_hex bytes_left overrun_detected
read_uinteger_as_hex-shrinks bytes b =
    let parsed = parse_hex_digits bytes (bytes_left b + 1) b 0 0 in
    ground (
      arith,
      parse_hex_digits-shrinks bytes (bytes_left b + 1) b 0 0,
      clear_overrun-shrinks (clear_exception_code (parsed.2)),
    )

write_low_bytes-shrinks :
    (bytes : ℕ) (b : Buffer) (value n : ℕ)
    → bytes_left (write_low_bytes bytes b value n) ≤ bytes_left b
unfolding write_low_bytes bytes_left overrun_detected
write_low_bytes-shrinks bytes b value zero = omega arith
write_low_bytes-shrinks bytes b value (suc n) =
    let byte = value / 256 ^ n % 256 in
    let b' = write_byte_as_hex (clear_exception_code b) byte in
    ground (
      arith,
      write_byte_as_hex-shrinks (clear_exception_code b) byte,
      write_low_bytes-shrinks bytes b' value n,
    )

pub write_uinteger_as_hex-shrinks :
    (bytes : ℕ) (b : Buffer) (value : ℕ)
    → bytes_left (write_uinteger_as_hex bytes b value) ≤ bytes_left b
unfolding write_uinteger_as_hex bytes_left overrun_detected
write_uinteger_as_hex-shrinks bytes b value = ground (
  arith,
  write_byte_as_hex-shrinks b 0,
  write_low_bytes-shrinks bytes b value (bytes - count_leading_zero_bytes bytes value),
)

read_char-takes :
    (b : Buffer) → no_throw ((read_char b).1) ≡ true → bytes_left ((read_char b).1) < bytes_left b
unfolding read_char throw_and_flag_if_left_lt bytes_left overrun_detected
read_char-takes b h = ground arith

-- A round of the `for` of `Buffer_ReadUIntegerAsHex` throws, or takes a character.
parse_next_hex_digit-takes :
    (bytes : ℕ) (b : Buffer) (value : ℕ)
    → no_throw ((parse_next_hex_digit bytes b value).1) ≡ true
    → bytes_left ((parse_next_hex_digit bytes b value).1) < bytes_left b
unfolding parse_next_hex_digit read_char push_back_last_char throw_and_flag_if_left_lt bytes_left
    overrun_detected
parse_next_hex_digit-takes bytes b value h = ground arith

-- It is an exception that ends the loop.
pub parse_hex_digits-throws :
    (bytes fuel : ℕ) (b : Buffer) (value digits : ℕ)
    → bytes_left b < fuel
    → no_throw ((parse_hex_digits bytes fuel b value digits).2) ≡ false
unfolding parse_hex_digits
parse_hex_digits-throws bytes zero b value digits h = absurd (omega arith)
parse_hex_digits-throws bytes (suc fuel) b value digits h =
    let r = parse_next_hex_digit bytes (clear_exception_code b) value in
    elim (Bool-cases (no_throw (r.1))) [
      | inl more ↦ rw more (
          parse_hex_digits-throws bytes fuel (r.1) (r.0) (digits + 1) (
            omega (
              arith,
              h,
              parse_next_hex_digit-takes bytes (clear_exception_code b) value more,
              bytes_left-eq b,
              bytes_left-eq (clear_exception_code b),
            )))
      | inr thrown ↦ rw thrown thrown
    ]
