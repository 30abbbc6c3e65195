-- ===== src/Buffer/Integers.antt =====
-- core/buffer.c: unsigned and signed integers as hexadecimal text.
-- `bytes` is sizeof(uintmri_t): 4 on the Cortex-M targets, and 8 where the tests are built for a
-- 64-bit host. An `intmri_t` is its two's complement bit pattern, below 256 ^ bytes.
use mri.Prelude.{
  ℕ, zero, suc, ◌+◌, ◌-◌, ◌*◌, ◌/◌, ◌%◌, ◌^◌, Bool, true, false, not, ◌&&◌, ltb, leb, ◌==◌,
  if◌then◌else◌,
}
use mri.TryCatch.{invalid_value_exception}
use mri.Buffer.Core.{
  Buffer, clear_exception_code, throw, no_throw, overrun_detected, bytes_left, throw_if_left_lt,
  peek_at,
}
use mri.Buffer.Bytes.{write_char, read_char, write_byte_as_hex, to_nibble}

unfoldable pub push_back_last_char : Buffer → Buffer
push_back_last_char b = if ltb b.start b.current then record b { current = b.current - 1 } else b

unfoldable pub clear_overrun : Buffer → Buffer
unfolding overrun_detected
clear_overrun b = if overrun_detected b then record b { current = b.last } else b

unfoldable pub is_next_char_equal_to : Buffer → ℕ → Bool × Buffer
unfolding throw_if_left_lt peek_at
is_next_char_equal_to b this_char =
    let b' = throw_if_left_lt (clear_exception_code b) 1 in
    if no_throw b'
    then (if peek_at b' 0 == this_char
        then (true, record b' { current = b'.current + 1 })
        else (false, b'))
    else (false, b')

module _ (bytes : ℕ) where
  -- `parseNextHexDigitAndAddNibbleToValue`
  unfoldable pub parse_next_hex_digit : Buffer → ℕ → ℕ × Buffer
  parse_next_hex_digit b current_value =
      let (next_char, b₁) = read_char (clear_exception_code b) in
      let (nibble, b₂) = to_nibble (clear_exception_code b₁) next_char in
      if no_throw b₁
      then (if no_throw b₂
          then ((current_value * 16 + nibble) % 256 ^ bytes, b₂)
          else (current_value, push_back_last_char b₂))
      else (current_value, b₁)

  -- The endless `for`, on fuel: a round that does not end the loop reads a character. The results
  -- are the value and `hexDigitsParsed`.
  unfoldable pub parse_hex_digits : ℕ → Buffer → ℕ → ℕ → ℕ × ℕ × Buffer
  parse_hex_digits zero b value digits = (value, digits, b)
  parse_hex_digits (suc fuel) b value digits =
      let (value', b') = parse_next_hex_digit (clear_exception_code b) value in
      let rest = parse_hex_digits fuel b' value' (digits + 1) in
      if no_throw b' then rest else (value', digits, b')

  -- The `for` on the fuel that it is given, from its start
  abbrev pub parse_all_hex_digits : Buffer → ℕ × ℕ × Buffer
  parse_all_hex_digits b = parse_hex_digits (bytes_left b + 1) b 0 0

  unfoldable pub read_uinteger_as_hex : Buffer → ℕ × Buffer
  read_uinteger_as_hex b =
      let (value, digits, b₁) = parse_all_hex_digits b in
      let b₂ = clear_overrun (clear_exception_code b₁) in
      if digits == 0 then (0, throw invalid_value_exception b₂) else (value, b₂)

  -- The loop of `countLeadingZeroBytes`; the mask covers byte `k - 1`, and is 0 when `k` is.
  unfoldable pub count_zero_bytes_below : ℕ → ℕ → ℕ
  count_zero_bytes_below value zero = 0
  count_zero_bytes_below value (suc k) =
      if value / 256 ^ k % 256 == 0 then suc (count_zero_bytes_below value k) else 0

  unfoldable pub count_leading_zero_bytes : ℕ → ℕ
  count_leading_zero_bytes value = count_zero_bytes_below value bytes

  -- The loop of `Buffer_WriteUIntegerAsHex`; the argument is `currentByteIndex + 1`.
  unfoldable pub write_low_bytes : Buffer → ℕ → ℕ → Buffer
  write_low_bytes b value zero = b
  write_low_bytes b value (suc index) =
      let b' = write_byte_as_hex (clear_exception_code b) (value / 256 ^ index % 256) in
      let rest = write_low_bytes b' value index in if no_throw b' then rest else b'

  unfoldable pub write_uinteger_as_hex : Buffer → ℕ → Buffer
  write_uinteger_as_hex b value =
      if value == 0
      then write_byte_as_hex b 0
      else write_low_bytes b value (bytes - count_leading_zero_bytes value)

  -- `(int)value` and `-(int)value` as an `intmri_t`: the low 32 bits, with their sign extended.
  unfoldable pub sign_extend_int : ℕ → ℕ
  sign_extend_int value =
      if ltb (value % 2 ^ 32) (2 ^ 31)
      then value % 2 ^ 32
      else (256 ^ bytes + value % 2 ^ 32 - 2 ^ 32) % 256 ^ bytes

  -- `convertToIntegerAndThrowIfOutOfRange`. The negation of an `int` wraps at 32 bits.
  unfoldable pub convert_to_integer : Bool → ℕ → Buffer → ℕ × Buffer
  unfolding sign_extend_int
  convert_to_integer is_negative value b =
      let int_max = (256 ^ bytes - 1) / 2 in
      if not is_negative && ltb int_max value
      then (int_max, throw invalid_value_exception b)
      else if is_negative && ltb (int_max + 1) value
      then (256 ^ bytes - int_max - 1, throw invalid_value_exception b)
      else if is_negative
      then (sign_extend_int (2 ^ 32 - value % 2 ^ 32), b)
      else (sign_extend_int value, b)

  unfoldable pub read_integer_as_hex : Buffer → ℕ × Buffer
  read_integer_as_hex b =
      let (is_negative, b₁) = is_next_char_equal_to (clear_exception_code b) b'-' in
      let (value, b₂) = read_uinteger_as_hex b₁ in
      if no_throw b₁
      then (if no_throw b₂ then convert_to_integer is_negative value b₂ else (0, b₂))
      else (0, b₁)

  -- `calculateAbsoluteValueAndWriteMinusSignForNegativeValue`; the negation wraps.
  unfoldable pub absolute_value_and_sign : Buffer → ℕ → ℕ × Buffer
  absolute_value_and_sign b value =
      if leb (256 ^ bytes) (2 * value)
      then ((256 ^ bytes - value) % 256 ^ bytes, write_char b b'-')
      else (value, b)

  unfoldable pub write_integer_as_hex : Buffer → ℕ → Buffer
  write_integer_as_hex b value =
      let (value', b₁) = absolute_value_and_sign (clear_exception_code b) value in
      let b₂ = write_uinteger_as_hex b₁ value' in if no_throw b₁ then b₂ else b₁
