-- ===== src/Buffer/Digits.antt =====
-- The cases of the reads of hexadecimal digits and of the look at the next character.
use mri.Prelude.{
  ℕ, ◌+◌, ◌*◌, ◌<◌, ◌≤◌, ◌≡◌, arith, true, false, some, none, ◌⊎◌, inl, inr, ◌≢◌, ◌%◌, ◌^◌,
  Option-cases,
}
use mri.HexConvert.Laws.{
  digit_value, digit_value-lt, hex_char_to_nibble-digit, hex_char_to_nibble-invalid, bit_or-nibbles,
}
use mri.Buffer.Core.{Buffer, bytes_left, throw_if_left_lt, peek_at, clear_exception_code}
use mri.Buffer.Bytes.{read_byte_as_hex}
use mri.Buffer.Integers.{is_next_char_equal_to, parse_next_hex_digit, push_back_last_char}
use mri.Buffer.Cases.{overrun, check-room, check-full, read_char-room, read_char-empty}

pub read_byte_as_hex-empty : (b : Buffer) → bytes_left b < 2 → read_byte_as_hex b ≡ (0, overrun b)
unfolding read_byte_as_hex
read_byte_as_hex-empty b h = rw (check-full b 2 h)

module _ (b : Buffer) (room : 2 ≤ bytes_left b) where
  pub read_byte_as_hex-digits :
      {hi lo : ℕ}
      → digit_value (peek_at b 0) ≡ some hi
      → digit_value (peek_at b 1) ≡ some lo
      → read_byte_as_hex b ≡ (hi * 16 + lo, record b { exn = 0; current = b.current + 2 })
  unfolding read_byte_as_hex
  read_byte_as_hex-digits {hi} {lo} h l = ground (
    arith,
    check-room (clear_exception_code b) 2 room,
    hex_char_to_nibble-digit (peek_at b 0) 0 h,
    hex_char_to_nibble-digit (peek_at b 1) 0 l,
    digit_value-lt (peek_at b 0) h,
    digit_value-lt (peek_at b 1) l,
    bit_or-nibbles hi lo,
  )

  read_byte_as_hex-invalid_first :
      digit_value (peek_at b 0) ≡ none → read_byte_as_hex b ≡ (0, record b { exn = 2 })
  unfolding read_byte_as_hex
  read_byte_as_hex-invalid_first h = ground (
    arith,
    check-room (clear_exception_code b) 2 room,
    hex_char_to_nibble-invalid (peek_at b 0) h,
  )

  pub read_byte_as_hex-invalid :
      (digit_value (peek_at b 0) ≡ none) ⊎ (digit_value (peek_at b 1) ≡ none)
      → read_byte_as_hex b ≡ (0, record b { exn = 2 })
  unfolding read_byte_as_hex
  read_byte_as_hex-invalid (inl h) = read_byte_as_hex-invalid_first h
  read_byte_as_hex-invalid (inr l) = elim (Option-cases (digit_value (peek_at b 0))) [
    | inl h ↦ read_byte_as_hex-invalid_first h
    | inr (hi, h) ↦ ground (
      arith,
      check-room (clear_exception_code b) 2 room,
      hex_char_to_nibble-digit (peek_at b 0) 0 h,
      hex_char_to_nibble-invalid (peek_at b 1) l,
    )
  ]

-- One round of the loop that reads a number.
module _ (bytes : ℕ) (b : Buffer) (value : ℕ) where
  pub parse_next_hex_digit-empty :
      bytes_left b ≡ 0 → parse_next_hex_digit bytes b value ≡ (value, overrun b)
  unfolding parse_next_hex_digit
  parse_next_hex_digit-empty h =
      rw (read_char-empty (clear_exception_code b) (unfold bytes_left in h))

  pub parse_next_hex_digit-digit :
      {n : ℕ}
      → 0 < bytes_left b
      → digit_value (peek_at b 0) ≡ some n
      → parse_next_hex_digit bytes b value
        ≡ ((value * 16 + n) % 256 ^ bytes, record b { exn = 0; current = b.current + 1 })
  unfolding parse_next_hex_digit peek_at bytes_left
  parse_next_hex_digit-digit room h =
      rw (read_char-room (clear_exception_code b) room, hex_char_to_nibble-digit (peek_at b 0) 0 h)

  pub parse_next_hex_digit-other :
      b.start ≤ b.current
      → 0 < bytes_left b
      → digit_value (peek_at b 0) ≡ none
      → parse_next_hex_digit bytes b value ≡ (value, record b { exn = 2 })
  unfolding parse_next_hex_digit peek_at bytes_left push_back_last_char
  parse_next_hex_digit-other lo room h = ground (
    arith,
    read_char-room (clear_exception_code b) room,
    hex_char_to_nibble-invalid (peek_at b 0) h,
  )

-- The look at the next character moves past it if it is the one asked for.
module _ (b : Buffer) (c : ℕ) where
  pub is_next_char_equal_to-empty :
      bytes_left b ≡ 0 → is_next_char_equal_to b c ≡ (false, record b { exn = 1 })
  unfolding is_next_char_equal_to throw_if_left_lt
  is_next_char_equal_to-empty h = ground arith

  pub is_next_char_equal_to-same :
      0 < bytes_left b
      → peek_at b 0 ≡ c
      → is_next_char_equal_to b c ≡ (true, record b { exn = 0; current = b.current + 1 })
  unfolding is_next_char_equal_to throw_if_left_lt peek_at
  is_next_char_equal_to-same room e = ground arith

  pub is_next_char_equal_to-other :
      0 < bytes_left b → peek_at b 0 ≢ c → is_next_char_equal_to b c ≡ (false, record b { exn = 0 })
  unfolding is_next_char_equal_to throw_if_left_lt peek_at
  is_next_char_equal_to-other room e = ground arith
