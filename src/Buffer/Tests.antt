-- ===== src/Buffer/Tests.antt =====
-- Concrete buffers.
use mri.Prelude.{
  ◌+◌, ◌%◌, ◌^◌, ◌≤◌, ◌≡◌, refl, arith, [], ◌∷◌, length, get_elem?, if◌then◌else◌, ◌==◌,
}
use mri.Prelude.{some, inr, true, false, ◌≢◌, ◌-◌}
use mri.Buffer.Integers.{convert_to_integer}
use mri.Buffer.Signed.{convert_to_integer_cut, convert_to_integer_in_range}
use mri.HexConvert.{nibble_to_hex_char, hex_char_to_nibble}
use mri.HexConvert.Laws.{hex_char_to_nibble-nibble_to_hex_char}
use mri.Buffer.Core.{Buffer, IsValid, bytes_left, overrun_detected}
use mri.Buffer.Integers.{
  read_uinteger_as_hex, write_uinteger_as_hex, count_leading_zero_bytes, count_zero_bytes_below,
}
use mri.Buffer.Reading.{read_digits, pending, read_uinteger_as_hex_lem}
use mri.Buffer.Numbers.{byte_count}
use mri.Buffer.RoundTrip.{rewind, read-write_uinteger}
use mri.Buffer.Safety.Calls.{run, read_a_byte, write_unsigned, read_unsigned, run_stays_inside}

-- "1aF,", with a character before it and one after it.
abbrev digits : Buffer
digits = record {
  mem = b'[' ∷ b'1' ∷ b'a' ∷ b'F' ∷ b',' ∷ b']' ∷ [];
  exn = 0;
  start = 1;
  last = 5;
  current = 1;
}

digits-IsValid : IsValid digits
digits-IsValid = record {
  ordered = omega arith;
  inside = omega arith;
  after_start = omega arith;
  before_end = omega arith;
}

run_stays_inside_example :
    let calls = read_a_byte ∷ write_unsigned 0x12345 ∷ read_unsigned ∷ [] in
    IsValid (run 4 calls digits)
    × ((run 4 calls digits).start ≡ 1)
    × ((run 4 calls digits).last ≤ 5)
    × (length (run 4 calls digits).mem ≡ 6)
    × (get_elem? (run 4 calls digits).mem 5 ≡ some b']')
run_stays_inside_example =
    run_stays_inside 4 (read_a_byte ∷ write_unsigned 0x12345 ∷ read_unsigned ∷ []) digits 5
      digits-IsValid (inr (omega arith))

read_uinteger_as_hex_example :
    let (value, count) = read_digits 0 (pending digits) in
    read_uinteger_as_hex 4 digits ≡ (
      if count == 0
      then (0, record digits { exn = 3 })
      else (value % 256 ^ 4, record digits { exn = 0; current = 1 + count }))
read_uinteger_as_hex_example = read_uinteger_as_hex_lem 4 digits digits-IsValid (omega arith)

read-write_uinteger_example :
    let (result, b') = read_uinteger_as_hex 4 (rewind (write_uinteger_as_hex 4 digits 0x1a0)) in
    (result ≡ 0x1a0) × (b'.exn ≡ 0) × (bytes_left b' ≡ 0)
unfolding bytes_left byte_count count_leading_zero_bytes count_zero_bytes_below overrun_detected
read-write_uinteger_example =
    read-write_uinteger 4 digits 0x1a0 digits-IsValid refl (omega arith) (omega arith) (omega arith)

nibble_example : hex_char_to_nibble (nibble_to_hex_char 11) 0 ≡ (11, 0)
nibble_example = hex_char_to_nibble-nibble_to_hex_char 11 0 (omega arith)

convert_to_integer_cut_example :
    ((convert_to_integer 8 false (2 ^ 31) digits).0 ≢ 2 ^ 31)
    × ((convert_to_integer 8 false (2 ^ 31) digits).1 ≡ digits)
convert_to_integer_cut_example = convert_to_integer_cut (2 ^ 31) digits (omega arith) (omega arith)

convert_to_integer_in_range_example :
    (convert_to_integer 4 false 5 digits ≡ (5, digits))
    × (convert_to_integer 4 true 5 digits ≡ (2 ^ 32 - 5, digits))
convert_to_integer_in_range_example = convert_to_integer_in_range 5 digits (omega arith)
