-- ===== src/HexConvert.antt =====
-- core/hex_convert.h: hexadecimal digits and nibbles. A `char` is its code, from 0 to 255.
pub mod Laws
use mri.Prelude.{ℕ, ◌+◌, ◌-◌, ◌/◌, ◌%◌, ◌^◌, List, [], ◌∷◌, ◌&&◌, leb, if◌then◌else◌, get_or}
use mri.TryCatch.{set_exception_code, invalid_hex_digit_exception}

-- `EXTRACT_HI_NIBBLE`: (X >> 4) & 0xF
abbrev pub extract_hi_nibble : ℕ → ℕ
extract_hi_nibble x = x / 16 % 16

-- `EXTRACT_LO_NIBBLE`: X & 0xF
abbrev pub extract_lo_nibble : ℕ → ℕ
extract_lo_nibble x = x % 16

abbrev pub hex_chars : List ℕ
hex_chars =
    b'0' ∷ b'1' ∷ b'2' ∷ b'3' ∷ b'4' ∷ b'5' ∷ b'6' ∷ b'7' ∷ b'8' ∷ b'9' ∷ b'a' ∷ b'b' ∷ b'c' ∷ b'd'
    ∷ b'e' ∷ b'f' ∷ []

-- `NibbleToHexChar[n]`
unfoldable pub nibble_to_hex_char : ℕ → ℕ
nibble_to_hex_char n = get_or hex_chars n 0

-- The result is the `int` returned, beside the exception code; -1 is its bit pattern.
unfoldable pub hex_char_to_nibble : ℕ → ℕ → ℕ × ℕ
hex_char_to_nibble c exn =
    if leb b'a' c && leb c b'f'
    then (c - b'a' + 10, exn)
    else if leb b'A' c && leb c b'F'
    then (c - b'A' + 10, exn)
    else if leb b'0' c && leb c b'9'
    then (c - b'0', exn)
    else (2 ^ 32 - 1, set_exception_code invalid_hex_digit_exception exn)
