-- ===== src/Buffer/Bytes.antt =====
-- core/buffer.c: characters, bytes as hexadecimal digits, and strings.
use mri.Prelude.{ℕ, zero, suc, ◌+◌, ◌*◌, ◌/◌, ◌%◌, List, ltb, if◌then◌else◌, bit_or}
use mri.HexConvert.{extract_hi_nibble, extract_lo_nibble, nibble_to_hex_char, hex_char_to_nibble}
use mri.Libc.{peek, next, strlen}
use mri.Buffer.Core.{
  Buffer, clear_exception_code, no_throw, bytes_left, throw_and_flag_if_left_lt, put, peek_at,
}

unfoldable pub write_char : Buffer → ℕ → Buffer
unfolding throw_and_flag_if_left_lt put
write_char b character =
    let b' = throw_and_flag_if_left_lt (clear_exception_code b) 1 in
    if no_throw b' then put b' character else b'

-- The result is the character, beside the new state.
unfoldable pub read_char : Buffer → ℕ × Buffer
unfolding throw_and_flag_if_left_lt peek_at
read_char b =
    let b' = throw_and_flag_if_left_lt (clear_exception_code b) 1 in
    if no_throw b' then (peek_at b' 0, record b' { current = b'.current + 1 }) else (0, b')

unfoldable pub write_byte_as_hex : Buffer → ℕ → Buffer
unfolding throw_and_flag_if_left_lt put
write_byte_as_hex b byte =
    let b' = throw_and_flag_if_left_lt (clear_exception_code b) 2 in
    if no_throw b'
    then put (put b' (nibble_to_hex_char (extract_hi_nibble byte)))
        (nibble_to_hex_char (extract_lo_nibble byte))
    else b'

-- `HexCharToNibble` on the state's exception code.
abbrev pub to_nibble : Buffer → ℕ → ℕ × Buffer
to_nibble b c = let (n, exn) = hex_char_to_nibble c b.exn in (n, record b { exn = exn })

-- The shifted nibble is cut to the eight bits of `unsigned char`.
unfoldable pub read_byte_as_hex : Buffer → ℕ × Buffer
unfolding throw_and_flag_if_left_lt peek_at
read_byte_as_hex b =
    let b₀ = throw_and_flag_if_left_lt (clear_exception_code b) 2 in
    let (hi, b₁) = to_nibble (clear_exception_code b₀) (peek_at b₀ 0) in
    let (lo, b₂) = to_nibble b₁ (peek_at b₁ 1) in
    if no_throw b₀
    then (if no_throw b₁
        then (if no_throw b₂
            then (bit_or (hi * 16 % 256) lo % 256, record b₂ { current = b₂.current + 2 })
            else (0, b₂))
        else (0, b₁))
    else (0, b₀)

-- `while (length--) *(pCurrent++) = *pString++;`
unfoldable pub copy_string : Buffer → List ℕ → ℕ → Buffer
copy_string b string zero = b
copy_string b string (suc length) = copy_string (put b (peek string)) (next string) length

unfoldable pub write_sized_string : Buffer → List ℕ → ℕ → Buffer
unfolding throw_and_flag_if_left_lt
write_sized_string b string length =
    let b' = throw_and_flag_if_left_lt (clear_exception_code b) length in
    if no_throw b' then copy_string b' string length else b'

unfoldable pub write_string : Buffer → List ℕ → Buffer
write_string b string = write_sized_string b string (strlen string)

-- `while (length--) Buffer_WriteByteAsHex(pBuffer, *pString++);`
unfoldable pub write_bytes_as_hex : Buffer → List ℕ → ℕ → Buffer
write_bytes_as_hex b string zero = b
write_bytes_as_hex b string (suc length) =
    write_bytes_as_hex (write_byte_as_hex b (peek string)) (next string) length

-- The number of characters that are taken is returned.
unfoldable pub write_sized_string_as_hex : Buffer → List ℕ → ℕ → ℕ × Buffer
write_sized_string_as_hex b string length =
    let char_limit = bytes_left b / 2 in
    let length' = if ltb char_limit length then char_limit else length in
    (length', write_bytes_as_hex b string length')

unfoldable pub write_string_as_hex : Buffer → List ℕ → ℕ × Buffer
write_string_as_hex b string = write_sized_string_as_hex b string (strlen string)
