-- ===== src/Buffer/Matching.antt =====
-- core/buffer.c: comparisons of the text that comes next.
use mri.Prelude.{
  ℕ, zero, suc, ◌+◌, ◌-◌, ◌*◌, List, Bool, true, false, ◌&&◌, ◌||◌, ltb, leb, ◌==◌, if◌then◌else◌,
  drop,
}
use mri.Prelude.Int.{ℤ, pos, negsuc}
use mri.Libc.{peek, next, strncmp, is_zero}
use mri.Buffer.Core.{Buffer, clear_exception_code, no_throw, bytes_left, throw_if_left_lt, peek_at}
use mri.Buffer.Bytes.{read_byte_as_hex}

-- `toLower`
abbrev pub to_lower : ℕ → ℕ
to_lower ch = if leb b'A' ch && leb ch b'Z' then ch - b'A' + b'a' else ch

-- `doesBufferContainThisString`
unfoldable pub does_buffer_contain_this_string : Buffer → List ℕ → ℕ → Bool × Buffer
does_buffer_contain_this_string b desired length = (
  is_zero (strncmp (drop b.current b.mem) desired length)
      && (bytes_left b == length
          || (peek_at b length == b':' || (peek_at b length == b';' || peek_at b length == b','))),
  b,
)

-- The `for` of `hexStringCompare`; the argument is the number of rounds left. A byte that cannot be
-- read is compared as 0, and its exception stays set.
unfoldable pub hex_string_compare_loop : Buffer → List ℕ → ℕ → ℤ × Buffer
hex_string_compare_loop b desired zero = (pos 0, b)
hex_string_compare_loop b desired (suc rounds) =
    let (byte, b') = read_byte_as_hex b in
    let rest = hex_string_compare_loop b' (next desired) rounds in
    if ltb (to_lower byte) (to_lower (peek desired))
    then (negsuc 0, b')
    else if ltb (to_lower (peek desired)) (to_lower byte)
    then (pos 1, b')
    else rest

unfoldable pub hex_string_compare : Buffer → List ℕ → ℕ → ℤ × Buffer
hex_string_compare b desired length =
    let (result, b') = hex_string_compare_loop b desired length in
    (result, record b' { current = b.current })

-- `doesBufferContainThisHexString`
unfoldable pub does_buffer_contain_this_hex_string : Buffer → List ℕ → ℕ → Bool × Buffer
does_buffer_contain_this_hex_string b desired length =
    let (result, b') = hex_string_compare b desired length in
    (
      is_zero result
          && (bytes_left b' == length * 2
              || (leb ((length + 1) * 2) (bytes_left b')
                  && (peek_at b' (length * 2) == b'2' && peek_at b' (length * 2 + 1) == b'0'))),
      b',
    )

-- `matchesString`, with the two fields of `CompareParams` as arguments.
unfoldable pub matches_with :
    (Buffer → List ℕ → ℕ → Bool × Buffer) → ℕ → Buffer → List ℕ → ℕ → Bool × Buffer
matches_with compare_func char_length b string length =
    let b' = throw_if_left_lt (clear_exception_code b) (length * char_length) in
    let (same, b₁) = compare_func b' string length in
    if no_throw b'
    then (if same
        then (true, record b₁ { current = b₁.current + length * char_length })
        else (false, b₁))
    else (false, b')

unfoldable pub matches_string : Buffer → List ℕ → ℕ → Bool × Buffer
matches_string = matches_with does_buffer_contain_this_string 1

unfoldable pub matches_hex_string : Buffer → List ℕ → ℕ → Bool × Buffer
matches_hex_string = matches_with does_buffer_contain_this_hex_string 2
