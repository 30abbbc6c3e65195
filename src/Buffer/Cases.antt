-- ===== src/Buffer/Cases.antt =====
-- The two cases of each access of core/buffer.c: there is room, or the overrun is flagged.
use mri.Prelude.{
  ℕ, ◌+◌, ◌-◌, ◌<◌, ◌≤◌, ◌≡◌, arith, ltb, le→ltb_false, List, ◌⊎◌, inl, inr, Bool-cases, ltb→lt,
  ltb_false→le,
}
use mri.HexConvert.{extract_hi_nibble, extract_lo_nibble, nibble_to_hex_char}
use mri.Buffer.Core.{
  Buffer, clear_exception_code, bytes_left, throw_and_flag_if_left_lt, put, peek_at,
}
use mri.Buffer.Bytes.{write_char, read_char, write_byte_as_hex, copy_string, write_sized_string}

pub bytes_left-eq : (b : Buffer) → bytes_left b ≡ b.last - b.current
unfolding bytes_left
bytes_left-eq b = ground arith

-- The state in which a refused access leaves the buffer.
abbrev pub overrun : Buffer → Buffer
overrun b = record b { exn = 1; current = b.last + 1 }

pub check-room : (b : Buffer) (n : ℕ) → n ≤ bytes_left b → throw_and_flag_if_left_lt b n ≡ b
unfolding throw_and_flag_if_left_lt
check-room b n h = rw (le→ltb_false (bytes_left b) n h)

pub check-full :
    (b : Buffer) (n : ℕ)
    → bytes_left b < n
    → throw_and_flag_if_left_lt (clear_exception_code b) n ≡ overrun b
unfolding throw_and_flag_if_left_lt
check-full b n h = ground arith

pub write_char-room :
    (b : Buffer) (c : ℕ) → 0 < bytes_left b → write_char b c ≡ put (clear_exception_code b) c
unfolding write_char
write_char-room b c h = ground arith

pub write_char-full : (b : Buffer) (c : ℕ) → bytes_left b ≡ 0 → write_char b c ≡ overrun b
unfolding write_char
write_char-full b c h = ground arith

pub read_char-room :
    (b : Buffer)
    → 0 < bytes_left b
    → read_char b ≡ (peek_at b 0, record b { exn = 0; current = b.current + 1 })
unfolding read_char
read_char-room b h = ground arith

pub read_char-empty : (b : Buffer) → bytes_left b ≡ 0 → read_char b ≡ (0, overrun b)
unfolding read_char
read_char-empty b h = ground arith

pub write_byte_as_hex-room :
    (b : Buffer) (byte : ℕ)
    → 2 ≤ bytes_left b
    → write_byte_as_hex b byte
      ≡ put
          (put (clear_exception_code b) (nibble_to_hex_char (extract_hi_nibble byte)))
          (nibble_to_hex_char (extract_lo_nibble byte))
unfolding write_byte_as_hex
write_byte_as_hex-room b byte h = ground arith

pub write_byte_as_hex-full :
    (b : Buffer) (byte : ℕ) → bytes_left b < 2 → write_byte_as_hex b byte ≡ overrun b
unfolding write_byte_as_hex
write_byte_as_hex-full b byte h = ground arith

pub write_sized_string-room :
    (b : Buffer) (string : List ℕ) (length : ℕ)
    → length ≤ bytes_left b
    → write_sized_string b string length ≡ copy_string (clear_exception_code b) string length
unfolding write_sized_string
write_sized_string-room b string length h = ground arith

pub write_sized_string-full :
    (b : Buffer) (string : List ℕ) (length : ℕ)
    → bytes_left b < length
    → write_sized_string b string length ≡ overrun b
unfolding write_sized_string
write_sized_string-full b string length h = ground arith

-- Is there room for `n` characters?
pub room-cases : (b : Buffer) (n : ℕ) → (n ≤ bytes_left b) ⊎ (bytes_left b < n)
room-cases b n = elim (Bool-cases (ltb (bytes_left b) n)) [
  | inl less ↦ inr (ltb→lt _ _ less)
  | inr enough ↦ inl (ltb_false→le _ _ enough)
]
