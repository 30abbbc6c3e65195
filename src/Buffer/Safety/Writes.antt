-- ===== src/Buffer/Safety/Writes.antt =====
-- The routines of core/buffer.c that write.
use mri.Prelude.{
  ℕ, zero, suc, ◌+◌, ◌-◌, ◌*◌, ◌/◌, ◌%◌, ◌^◌, ◌<◌, ◌≤◌, arith, List, inl, inr, Bool-cases, ◌==◌,
  leb,
}
use mri.Libc.{peek, next}
use mri.Buffer.Core.{Buffer, IsValid, clear_exception_code, put, no_throw}
use mri.Buffer.Bytes.{
  write_char, write_byte_as_hex, copy_string, write_sized_string, write_bytes_as_hex,
}
use mri.Buffer.Integers.{
  write_low_bytes, write_uinteger_as_hex, absolute_value_and_sign, write_integer_as_hex,
}
use mri.Buffer.Cases.{
  room-cases, bytes_left-eq, write_char-room, write_char-full, write_byte_as_hex-room,
  write_byte_as_hex-full, write_sized_string-room, write_sized_string-full,
}
use mri.Buffer.Safety.{
  Keeps, if-Keeps, Keeps-refl, Keeps-trans, put-Keeps, clear-Keeps, overrun-Keeps,
}

pub write_char-Keeps : {b : Buffer} (c : ℕ) → IsValid b → Keeps b (write_char b c)
write_char-Keeps {b} c v = elim (room-cases b 1) [
  | inl room ↦ rw (write_char-room b c room) (
      Keeps-trans (clear-Keeps v)
        (put-Keeps c (clear-Keeps v).valid (omega (arith, bytes_left-eq b))))
  | inr full ↦ rw (write_char-full b c (omega arith)) (overrun-Keeps v)
]

-- Two characters, where there is room for both.
put_twice-Keeps :
    {b : Buffer} (c d : ℕ) → IsValid b → b.current + 1 < b.last → Keeps b (put (put b c) d)
put_twice-Keeps {b} c d v h =
    let k : Keeps b (put b c) = put-Keeps c v (omega arith) in
    Keeps-trans k (put-Keeps d k.valid (unfold put in h))

pub write_byte_as_hex-Keeps :
    {b : Buffer} (byte : ℕ) → IsValid b → Keeps b (write_byte_as_hex b byte)
write_byte_as_hex-Keeps {b} byte v = elim (room-cases b 2) [
  | inl room ↦ rw (write_byte_as_hex-room b byte room) (
      Keeps-trans (clear-Keeps v)
        (put_twice-Keeps _ _ (clear-Keeps v).valid (omega (arith, bytes_left-eq b))))
  | inr full ↦ rw (write_byte_as_hex-full b byte full) (overrun-Keeps v)
]

copy_string-Keeps :
    (b : Buffer) (string : List ℕ) (n : ℕ)
    → IsValid b
    → n ≤ b.last - b.current
    → Keeps b (copy_string b string n)
unfolding copy_string
copy_string-Keeps b string zero v h = Keeps-refl v
copy_string-Keeps b string (suc n) v h =
    let k : Keeps b (put b (peek string)) = put-Keeps (peek string) v (omega arith) in
    Keeps-trans k
      (copy_string-Keeps (put b (peek string)) (next string) n k.valid (unfold put in omega arith))

pub write_sized_string-Keeps :
    {b : Buffer} (string : List ℕ) (n : ℕ) → IsValid b → Keeps b (write_sized_string b string n)
write_sized_string-Keeps {b} string n v = elim (room-cases b n) [
  | inl room ↦ rw (write_sized_string-room b string n room) (
      Keeps-trans (clear-Keeps v) (
        copy_string-Keeps (clear_exception_code b) string n (clear-Keeps v).valid
          (omega (arith, bytes_left-eq b))))
  | inr full ↦ rw (write_sized_string-full b string n full) (overrun-Keeps v)
]

pub write_bytes_as_hex-Keeps :
    (b : Buffer) (string : List ℕ) (n : ℕ) → IsValid b → Keeps b (write_bytes_as_hex b string n)
unfolding write_bytes_as_hex
write_bytes_as_hex-Keeps b string zero v = Keeps-refl v
write_bytes_as_hex-Keeps b string (suc n) v =
    let b' = write_byte_as_hex b (peek string) in
    let k : Keeps b b' = write_byte_as_hex-Keeps (peek string) v in
    Keeps-trans k (write_bytes_as_hex-Keeps b' (next string) n k.valid)

module _ (bytes : ℕ) where
  write_low_bytes-Keeps :
      (b : Buffer) (value n : ℕ) → IsValid b → Keeps b (write_low_bytes bytes b value n)
  unfolding write_low_bytes
  write_low_bytes-Keeps b value zero v = Keeps-refl v
  write_low_bytes-Keeps b value (suc n) v =
      let byte = value / 256 ^ n % 256 in
      let b' = write_byte_as_hex (clear_exception_code b) byte in
      let k : Keeps b b' =
        Keeps-trans (clear-Keeps v) (write_byte_as_hex-Keeps byte (clear-Keeps v).valid) in
      if-Keeps (no_throw b') (Keeps-trans k (write_low_bytes-Keeps b' value n k.valid)) k

  pub write_uinteger_as_hex-Keeps :
      {b : Buffer} (value : ℕ) → IsValid b → Keeps b (write_uinteger_as_hex bytes b value)
  unfolding write_uinteger_as_hex
  write_uinteger_as_hex-Keeps {b} value v =
      if-Keeps (value == 0) (write_byte_as_hex-Keeps 0 v) (write_low_bytes-Keeps b value _ v)

  absolute_value_and_sign-Keeps :
      {b : Buffer} (value : ℕ) → IsValid b → Keeps b (absolute_value_and_sign bytes b value).1
  unfolding absolute_value_and_sign
  absolute_value_and_sign-Keeps {b} value v = elim (Bool-cases (leb (256 ^ bytes) (2 * value))) [
    | inl negative ↦ rw negative (write_char-Keeps b'-' v)
    | inr other ↦ rw other (Keeps-refl v)
  ]

  pub write_integer_as_hex-Keeps :
      {b : Buffer} (value : ℕ) → IsValid b → Keeps b (write_integer_as_hex bytes b value)
  unfolding write_integer_as_hex
  write_integer_as_hex-Keeps {b} value v =
      let step = absolute_value_and_sign bytes (clear_exception_code b) value in
      let k : Keeps b step.1 =
        Keeps-trans (clear-Keeps v) (absolute_value_and_sign-Keeps value (clear-Keeps v).valid) in
      if-Keeps (no_throw step.1) (Keeps-trans k (write_uinteger_as_hex-Keeps step.0 k.valid)) k
