-- ===== src/Buffer/Safety/Reads.antt =====
-- The routines of core/buffer.c that read.
use mri.Prelude.{
  ℕ, zero, suc, ◌+◌, ◌-◌, ◌/◌, ◌^◌, arith, inl, inr, Bool-cases, Option-cases, Bool, ◌&&◌, not,
  ◌==◌, ltb, ℕ_discrete,
}
use mri.Buffer.Core.{Buffer, IsValid, clear_exception_code, bytes_left, no_throw, peek_at}
use mri.Buffer.Bytes.{read_char, read_byte_as_hex}
use mri.Buffer.Integers.{
  clear_overrun, is_next_char_equal_to, parse_next_hex_digit, parse_hex_digits,
  read_uinteger_as_hex, convert_to_integer, read_integer_as_hex,
}
use mri.Buffer.Cases.{room-cases, bytes_left-eq, read_char-room, read_char-empty}
use mri.HexConvert.Laws.{digit_value}
use mri.Buffer.Digits.{
  read_byte_as_hex-empty, read_byte_as_hex-digits, read_byte_as_hex-invalid,
  parse_next_hex_digit-empty, parse_next_hex_digit-digit, parse_next_hex_digit-other,
  is_next_char_equal_to-empty, is_next_char_equal_to-same, is_next_char_equal_to-other,
}
use mri.Buffer.Safety.{
  Keeps, if-Keeps, Keeps-refl, Keeps-trans, Keeps-move, clear-Keeps, overrun-Keeps, throw-Keeps,
}

pub read_char-Keeps : {b : Buffer} → IsValid b → Keeps b (read_char b).1
read_char-Keeps {b} v = elim (room-cases b 1) [
  | inl room ↦ rw (read_char-room b room) (
      Keeps-move 0 (b.current + 1) v (omega (arith, v.after_start))
        (omega (arith, bytes_left-eq b)))
  | inr full ↦ rw (read_char-empty b (omega arith)) (overrun-Keeps v)
]

pub read_byte_as_hex-Keeps : {b : Buffer} → IsValid b → Keeps b (read_byte_as_hex b).1
read_byte_as_hex-Keeps {b} v = elim (room-cases b 2) [
  | inr short ↦ rw (read_byte_as_hex-empty b short) (overrun-Keeps v)
  | inl room ↦ elim (Option-cases (digit_value (peek_at b 0))) [
    | inl bad ↦ rw (read_byte_as_hex-invalid b room (inl bad)) (throw-Keeps 2 v)
    | inr (hi, h) ↦ elim (Option-cases (digit_value (peek_at b 1))) [
      | inl bad ↦ rw (read_byte_as_hex-invalid b room (inr bad)) (throw-Keeps 2 v)
      | inr (lo, l) ↦ rw (read_byte_as_hex-digits b room h l) (
          Keeps-move 0 (b.current + 2) v (omega (arith, v.after_start))
            (omega (arith, bytes_left-eq b)))
    ]
  ]
]

pub is_next_char_equal_to-Keeps :
    {b : Buffer} (c : ℕ) → IsValid b → Keeps b (is_next_char_equal_to b c).1
is_next_char_equal_to-Keeps {b} c v = elim (room-cases b 1) [
  | inr none_left ↦ rw (is_next_char_equal_to-empty b c (omega arith)) (throw-Keeps 1 v)
  | inl room ↦ elim (ℕ_discrete (peek_at b 0) c) [
    | yes same ↦ rw (is_next_char_equal_to-same b c room same) (
        Keeps-move 0 (b.current + 1) v (omega (arith, v.after_start))
          (omega (arith, bytes_left-eq b)))
    | no other ↦ rw (is_next_char_equal_to-other b c room other) (throw-Keeps 0 v)
  ]
]

clear_overrun-Keeps : {b : Buffer} → IsValid b → Keeps b (clear_overrun b)
unfolding clear_overrun
clear_overrun-Keeps {b} v =
    if-Keeps _ (Keeps-move b.exn b.last v v.ordered (omega arith)) (Keeps-refl v)

module _ (bytes : ℕ) where
  parse_next_hex_digit-Keeps :
      {b : Buffer} (value : ℕ) → IsValid b → Keeps b (parse_next_hex_digit bytes b value).1
  parse_next_hex_digit-Keeps {b} value v = elim (room-cases b 1) [
    | inr none_left ↦ rw (parse_next_hex_digit-empty bytes b value (omega arith)) (overrun-Keeps v)
    | inl room ↦ elim (Option-cases (digit_value (peek_at b 0))) [
      | inl other ↦
          rw (parse_next_hex_digit-other bytes b value v.after_start room other) (throw-Keeps 2 v)
      | inr (n, digit) ↦ rw (parse_next_hex_digit-digit bytes b value room digit) (
          Keeps-move 0 (b.current + 1) v (omega (arith, v.after_start))
            (omega (arith, bytes_left-eq b)))
    ]
  ]

  parse_hex_digits-Keeps :
      (fuel : ℕ) (b : Buffer) (value digits : ℕ)
      → IsValid b
      → Keeps b (parse_hex_digits bytes fuel b value digits).2
  unfolding parse_hex_digits
  parse_hex_digits-Keeps zero b value digits v = Keeps-refl v
  parse_hex_digits-Keeps (suc fuel) b value digits v =
      let step = parse_next_hex_digit bytes (clear_exception_code b) value in
      let k : Keeps b step.1 =
        Keeps-trans (clear-Keeps v) (parse_next_hex_digit-Keeps value (clear-Keeps v).valid) in
      elim (Bool-cases (no_throw step.1)) [
        | inl fine ↦
            rw fine (Keeps-trans k (parse_hex_digits-Keeps fuel step.1 step.0 (digits + 1) k.valid))
        | inr threw ↦ rw threw k
      ]

  pub read_uinteger_as_hex-Keeps :
      {b : Buffer} → IsValid b → Keeps b (read_uinteger_as_hex bytes b).1
  unfolding read_uinteger_as_hex
  read_uinteger_as_hex-Keeps {b} v =
      let loop = parse_hex_digits bytes (bytes_left b + 1) b 0 0 in
      let k : Keeps b loop.2 = parse_hex_digits-Keeps (bytes_left b + 1) b 0 0 v in
      let l : Keeps b (clear_exception_code loop.2) = Keeps-trans k (clear-Keeps k.valid) in
      let m : Keeps b (clear_overrun (clear_exception_code loop.2)) =
        Keeps-trans l (clear_overrun-Keeps l.valid) in
      elim (Bool-cases (loop.1 == 0)) [
        | inl no_digit ↦ rw no_digit (Keeps-trans m (throw-Keeps _ m.valid))
        | inr digit ↦ rw digit m
      ]

  convert_to_integer-Keeps :
      {b : Buffer} (is_negative : Bool) (value : ℕ)
      → IsValid b
      → Keeps b (convert_to_integer bytes is_negative value b).1
  unfolding convert_to_integer
  convert_to_integer-Keeps {b} is_negative value v =
      elim (Bool-cases (not is_negative && ltb ((256 ^ bytes - 1) / 2) value)) [
        | inl big ↦ rw big (throw-Keeps _ v)
        | inr fits ↦
            rw fits (elim (Bool-cases (is_negative && ltb ((256 ^ bytes - 1) / 2 + 1) value)) [
              | inl small ↦ rw small (throw-Keeps _ v)
              | inr inside ↦ rw inside (elim (Bool-cases is_negative) [
                | inl negative ↦ rw negative (Keeps-refl v)
                | inr other ↦ rw other (Keeps-refl v)
              ])
            ])
      ]

  pub read_integer_as_hex-Keeps : {b : Buffer} → IsValid b → Keeps b (read_integer_as_hex bytes b).1
  unfolding read_integer_as_hex
  read_integer_as_hex-Keeps {b} v =
      let sign = is_next_char_equal_to (clear_exception_code b) b'-' in
      let number = read_uinteger_as_hex bytes sign.1 in
      let k : Keeps b sign.1 =
        Keeps-trans (clear-Keeps v) (is_next_char_equal_to-Keeps b'-' (clear-Keeps v).valid) in
      let l : Keeps b number.1 = Keeps-trans k (read_uinteger_as_hex-Keeps k.valid) in
      elim (Bool-cases (no_throw sign.1)) [
        | inr threw ↦ rw threw k
        | inl fine ↦ rw fine (elim (Bool-cases (no_throw number.1)) [
          | inr threw ↦ rw threw l
          | inl good ↦ rw good (Keeps-trans l (convert_to_integer-Keeps sign.0 number.0 l.valid))
        ])
      ]
