-- ===== src/Buffer/Reading.antt =====
-- `Buffer_ReadUIntegerAsHex` against a plain reading of the text that comes next.
use mri.Prelude.{
  ℕ, zero, suc, ◌+◌, ◌-◌, ◌*◌, ◌%◌, ◌/◌, ◌^◌, ◌<◌, ◌≤◌, ◌≡◌, refl, sym, ap, ◌∙◌, arith, List, [],
  ◌∷◌, none, some, Option-cases, inl, inr, slice, slice-step, get_or, ◌==◌, if◌then◌else◌,
}
use native.Mathlib.Nat.{add-mul-mod_self_right, div-add-mod, zero-mod}
use mri.TryCatch.{set_exception_code}
use mri.HexConvert.Laws.{digit_value}
use mri.Buffer.Core.{Buffer, IsValid, clear_exception_code, bytes_left, peek_at}
use mri.Buffer.Integers.{parse_hex_digits, clear_overrun, read_uinteger_as_hex}
use mri.Buffer.Cases.{room-cases, bytes_left-eq}
use mri.Buffer.Digits.{
  parse_next_hex_digit-empty, parse_next_hex_digit-digit, parse_next_hex_digit-other,
}

-- The characters that have not been read.
abbrev pub pending : Buffer → List ℕ
pending b = slice b.mem b.current (b.last - b.current)

-- The value of the hexadecimal digits at the front of a text, over `acc`, and how many they are.
unfoldable pub read_digits : ℕ → List ℕ → ℕ × ℕ
read_digits acc [] = (acc, 0)
read_digits acc (c ∷ text) = elim (digit_value c) [
  | none ↦ (acc, 0)
  | some n ↦ ((read_digits (acc * 16 + n) text).0, suc (read_digits (acc * 16 + n) text).1)
]

pub pending-step :
    (b : Buffer)
    → IsValid b
    → b.current < b.last
    → pending b ≡ peek_at b 0 ∷ pending (record b { exn = 0; current = b.current + 1 })
unfolding peek_at
pending-step b v h =
    ap (slice b.mem b.current) {x = b.last - b.current} {y = suc (b.last - (b.current + 1))}
      (omega arith)
    ∙ slice-step b.mem b.current (b.last - (b.current + 1)) 0 (omega (arith, v.inside))
    ∙ ap (λ k. get_or b.mem k 0 ∷ slice b.mem (b.current + 1) (b.last - (b.current + 1)))
        {x = b.current} {y = b.current + 0} (omega arith)

pub pending-nil : (b : Buffer) → b.last ≤ b.current → pending b ≡ []
pending-nil b h = ap (slice b.mem b.current) {x = b.last - b.current} {y = 0} (omega arith)

pub read_digits-nil : (acc : ℕ) → read_digits acc [] ≡ (acc, 0)
unfolding read_digits
read_digits-nil acc = refl

pub read_digits-digit :
    (acc c : ℕ) (text : List ℕ) {n : ℕ}
    → digit_value c ≡ some n
    → read_digits acc (c ∷ text)
      ≡ ((read_digits (acc * 16 + n) text).0, suc (read_digits (acc * 16 + n) text).1)
unfolding read_digits
read_digits-digit acc c text h = rw (h, read_digits)

pub read_digits-other :
    (acc c : ℕ) (text : List ℕ) → digit_value c ≡ none → read_digits acc (c ∷ text) ≡ (acc, 0)
unfolding read_digits
read_digits-other acc c text h = rw (h, read_digits)

-- What the code keeps of a value, after another digit.
pub mod-digit : (acc n m : ℕ) → (acc % m * 16 + n) % m ≡ (acc * 16 + n) % m
mod-digit acc n m =
    sym (add-mul-mod_self_right (acc % m * 16 + n) (acc / m * 16) m)
    ∙ ap (λ k. k % m) {x = acc % m * 16 + n + acc / m * 16 * m} {y = acc * 16 + n}
        (omega (arith, div-add-mod acc m))

-- The state in which `clear_overrun` leaves the buffer.
abbrev at_digit : Buffer → ℕ → Buffer
at_digit b n = record b { exn = 0; current = b.current + n }

-- The loop, with fuel for each character left and one more round.
module _ (bytes : ℕ) where
  parse_hex_digits-read_digits :
      (fuel : ℕ) (b : Buffer) (acc digits : ℕ)
      → IsValid b
      → b.current ≤ b.last
      → b.last - b.current < fuel
      → let (value, count, b') = parse_hex_digits bytes fuel b (acc % 256 ^ bytes) digits in
        (value ≡ (read_digits acc (pending b)).0 % 256 ^ bytes)
        × (count ≡ digits + (read_digits acc (pending b)).1)
        × (clear_overrun (clear_exception_code b') ≡ at_digit b (read_digits acc (pending b)).1)
  unfolding parse_hex_digits clear_overrun
  parse_hex_digits-read_digits zero b acc digits v le h = absurd (omega arith)
  parse_hex_digits-read_digits (suc fuel) b acc digits v le h = elim (room-cases b 1) [
    | inr none_left ↦
        rw
          (
            parse_next_hex_digit-empty bytes (clear_exception_code b) (acc % 256 ^ bytes)
                (unfold bytes_left in omega arith),
            pending-nil b (omega (arith, bytes_left-eq b)),
            read_digits-nil acc,
          )
          (refl, omega arith, ground (arith, bytes_left-eq b))
    | inl room ↦ elim (Option-cases (digit_value (peek_at b 0))) [
      | inl other ↦
          rw
            (
              parse_next_hex_digit-other bytes (clear_exception_code b) (acc % 256 ^ bytes)
                  v.after_start (unfold bytes_left in room) (unfold peek_at in other),
              pending-step b v (omega (arith, bytes_left-eq b)),
              read_digits-other acc (peek_at b 0) _ other,
            )
            (refl, omega arith, ground (arith, bytes_left-eq b))
      | inr (n, digit) ↦
          let b' = record b { exn = 0; current = b.current + 1 } in
          let ih =
            parse_hex_digits-read_digits fuel b' (acc * 16 + n) (digits + 1)
              (record {
                ordered = v.ordered;
                inside = v.inside;
                after_start = omega (arith, v.after_start);
                before_end = omega (arith, bytes_left-eq b);
              })
              (omega (arith, bytes_left-eq b)) (omega (arith, bytes_left-eq b)) in
          rw
            (
              parse_next_hex_digit-digit bytes (clear_exception_code b) (acc % 256 ^ bytes) {n = n}
                  (unfold bytes_left in room) (unfold peek_at in digit),
              mod-digit acc n (256 ^ bytes),
              pending-step b v (omega (arith, bytes_left-eq b)),
              read_digits-digit acc (peek_at b 0) _ digit,
            )
            (ih.0, omega (arith, ih.1), ih.2 ∙ ground arith)
    ]
  ]

  -- On a valid buffer that has not been overrun the code reads the digits that come next, however many: it returns their value
  -- modulo the word, moves past them and no further, and throws if and only if there is none.
  pub read_uinteger_as_hex_lem :
      (b : Buffer)
      → IsValid b
      → b.current ≤ b.last
      → let (value, count) = read_digits 0 (pending b) in
        read_uinteger_as_hex bytes b ≡ (
          if count == 0
          then (0, record b { exn = 3 })
          else (value % 256 ^ bytes, record b { exn = 0; current = b.current + count }))
  unfolding read_uinteger_as_hex set_exception_code
  read_uinteger_as_hex_lem b v le = ground (
    arith,
    parse_hex_digits-read_digits (bytes_left b + 1) b 0 0 v le (omega (arith, bytes_left-eq b)),
    zero_mod,
  )
    where
      zero_mod : 0 % 256 ^ bytes ≡ 0
      zero_mod = zero-mod (256 ^ bytes)
