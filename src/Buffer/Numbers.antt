-- ===== src/Buffer/Numbers.antt =====
-- What `Buffer_WriteUIntegerAsHex` of core/buffer.c writes.
use mri.Prelude.{
  ℕ, zero, suc, ◌+◌, ◌-◌, ◌*◌, ◌/◌, ◌%◌, ◌^◌, ◌<◌, ◌≤◌, ◌≡◌, ◌≢◌, refl, sym, ap, ◌∙◌, arith, List,
  [], ◌++◌, length, ◌==◌, if◌then◌else◌, mod-eq_of_lt, Bool-cases, ==_iff, inl, inr, subst, true,
  false, dec_lt,
}
use mri.Prelude.Words.{lt_of_top_byte, top_byte-lt, mod-pow_suc}
use native.Mathlib.Nat.{pow-suc}
use mri.HexConvert.{extract_hi_nibble, extract_lo_nibble}
use mri.HexConvert.Laws.{digit_value-nibble_to_hex_char}
use mri.Buffer.Core.{Buffer, clear_exception_code, bytes_left}
use mri.Buffer.Integers.{
  count_zero_bytes_below, count_leading_zero_bytes, write_low_bytes, write_uinteger_as_hex,
}
use mri.Buffer.Cases.{bytes_left-eq}
use mri.Buffer.Emit.{overwrite, emit, emit-emit, hex_byte, write_byte_as_hex-emit}
use mri.Buffer.Reading.{read_digits, read_digits-digit}

-- The digits of the low `n` bytes of a value, the highest first.
unfoldable pub hex_bytes : ℕ → ℕ → List ℕ
hex_bytes value zero = []
hex_bytes value (suc n) = hex_byte (value / 256 ^ n % 256) ++ hex_bytes value n

pub length-hex_bytes : (value n : ℕ) → length (hex_bytes value n) ≡ 2 * n
unfolding hex_bytes
length-hex_bytes value zero = refl
length-hex_bytes value (suc n) = omega (arith, length-hex_bytes value n)

-- The bytes of a value without those at the top that are 0; one byte for 0.
unfoldable pub byte_count : ℕ → ℕ → ℕ
byte_count bytes value = if value == 0 then 1 else bytes - count_leading_zero_bytes bytes value

-- The text of a number.
abbrev pub hex_text : ℕ → ℕ → List ℕ
hex_text bytes value = hex_bytes value (byte_count bytes value)

module _ (bytes : ℕ) where
  count_zero_bytes_below-le : (value k : ℕ) → count_zero_bytes_below bytes value k ≤ k
  unfolding count_zero_bytes_below
  count_zero_bytes_below-le value zero = omega arith
  count_zero_bytes_below-le value (suc k) = ground (arith, count_zero_bytes_below-le value k)

  -- The bytes that are left out are 0.
  count_zero_bytes_below-fits :
      (value k : ℕ) → value < 256 ^ k → value < 256 ^ (k - count_zero_bytes_below bytes value k)
  unfolding count_zero_bytes_below
  count_zero_bytes_below-fits value zero h = h
  count_zero_bytes_below-fits value (suc k) h = elim (Bool-cases (value / 256 ^ k % 256 == 0)) [
    | inr used ↦ rw used (subst (λ m. value < 256 ^ m) {x = suc k} {y = suc k - 0} (omega arith) h)
    | inl unused ↦ rw unused (
        subst (λ m. value < 256 ^ m) {x = k - count_zero_bytes_below bytes value k}
          {y = suc k - suc (count_zero_bytes_below bytes value k)} (omega arith)
          (count_zero_bytes_below-fits value k (
            lt_of_top_byte value k
              (sym (mod-eq_of_lt (top_byte-lt value k h)) ∙ (==_iff _ 0).0 unused))))
  ]

  pub byte_count-fits :
      (value : ℕ) → 0 < bytes → value < 256 ^ bytes → value < 256 ^ byte_count bytes value
  unfolding byte_count count_leading_zero_bytes
  byte_count-fits value pos h = elim (Bool-cases (value == 0)) [
    | inl empty ↦ rw empty (omega (arith, (==_iff value 0).0 empty))
    | inr other ↦ rw other (count_zero_bytes_below-fits value bytes h)
  ]

  pub byte_count-le : (value : ℕ) → 0 < bytes → byte_count bytes value ≤ bytes
  unfolding byte_count count_leading_zero_bytes
  byte_count-le value pos = ground arith

  write_low_bytes-emit :
      (b : Buffer) (value n : ℕ)
      → b.exn ≡ 0
      → 2 * n ≤ b.last - b.current
      → write_low_bytes bytes b value n ≡ emit b (hex_bytes value n)
  unfolding write_low_bytes hex_bytes bytes_left
  write_low_bytes-emit b value zero e h = unfold overwrite in ground arith
  write_low_bytes-emit b value (suc n) e h =
      let byte : ℕ = value / 256 ^ n % 256 in
      rw (write_byte_as_hex-emit (clear_exception_code b) byte (omega (arith, bytes_left-eq b))) (
        write_low_bytes-emit (emit b (hex_byte byte)) value n refl (omega arith)
        ∙ emit-emit b (hex_byte byte) (hex_bytes value n))

  -- The exception code that is there before is of no account, if a byte is written.
  write_low_bytes-clear :
      (b : Buffer) (value n : ℕ)
      → 0 < n
      → write_low_bytes bytes b value n ≡ write_low_bytes bytes (clear_exception_code b) value n
  unfolding write_low_bytes
  write_low_bytes-clear b value zero h = absurd (omega arith)
  write_low_bytes-clear b value (suc n) h = refl

  count_leading_zero_bytes-lt :
      (value : ℕ) → value ≢ 0 → value < 256 ^ bytes → count_leading_zero_bytes bytes value < bytes
  unfolding count_leading_zero_bytes
  count_leading_zero_bytes-lt value ne h =
      elim (dec_lt (count_leading_zero_bytes bytes value) bytes) [
        | yes less ↦ less
        | no all ↦ absurd (
            ne (
              unique (bytes - count_leading_zero_bytes bytes value) (omega arith)
                (count_zero_bytes_below-fits value bytes h)))
      ]
    where
      unique : (m : ℕ) → m ≡ 0 → value < 256 ^ m → value ≡ 0
      unique m e l = omega (arith, subst (λ n. value < 256 ^ n) e l)

  -- At least one byte is written.
  pub byte_count-pos : (value : ℕ) → value < 256 ^ bytes → 0 < byte_count bytes value
  unfolding byte_count
  byte_count-pos value h = elim (Bool-cases (value == 0)) [
    | inl empty ↦ rw empty (omega arith)
    | inr other ↦
        rw other
          (omega (arith, count_leading_zero_bytes-lt value (λ e. cc (other, ap (λ k. k == 0) e)) h))
  ]

  -- Where there is room for it, a number is written as its text and nothing is thrown.
  pub write_uinteger_as_hex-emit :
      (b : Buffer) (value : ℕ)
      → value < 256 ^ bytes
      → 2 * byte_count bytes value ≤ bytes_left b
      → write_uinteger_as_hex bytes b value ≡ emit b (hex_text bytes value)
  unfolding write_uinteger_as_hex byte_count hex_bytes
  write_uinteger_as_hex-emit b value fits h = elim (Bool-cases (value == 0)) [
    | inl empty ↦ rw (empty, (==_iff value 0).0 empty) (write_byte_as_hex-emit b 0 (one_byte empty))
    | inr other ↦ rw other (several other)
  ]
    where
      one_byte : (value == 0) ≡ true → 2 ≤ bytes_left b
      one_byte empty = rw empty at h

      room :
          (value == 0) ≡ false → 2 * (bytes - count_leading_zero_bytes bytes value) ≤ bytes_left b
      room other = rw other at h

      several :
          (value == 0) ≡ false
          → write_low_bytes bytes b value (bytes - count_leading_zero_bytes bytes value)
            ≡ emit b (hex_bytes value (bytes - count_leading_zero_bytes bytes value))
      several other =
          write_low_bytes-clear b value (bytes - count_leading_zero_bytes bytes value) (
            omega
              (arith, count_leading_zero_bytes-lt value (λ e. cc (other, ap (λ k. k == 0) e)) fits))
          ∙ write_low_bytes-emit (clear_exception_code b) value _ refl
              (omega (arith, bytes_left-eq b, room other))

-- The digits that are written are read back, up to whatever follows.
read_digits-hex_byte :
    (acc byte : ℕ) (rest : List ℕ)
    → byte < 256
    → read_digits acc (hex_byte byte ++ rest)
      ≡ ((read_digits (acc * 256 + byte) rest).0, 2 + (read_digits (acc * 256 + byte) rest).1)
read_digits-hex_byte acc byte rest h =
    rw
      (
        read_digits-digit acc _ _
            (digit_value-nibble_to_hex_char (extract_hi_nibble byte) (omega arith)),
        read_digits-digit (acc * 16 + extract_hi_nibble byte) _ rest
            (digit_value-nibble_to_hex_char (extract_lo_nibble byte) (omega arith)),
      )
      (let e : (acc * 16 + extract_hi_nibble byte) * 16 + extract_lo_nibble byte
            ≡ acc * 256 + byte =
          omega arith in
        rw e (ground arith))

pub read_digits-hex_bytes :
    (acc value n : ℕ) (rest : List ℕ)
    → read_digits acc (hex_bytes value n ++ rest) ≡ (
      (read_digits (acc * 256 ^ n + value % 256 ^ n) rest).0,
      2 * n + (read_digits (acc * 256 ^ n + value % 256 ^ n) rest).1,
    )
unfolding hex_bytes
read_digits-hex_bytes acc value zero rest =
    let e : acc * 1 + value % 1 ≡ acc = omega arith in rw e (ground arith)
read_digits-hex_bytes acc value (suc n) rest =
    read_digits-hex_byte acc (value / 256 ^ n % 256) (hex_bytes value n ++ rest) (omega arith)
    ∙ rw (read_digits-hex_bytes (acc * 256 + value / 256 ^ n % 256) value n rest) (
        let e : (acc * 256 + value / 256 ^ n % 256) * 256 ^ n + value % 256 ^ n
            ≡ acc * 256 ^ suc n + value % 256 ^ suc n =
          omega (arith, mod-pow_suc value n, ap (λ (t : ℕ). acc * t) (pow-suc 256 n)) in
        rw e (ground arith))
