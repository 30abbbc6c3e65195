-- ===== src/Buffer/RoundTrip.antt =====
-- core/buffer.c: `Buffer_WriteUIntegerAsHex`, and then `Buffer_ReadUIntegerAsHex`.
use mri.Prelude.{
  ℕ, ◌+◌, ◌-◌, ◌*◌, ◌^◌, ◌<◌, ◌≤◌, ◌≡◌, refl, sym, ap, ◌∙◌, arith, List, [], length, slice, ltb,
  mod-eq_of_lt, Bool-cases, ltb_false→le, inl, inr, append-nil,
}
use mri.Buffer.Core.{Buffer, IsValid, reset, set_end_of_buffer, bytes_left}
use mri.Buffer.Integers.{write_uinteger_as_hex, read_uinteger_as_hex}
use mri.Buffer.Cases.{bytes_left-eq}
use mri.Buffer.Emit.{overwrite, emit, length-overwrite, slice-overwrite}
use mri.Buffer.Reading.{pending, read_digits, read_digits-nil, read_uinteger_as_hex_lem}
use mri.Buffer.Numbers.{
  byte_count, hex_text, length-hex_bytes, byte_count-fits, byte_count-pos,
  write_uinteger_as_hex-emit, read_digits-hex_bytes,
}

-- The end is set behind what was written, and the pointer moved back to the start.
abbrev pub rewind : Buffer → Buffer
rewind b = reset (set_end_of_buffer b)

-- What is left to read is then what stands in front of the pointer.
pub pending-rewind :
    (b : Buffer)
    → b.current ≤ b.last
    → pending (rewind b) ≡ slice b.mem b.start (b.current - b.start)
unfolding reset set_end_of_buffer
pending-rewind b h = elim (Bool-cases (ltb b.current b.last)) [
  | inl less ↦ rw less
  | inr full ↦ rw full (
      ap (slice b.mem b.start) {x = b.last - b.start} {y = b.current - b.start}
        (omega (arith, ltb_false→le _ _ full)))
]

-- The buffer that holds `text` and nothing else, with the pointer at its start.
abbrev pub holding : Buffer → List ℕ → Buffer
holding b text = record b {
  mem = overwrite b.mem b.current text;
  exn = 0;
  last = b.current + length text;
  current = b.start;
}

module _ (b : Buffer) (text : List ℕ) (v : IsValid b) (le : b.current ≤ b.last)
    (fits : length text ≤ bytes_left b) where
  pub rewind-emit : rewind (emit b text) ≡ holding b text
  unfolding reset set_end_of_buffer
  rewind-emit = elim (Bool-cases (ltb (b.current + length text) b.last)) [
    | inl less ↦ rw less
    | inr full ↦ rw full (ground (arith, bytes_left-eq b, ltb_false→le _ _ full))
  ]

  pub holding-IsValid : IsValid (holding b text)
  holding-IsValid = record {
    ordered = omega (arith, v.after_start);
    inside = omega (arith, v.inside, bytes_left-eq b, length-overwrite b.mem b.current text);
    after_start = omega arith;
    before_end = omega (arith, v.after_start);
  }

  pub pending-holding : b.current ≡ b.start → pending (holding b text) ≡ text
  pending-holding e =
      ap (λ k. slice (overwrite b.mem b.current text) k (b.current + length text - k)) (sym e)
      ∙ ap (slice (overwrite b.mem b.current text) b.current)
          {x = b.current + length text - b.current} {y = length text} (omega arith)
      ∙ slice-overwrite b.mem b.current text (omega (arith, v.inside, bytes_left-eq b))

module _ (bytes : ℕ) where
  -- The code reads a number's text back, and moves past it.
  read_digits-hex_text :
      (value : ℕ)
      → 0 < bytes
      → value < 256 ^ bytes
      → read_digits 0 (hex_text bytes value) ≡ (value, 2 * byte_count bytes value)
  read_digits-hex_text value pos h =
      let n : ℕ = byte_count bytes value in
      ap (read_digits 0) (sym (append-nil (hex_text bytes value)))
      ∙ read_digits-hex_bytes 0 value n []
      ∙ rw (read_digits-nil, mod-eq_of_lt (byte_count-fits bytes value pos h)) (ground arith)

  read_holding :
      (b : Buffer) (value : ℕ)
      → IsValid b
      → b.current ≡ b.start
      → 0 < bytes
      → value < 256 ^ bytes
      → 2 * byte_count bytes value ≤ bytes_left b
      → read_uinteger_as_hex bytes (holding b (hex_text bytes value)) ≡ (
        value,
        record (holding b (hex_text bytes value)) {
          current = b.start + 2 * byte_count bytes value;
        },
      )
  read_holding b value v e pos h room =
      read_uinteger_as_hex_lem bytes text_buffer (holding-IsValid b text v le fits)
        (omega (arith, v.after_start))
      ∙ rw (pending-holding b text v le fits e, read_digits-hex_text value pos h)
          (ground (arith, byte_count-pos bytes value h, mod-eq_of_lt h))
    where
      text : List ℕ
      text = hex_text bytes value

      text_buffer : Buffer
      text_buffer = holding b text

      le : b.current ≤ b.last
      le = omega (arith, v.ordered)

      fits : length text ≤ bytes_left b
      fits = omega (arith, length-hex_bytes value (byte_count bytes value))

  -- A number below 256 ^ sizeof(uintmri_t) that is written from the start of a valid buffer, where
  -- its digits fit, is read back from there: the value is the same, nothing is thrown, and nothing
  -- is left to read.
  pub read-write_uinteger :
      (b : Buffer) (value : ℕ)
      → IsValid b
      → b.current ≡ b.start
      → 0 < bytes
      → value < 256 ^ bytes
      → 2 * byte_count bytes value ≤ bytes_left b
      → let (result, b') =
          read_uinteger_as_hex bytes (rewind (write_uinteger_as_hex bytes b value)) in
        (result ≡ value) × (b'.exn ≡ 0) × (bytes_left b' ≡ 0)
  read-write_uinteger b value v e pos h room =
      rw
        (
          write_uinteger_as_hex-emit bytes b value h room,
          rewind-emit b (hex_text bytes value) v (omega (arith, v.ordered))
              (omega (arith, length-hex_bytes value (byte_count bytes value))),
          read_holding b value v e pos h room,
        )
        (
          refl,
          refl,
          omega (
            arith,
            bytes_left-eq (record (holding b (hex_text bytes value)) {
              current = b.start + 2 * byte_count bytes value;
            }),
            length-hex_bytes value (byte_count bytes value),
          ),
        )
