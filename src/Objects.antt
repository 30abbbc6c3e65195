-- ===== src/Objects.antt =====
-- The loops of core/memory.c and core/context.c that write an object's bytes as hexadecimal digits and
-- read them back. The targets are little-endian: the lowest byte of an integer is at its address.
use mri.Prelude.{
  ℕ, zero, suc, ◌+◌, ◌*◌, ◌/◌, ◌%◌, ◌<◌, ◌≤◌, ◌≡◌, refl, ap, ap₂, ◌∙◌, arith, List, [], ◌∷◌, ◌++◌,
  All, length,
}
use mri.Buffer.Core.{Buffer, bytes_left}
use mri.Buffer.Bytes.{write_byte_as_hex}
use mri.Buffer.Emit.{emit, emit-emit, hex_byte, write_byte_as_hex-emit, overwrite}
use mri.Buffer.Cases.{bytes_left-eq}

-- The bytes of an integer object of `size` bytes, from its address on.
unfoldable pub bytes_of : ℕ → ℕ → List ℕ
bytes_of zero value = []
bytes_of (suc size) value = value % 256 ∷ bytes_of size (value / 256)

-- The integer that such bytes hold.
unfoldable pub value_of : List ℕ → ℕ
value_of [] = 0
value_of (byte ∷ bytes) = byte + 256 * value_of bytes

pub bytes_of-value_of :
    (bytes : List ℕ)
    → All (λ byte. byte < 256) bytes
    → bytes_of (length bytes) (value_of bytes) ≡ bytes
unfolding bytes_of value_of
bytes_of-value_of [] h = refl
bytes_of-value_of (byte ∷ bytes) h =
    ap₂ ◌∷◌ {x = (byte + 256 * value_of bytes) % 256} {y = byte} (omega (arith, h.0)) (
      ap (bytes_of (length bytes)) {x = (byte + 256 * value_of bytes) / 256} {y = value_of bytes}
        (omega (arith, h.0))
      ∙ bytes_of-value_of bytes h.1)

-- `writeBytesToBufferAsHex`
unfoldable pub write_bytes_to_buffer_as_hex : Buffer → List ℕ → Buffer
write_bytes_to_buffer_as_hex b [] = b
write_bytes_to_buffer_as_hex b (byte ∷ bytes) =
    write_bytes_to_buffer_as_hex (write_byte_as_hex b byte) bytes

-- The digits of the bytes.
unfoldable pub hex_of : List ℕ → List ℕ
hex_of [] = []
hex_of (byte ∷ bytes) = hex_byte byte ++ hex_of bytes

pub length-hex_of : (bytes : List ℕ) → length (hex_of bytes) ≡ 2 * length bytes
unfolding hex_of
length-hex_of [] = refl
length-hex_of (byte ∷ bytes) = omega (arith, length-hex_of bytes)

pub hex_of-append : (s t : List ℕ) → hex_of (s ++ t) ≡ hex_of s ++ hex_of t
unfolding hex_of
hex_of-append [] t = refl
hex_of-append (byte ∷ s) t = ap (λ k. hex_byte byte ++ k) (hex_of-append s t)

-- Two digits are written, and as many places fewer are left.
pub room-emit :
    (b : Buffer) (text : List ℕ) (n : ℕ)
    → length text + n ≤ bytes_left b
    → n ≤ bytes_left (emit b text)
room-emit b text n h = omega (arith, h, bytes_left-eq b, bytes_left-eq (emit b text))

pub write_bytes-emit :
    (b : Buffer) (bytes : List ℕ)
    → b.exn ≡ 0
    → 2 * length bytes ≤ bytes_left b
    → write_bytes_to_buffer_as_hex b bytes ≡ emit b (hex_of bytes)
unfolding write_bytes_to_buffer_as_hex hex_of
write_bytes-emit b [] e h = unfold overwrite in ground arith
write_bytes-emit b (byte ∷ bytes) e h =
    ap (λ k. write_bytes_to_buffer_as_hex k bytes) (write_byte_as_hex-emit b byte (omega arith))
    ∙ write_bytes-emit (emit b (hex_byte byte)) bytes refl
        (room-emit b (hex_byte byte) (2 * length bytes) (omega arith))
    ∙ emit-emit b (hex_byte byte) (hex_of bytes)
