-- ===== src/Context/Copy.antt =====
-- core/context.c: all registers written to a buffer, and read from one.
use mri.Prelude.{ℕ, zero, suc, ◌+◌, List, [], ◌∷◌}
use mri.Buffer.Core.{Buffer}
use mri.Buffer.Bytes.{read_byte_as_hex}
use mri.Objects.{bytes_of, value_of, write_bytes_to_buffer_as_hex}
use mri.Context.Core.{MriContext, count_registers, get, set_register}

-- `bytes` is the number of bytes of a `uintmri_t`.
module _ (bytes : ℕ) where
  -- The loop of `Context_CopyToBuffer`, with `n` registers left
  unfoldable pub copy_to_loop : MriContext → ℕ → ℕ → Buffer → Buffer
  copy_to_loop c zero i b = b
  copy_to_loop c (suc n) i b =
      let (reg, exn) = get c i b.exn in
      copy_to_loop c n (i + 1)
        (write_bytes_to_buffer_as_hex (record b { exn = exn }) (bytes_of bytes reg))

  -- `Context_CopyToBuffer`
  unfoldable pub copy_to_buffer : MriContext → Buffer → Buffer
  copy_to_buffer c b = copy_to_loop c (count_registers c) 0 b

  -- `readBytesFromBufferAsHex`: a byte that cannot be read is 0, and the loop goes on.
  unfoldable pub read_bytes_from_buffer_as_hex : Buffer → ℕ → List ℕ × Buffer
  read_bytes_from_buffer_as_hex b zero = ([], b)
  read_bytes_from_buffer_as_hex b (suc byte_count) =
      let (byte, b₁) = read_byte_as_hex b in
      let (object, b₂) = read_bytes_from_buffer_as_hex b₁ byte_count in (byte ∷ object, b₂)

  -- The loop of `Context_CopyFromBuffer`
  unfoldable pub copy_from_loop : MriContext → ℕ → ℕ → Buffer → MriContext × Buffer
  copy_from_loop c zero i b = (c, b)
  copy_from_loop c (suc n) i b =
      let (object, b₁) = read_bytes_from_buffer_as_hex b bytes in
      let (c₁, exn) = set_register c i (value_of object) b₁.exn in
      copy_from_loop c₁ n (i + 1) (record b₁ { exn = exn })

  -- `Context_CopyFromBuffer`
  unfoldable pub copy_from_buffer : MriContext → Buffer → MriContext × Buffer
  copy_from_buffer c b = copy_from_loop c (count_registers c) 0 b
