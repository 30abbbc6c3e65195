-- ===== src/Memory/Read.antt =====
-- core/memory.c: `ReadMemoryIntoHexBuffer`. The result is the number of bytes read, beside the state.
use mri.Prelude.{ℕ, zero, suc, ◌+◌, ◌%◌, ◌^◌, ltb, ◌==◌, if◌then◌else◌}
use mri.Buffer.Bytes.{write_byte_as_hex}
use mri.Objects.{bytes_of, write_bytes_to_buffer_as_hex}
use mri.Memory.Platform.{Platform, Target}

-- `bytes` is the number of bytes of a `uintmri_t`, in which `address++` wraps.
module _ {S : Type 0} (platform : Platform S) (bytes : ℕ) where
  -- The loop; `byte_count` is what has been read so far.
  unfoldable pub read_bytes_loop : ℕ → ℕ → ℕ → Target S → ℕ × Target S
  read_bytes_loop zero address byte_count t = (byte_count, t)
  read_bytes_loop (suc read_byte_count) address byte_count t =
      let (byte, s₁) = platform.mem_read 1 address t.state in
      let (fault, s₂) = platform.was_memory_fault_encountered s₁ in
      let rest =
        read_bytes_loop read_byte_count ((address + 1) % 256 ^ bytes) (byte_count + 1)
          (record { buffer = write_byte_as_hex t.buffer byte; state = s₂ }) in
      if fault then (byte_count, record t { state = s₂ }) else rest

  -- `readMemoryBytesIntoHexBuffer`
  unfoldable pub read_memory_bytes : Target S → ℕ → ℕ → ℕ × Target S
  read_memory_bytes t address read_byte_count = read_bytes_loop read_byte_count address 0 t

  -- `readMemoryHalfWordIntoHexBuffer`, `readMemoryWordIntoHexBuffer` and, with a 64-bit `uintmri_t`,
  -- `readMemoryDoubleWordIntoHexBuffer`: one access of `size` bytes to an address that is aligned.
  unfoldable pub read_memory_unit : ℕ → Target S → ℕ → ℕ × Target S
  read_memory_unit zero t address = (0, t)
  read_memory_unit (suc n) t address =
      let size = suc n in
      let (value, s₁) = platform.mem_read size address t.state in
      let (fault, s₂) = platform.was_memory_fault_encountered s₁ in
      if address % size == 0
      then (if fault then (0, record t { state = s₂ }) else (
        size,
        record { buffer = write_bytes_to_buffer_as_hex t.buffer (bytes_of size value); state = s₂ },
      ))
      else read_memory_bytes t address size

  -- `readMemoryDoubleWordIntoHexBuffer`
  unfoldable pub read_memory_double_word : Target S → ℕ → ℕ × Target S
  read_memory_double_word t address =
      if ltb bytes 8 then read_memory_bytes t address 8 else read_memory_unit 8 t address

  -- `ReadMemoryIntoHexBuffer`
  unfoldable pub read_memory_into_hex_buffer : Target S → ℕ → ℕ → ℕ × Target S
  read_memory_into_hex_buffer t address read_byte_count =
      if read_byte_count == 2
      then read_memory_unit 2 t address
      else (if read_byte_count == 4
          then read_memory_unit 4 t address
          else (if read_byte_count == 8
              then read_memory_double_word t address
              else read_memory_bytes t address read_byte_count))
