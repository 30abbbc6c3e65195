-- ===== src/Memory/Write.antt =====
-- core/memory.c: `WriteHexBufferToMemory` and `WriteBinaryBufferToMemory`. The result is the C `int`
-- as a Boolean, beside the state.
use mri.Prelude.{
  ℕ, zero, suc, ◌+◌, ◌%◌, ◌^◌, Bool, true, false, List, [], ◌∷◌, ltb, ◌==◌, if◌then◌else◌,
}
use mri.Buffer.Core.{Buffer, clear_exception_code, no_throw}
use mri.Buffer.Bytes.{read_byte_as_hex, read_char}
use mri.Objects.{value_of}
use mri.Memory.Platform.{Platform, Target}

-- `readBytesFromHexBuffer` and `readBytesFromBinaryBuffer`: `read_byte` is the routine of core/buffer.c
-- that reads one byte. The bytes read, in order, are what the object holds when the result is true.
unfoldable pub read_bytes_from_buffer : (Buffer → ℕ × Buffer) → Buffer → ℕ → Bool × List ℕ × Buffer
read_bytes_from_buffer read_byte b zero = (true, [], b)
read_bytes_from_buffer read_byte b (suc length) =
    let (byte, b₁) = read_byte (clear_exception_code b) in
    let (ok, bytes, b₂) = read_bytes_from_buffer read_byte b₁ length in
    if no_throw b₁ then (ok, byte ∷ bytes, b₂) else (false, [], b₁)

module _ {S : Type 0} (platform : Platform S) (bytes : ℕ) (read_byte : Buffer → ℕ × Buffer) where
  -- `writeHexBufferToByteMemory` and `writeBinaryBufferToByteMemory`
  unfoldable pub write_byte_memory : Target S → ℕ → ℕ → Bool × Target S
  write_byte_memory t address zero = (true, t)
  write_byte_memory t address (suc write_byte_count) =
      let (byte, b) = read_byte (clear_exception_code t.buffer) in
      let (fault, s) =
        platform.was_memory_fault_encountered (platform.mem_write 1 address byte t.state) in
      let t' : Target S = record { buffer = b; state = s } in
      let rest = write_byte_memory t' ((address + 1) % 256 ^ bytes) write_byte_count in
      if no_throw b then (if fault then (false, t') else rest) else (false, record t { buffer = b })

  -- `write…BufferToHalfWordMemory`, `write…BufferToWordMemory` and, with a 64-bit `uintmri_t`,
  -- `write…BufferToDoubleWordMemory`: one access of `size` bytes to an address that is aligned.
  unfoldable pub write_unit_memory : ℕ → Target S → ℕ → Bool × Target S
  write_unit_memory zero t address = (true, t)
  write_unit_memory (suc n) t address =
      let size = suc n in
      let (ok, object, b) = read_bytes_from_buffer read_byte t.buffer size in
      let (fault, s) =
        platform.was_memory_fault_encountered
          (platform.mem_write size address (value_of object) t.state) in
      if address % size == 0
      then (if ok
          then (if fault
              then (false, record { buffer = b; state = s })
              else (true, record { buffer = b; state = s }))
          else (false, record t { buffer = b }))
      else write_byte_memory t address size

  unfoldable pub write_double_word_memory : Target S → ℕ → Bool × Target S
  write_double_word_memory t address =
      if ltb bytes 8 then write_byte_memory t address 8 else write_unit_memory 8 t address

  -- The `switch` of the two routines that core/memory.h declares.
  unfoldable pub write_buffer_to_memory : Target S → ℕ → ℕ → Bool × Target S
  write_buffer_to_memory t address write_byte_count =
      if write_byte_count == 2
      then write_unit_memory 2 t address
      else (if write_byte_count == 4
          then write_unit_memory 4 t address
          else (if write_byte_count == 8
              then write_double_word_memory t address
              else write_byte_memory t address write_byte_count))

module _ {S : Type 0} (platform : Platform S) (bytes : ℕ) where
  -- `WriteHexBufferToMemory`
  abbrev pub write_hex_buffer_to_memory : Target S → ℕ → ℕ → Bool × Target S
  write_hex_buffer_to_memory = write_buffer_to_memory platform bytes read_byte_as_hex

  -- `WriteBinaryBufferToMemory`
  abbrev pub write_binary_buffer_to_memory : Target S → ℕ → ℕ → Bool × Target S
  write_binary_buffer_to_memory = write_buffer_to_memory platform bytes read_char
