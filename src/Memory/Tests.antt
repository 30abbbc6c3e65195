-- ===== src/Memory/Tests.antt =====
-- A concrete memory.
use mri.Prelude.{ℕ, ◌%◌, ◌≡◌, refl, arith, false, replicate}
use mri.Buffer.Core.{bytes_left, overrun_detected}
use mri.Objects.{value_of}
use mri.Memory.Platform.{Platform, Target}
use mri.Memory.Read.{read_memory_into_hex_buffer}
use mri.Memory.ReadLaws.{bytes_at, IsReadable, after_reading, read_memory_into_hex_buffer_lem}

-- The byte at an address is the address, modulo 256.
abbrev byte_at : Unit {0} → ℕ → ℕ
byte_at s address = address % 256

abbrev rom : Platform (Unit {0})
rom = record {
  mem_read = λ size address s. (value_of (bytes_at (byte_at s) address size), s);
  mem_write = λ size address value s. s;
  was_memory_fault_encountered = λ s. (false, s);
}

rom-IsReadable : IsReadable rom byte_at
rom-IsReadable = record {
  is_byte = λ s address. omega arith;
  reads = λ size address s h. refl;
  no_fault = λ s. refl;
}

abbrev room_for_ten : Target (Unit {0})
room_for_ten = record {
  buffer = record { mem = replicate 10 0; exn = 0; start = 0; last = 10; current = 0 };
  state = tt;
}

read_memory_example :
    read_memory_into_hex_buffer rom 4 room_for_ten 0x100 4
    ≡ (4, after_reading rom 4 byte_at rom-IsReadable room_for_ten 0x100 4)
unfolding bytes_left overrun_detected
read_memory_example =
    read_memory_into_hex_buffer_lem rom 4 byte_at rom-IsReadable 4 0x100 room_for_ten refl
      (omega arith) (omega arith)
