-- ===== src/Buffer/Safety/Calls.antt =====
-- Any sequence of calls of the interface in core/buffer.h, on any arguments.
use mri.Prelude.{ℕ, ◌<◌, ◌≤◌, ◌≡◌, List, [], ◌∷◌, ◌⊎◌, length, get_elem?}
use mri.Libc.{strlen}
use mri.Buffer.Core.{Buffer, IsValid, reset, set_end_of_buffer, advance}
use mri.Buffer.Bytes.{
  write_char, read_char, write_byte_as_hex, read_byte_as_hex, write_string, write_sized_string,
  write_string_as_hex, write_sized_string_as_hex,
}
use mri.Buffer.Integers.{
  is_next_char_equal_to, read_uinteger_as_hex, write_uinteger_as_hex, read_integer_as_hex,
  write_integer_as_hex,
}
use mri.Buffer.Matching.{matches_string, matches_hex_string}
use mri.Buffer.Safety.{
  Keeps, Keeps-refl, Keeps-trans, reset-Keeps, advance-Keeps, set_end_of_buffer-Keeps,
}
use mri.Buffer.Safety.Writes.{
  write_char-Keeps, write_byte_as_hex-Keeps, write_sized_string-Keeps, write_bytes_as_hex-Keeps,
  write_uinteger_as_hex-Keeps, write_integer_as_hex-Keeps,
}
use mri.Buffer.Safety.Reads.{
  read_char-Keeps, read_byte_as_hex-Keeps, is_next_char_equal_to-Keeps, read_uinteger_as_hex-Keeps,
  read_integer_as_hex-Keeps,
}
use mri.Buffer.Safety.Matches.{matches_string-Keeps, matches_hex_string-Keeps}

-- A call of a routine that can change a `Buffer`.
pub data Call : Type 0 where
  reset_it set_end read_a_char read_a_byte read_unsigned read_signed : Call
  advance_by write_a_char write_a_byte write_unsigned write_signed next_is : ℕ → Call
  write_text write_text_hex : List ℕ → Call
  write_sized write_sized_hex match_text match_hex : List ℕ → ℕ → Call

module _ (bytes : ℕ) where
  unfoldable pub call : Call → Buffer → Buffer
  call reset_it b = reset b
  call set_end b = set_end_of_buffer b
  call read_a_char b = (read_char b).1
  call read_a_byte b = (read_byte_as_hex b).1
  call read_unsigned b = (read_uinteger_as_hex bytes b).1
  call read_signed b = (read_integer_as_hex bytes b).1
  call (advance_by n) b = advance b n
  call (write_a_char c) b = write_char b c
  call (write_a_byte c) b = write_byte_as_hex b c
  call (write_unsigned n) b = write_uinteger_as_hex bytes b n
  call (write_signed n) b = write_integer_as_hex bytes b n
  call (next_is c) b = (is_next_char_equal_to b c).1
  call (write_text s) b = write_string b s
  call (write_text_hex s) b = (write_string_as_hex b s).1
  call (write_sized s n) b = write_sized_string b s n
  call (write_sized_hex s n) b = (write_sized_string_as_hex b s n).1
  call (match_text s n) b = (matches_string b s n).1
  call (match_hex s n) b = (matches_hex_string b s n).1

  call-Keeps : (c : Call) {b : Buffer} → IsValid b → Keeps b (call c b)
  unfolding call write_string write_string_as_hex write_sized_string_as_hex
  call-Keeps reset_it v = reset-Keeps v
  call-Keeps set_end v = set_end_of_buffer-Keeps v
  call-Keeps read_a_char v = read_char-Keeps v
  call-Keeps read_a_byte v = read_byte_as_hex-Keeps v
  call-Keeps read_unsigned v = read_uinteger_as_hex-Keeps bytes v
  call-Keeps read_signed v = read_integer_as_hex-Keeps bytes v
  call-Keeps (advance_by n) v = advance-Keeps n v
  call-Keeps (write_a_char c) v = write_char-Keeps c v
  call-Keeps (write_a_byte c) v = write_byte_as_hex-Keeps c v
  call-Keeps (write_unsigned n) v = write_uinteger_as_hex-Keeps bytes n v
  call-Keeps (write_signed n) v = write_integer_as_hex-Keeps bytes n v
  call-Keeps (next_is c) v = is_next_char_equal_to-Keeps c v
  call-Keeps (write_text s) v = write_sized_string-Keeps s (strlen s) v
  call-Keeps (write_text_hex s) {b} v = write_bytes_as_hex-Keeps b s _ v
  call-Keeps (write_sized s n) v = write_sized_string-Keeps s n v
  call-Keeps (write_sized_hex s n) {b} v = write_bytes_as_hex-Keeps b s _ v
  call-Keeps (match_text s n) v = matches_string-Keeps s n v
  call-Keeps (match_hex s n) v = matches_hex_string-Keeps s n v

  unfoldable pub run : List Call → Buffer → Buffer
  run [] b = b
  run (c ∷ calls) b = run calls (call c b)

  run-Keeps : (calls : List Call) (b : Buffer) → IsValid b → Keeps b (run calls b)
  unfolding run
  run-Keeps [] b v = Keeps-refl v
  run-Keeps (c ∷ calls) b v =
      let k : Keeps b (call c b) = call-Keeps c v in
      Keeps-trans k (run-Keeps calls (call c b) k.valid)

  -- From a valid buffer, whatever routines are called, in any order and on any arguments, the
  -- pointers stay valid and the start and the array's size stay as they are; the end never moves up,
  -- and no element of the array outside of the buffer's first bounds changes.
  pub run_stays_inside :
      (calls : List Call) (b : Buffer) (i : ℕ)
      → IsValid b
      → (i < b.start) ⊎ (b.last ≤ i)
      → IsValid (run calls b)
        × ((run calls b).start ≡ b.start)
        × ((run calls b).last ≤ b.last)
        × (length (run calls b).mem ≡ length b.mem)
        × (get_elem? (run calls b).mem i ≡ get_elem? b.mem i)
  run_stays_inside calls b i v outside =
      let k = run-Keeps calls b v in
      (k.valid, k.same_start, k.last_le, k.same_length, k.frame i outside)
