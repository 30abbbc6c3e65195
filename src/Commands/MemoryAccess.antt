-- ===== src/Commands/MemoryAccess.antt =====
-- core/cmd_memory.c: the commands 'm', 'M' and 'X'. Each handler returns 0, which is left out.
use mri.Prelude.{ℕ, ◌%◌, ◌^◌, Bool, ◌==◌, if◌then◌else◌, List, [], ◌∷◌}
use mri.Libc.{c_string}
use mri.Buffer.Core.{clear_exception_code, no_throw, overrun_detected}
use mri.Memory.Platform.{Platform, Target}
use mri.Memory.Read.{read_memory_into_hex_buffer}
use mri.Memory.Write.{write_hex_buffer_to_memory, write_binary_buffer_to_memory}
use mri.Packet.Link.{data_view}
use mri.Commands.Arguments.{
  read_address_and_length_arguments, read_address_and_length_arguments_with_colon,
}
use mri.Commands.Session.{
  Session, target, with_target, with_buffer, init_packet_buffers, prepare_string_response,
  mri_error_invalid_argument, mri_error_memory_access_failure, mri_error_buffer_overrun,
}

abbrev ok_response : List ℕ
ok_response = c_string (b'O' ∷ b'K' ∷ [])

module _ {S : Type 0} (platform : Platform S) (bytes packet_start packet_size : ℕ) where
  -- `HandleMemoryReadCommand`; the count is kept in a `uint32_t`.
  unfoldable pub handle_memory_read_command : Session S → Session S
  handle_memory_read_command s =
      let (arguments, b) =
        read_address_and_length_arguments bytes (clear_exception_code (data_view s.packet)) in
      let s₁ = init_packet_buffers packet_start packet_size (with_buffer s b) in
      let (count, t) =
        read_memory_into_hex_buffer platform bytes (target s₁) arguments.address arguments.length in
      let s₂ = with_target s₁ t in
      if no_throw b
      then (if count % 2 ^ 32 == 0
          then prepare_string_response packet_start packet_size s₂ mri_error_memory_access_failure
          else s₂)
      else prepare_string_response packet_start packet_size (with_buffer s b)
          mri_error_invalid_argument

  -- The last part of the two handlers that write, on what writing to the memory gives.
  abbrev answer_write : Session S → Bool × Target S → (Session S → Session S) → Session S
  answer_write s written sync =
      let s' = with_target s (written.1) in
      if written.0
      then prepare_string_response packet_start packet_size (sync s') ok_response
      else (if overrun_detected (data_view s'.packet)
          then prepare_string_response packet_start packet_size s' mri_error_buffer_overrun
          else prepare_string_response packet_start packet_size s' mri_error_memory_access_failure)

  -- `HandleMemoryWriteCommand`
  unfoldable pub handle_memory_write_command : Session S → Session S
  handle_memory_write_command s =
      let (arguments, b) =
        read_address_and_length_arguments_with_colon bytes
          (clear_exception_code (data_view s.packet)) in
      let s₁ = with_buffer s b in
      let written =
        write_hex_buffer_to_memory platform bytes (target s₁) arguments.address arguments.length in
      if no_throw b
      then answer_write s₁ written (λ s'. s')
      else prepare_string_response packet_start packet_size s₁ mri_error_invalid_argument

  -- `HandleBinaryMemoryWriteCommand`; `sync_icache_to_dcache` is the platform's routine.
  unfoldable pub handle_binary_memory_write_command : (ℕ → ℕ → S → S) → Session S → Session S
  handle_binary_memory_write_command sync_icache_to_dcache s =
      let (arguments, b) =
        read_address_and_length_arguments_with_colon bytes
          (clear_exception_code (data_view s.packet)) in
      let s₁ = with_buffer s b in
      let written =
        write_binary_buffer_to_memory platform bytes (target s₁) arguments.address
          arguments.length in
      if no_throw b
      then answer_write s₁ written (λ s'. record s' {
        state = sync_icache_to_dcache arguments.address arguments.length s'.state;
      })
      else prepare_string_response packet_start packet_size s₁ mri_error_invalid_argument
