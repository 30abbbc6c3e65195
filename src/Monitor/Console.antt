-- ===== src/Monitor/Console.antt =====
-- core/mri.c and core/gdb_console.c: packets to gdb, and text for its console.
use mri.Prelude.{ℕ, ◌%◌, ◌^◌, List, [], ◌∷◌, if◌then◌else◌, replicate, take}
use mri.Libc.{c_string, strlen}
use mri.Buffer.Core.{Buffer, overrun_detected, set_end_of_buffer, init, get_length}
use mri.Buffer.Bytes.{write_char, write_string, write_sized_string_as_hex}
use mri.Buffer.Integers.{write_uinteger_as_hex}
use mri.Packet.Link.{data_view}
use mri.Packet.Send.{send_to_gdb}
use mri.Commands.Session.{init_packet_buffers, prepare_string_response, mri_error_buffer_overrun}
use mri.Monitor.State.{Machine, HandlerReturn, nothing}
use mri.Monitor.Monad.{
  Run, ◌>>=◌, ◌>>◌, pure, gets, on_packet, on_buffer, change_buffer, on_session,
}

abbrev pub ok_response : List ℕ
ok_response = c_string (b'O' ∷ b'K' ∷ [])

module _ {S : Type 0} (machine : Machine S) where
  -- `InitPacketBuffers` and `GetInitializedBuffer`
  abbrev pub init_buffers : Run S (Unit {0})
  init_buffers = on_session (init_packet_buffers machine.packet_start machine.packet_size)

  -- `PrepareStringResponse`
  abbrev pub respond : List ℕ → Run S (Unit {0})
  respond string =
      on_session (λ s. prepare_string_response machine.packet_start machine.packet_size s string)

  -- `PrepareStringResponse` as the last thing that a handler does
  abbrev pub respond_and_stay : List ℕ → Run S HandlerReturn
  respond_and_stay string = respond string >> pure nothing

  -- `PrepareEmptyResponseForUnknownCommand`
  abbrev pub empty_response : Run S HandlerReturn
  empty_response = respond_and_stay (c_string [])

  -- `SendPacketToGdb`
  unfoldable pub send_packet_to_gdb : Run S (Unit {0})
  send_packet_to_gdb = do
    overrun ← gets (λ m. overrun_detected (data_view m.session.packet))
    if overrun
        then (init_buffers >> change_buffer (λ b. write_string b mri_error_buffer_overrun))
        else pure tt
    change_buffer set_end_of_buffer
    on_packet send_to_gdb

  -- `WriteSizedStringToGdbConsole`
  unfoldable pub write_sized_string_to_gdb_console : List ℕ → ℕ → Run S ℕ
  write_sized_string_to_gdb_console string length = do
    init_buffers
    change_buffer (λ b. write_char b b'O')
    chars_written ← on_buffer (λ b. write_sized_string_as_hex b string length)
    send_packet_to_gdb
    pure chars_written

  -- `WriteStringToGdbConsole`
  unfoldable pub write_string_to_gdb_console : List ℕ → Run S ℕ
  write_string_to_gdb_console string = write_sized_string_to_gdb_console string (strlen string)

  -- The local buffer of `WriteHexValueToGdbConsole`, with the number written into it.
  unfoldable pub hex_value_buffer : ℕ → ℕ → Buffer
  hex_value_buffer exn value =
      let b =
        init (record { mem = replicate 11 0; exn = exn; start = 0; last = 0; current = 0 }) 0 11 in
      let b₁ = write_string b (c_string (b'0' ∷ b'x' ∷ [])) in
      set_end_of_buffer (write_uinteger_as_hex machine.bytes b₁ (value % 2 ^ 32))

  -- `WriteHexValueToGdbConsole`
  unfoldable pub write_hex_value_to_gdb_console : ℕ → Run S ℕ
  write_hex_value_to_gdb_console value = do
    b ← gets (λ m. hex_value_buffer m.session.packet.exn value)
    change_buffer (λ d. record d { exn = b.exn })
    write_sized_string_to_gdb_console (take (get_length b) b.mem) (get_length b)

  -- `Platform_DisplayFaultCauseToGdbConsole`, which writes the texts one by one.
  unfoldable pub write_strings_to_gdb_console : List (List ℕ) → Run S (Unit {0})
  write_strings_to_gdb_console [] = pure tt
  write_strings_to_gdb_console (text ∷ texts) =
      write_string_to_gdb_console text >>= λ written. write_strings_to_gdb_console texts
