-- ===== src/Packet/Send.antt =====
-- core/packet.c: `Packet_SendToGDB`.
use mri.Prelude.{ℕ, zero, suc, ◌+◌, true, ◌||◌, ltb, ◌==◌, if◌then◌else◌, length}
use mri.Buffer.Core.{bytes_left, reset, advance, set_end_of_buffer}
use mri.Buffer.Bytes.{read_char, write_char, write_byte_as_hex}
use mri.Packet.Link.{
  Link, M, ◌>>=◌, ◌>>◌, pure, modify, stuck, data_view, packet_view, with_data, with_packet,
  get_next_char, send_char, init_packet_structure,
}
use mri.Packet.Receive.{clear_checksum, update_checksum}

-- The `while` of `processPacketData`; a round reads a character, so the fuel is what is left to read.
unfoldable pub process_loop : ℕ → ℕ → Link → ℕ × Link
process_loop zero length l = (length, l)
process_loop (suc fuel) length l =
    let (curr_char, b) = read_char (data_view l) in
    let rest = process_loop fuel (length + 1) (update_checksum curr_char (with_data l b)) in
    if ltb 0 (bytes_left (data_view l)) then rest else (length, l)

-- `processPacketData`
unfoldable pub process_packet_data : Link → Link
process_packet_data l =
    let (length, l') = process_loop (bytes_left (data_view l)) 0 l in
    with_packet l' (advance (packet_view l') length)

-- `storePacketHeaderByte`
abbrev pub store_packet_header_byte : Link → Link
store_packet_header_byte l = with_packet l (write_char (packet_view l) b'$')

-- `storePacketChecksum`
abbrev pub store_packet_checksum : Link → Link
store_packet_checksum l =
    with_packet l (write_byte_as_hex (write_char (packet_view l) b'#') l.calculated_checksum)

-- `completePacket`
unfoldable pub complete_packet : Link → Link
complete_packet l =
    let l₁ = clear_checksum (with_data l (reset (data_view l))) in
    let l₂ = store_packet_checksum (process_packet_data (store_packet_header_byte l₁)) in
    with_packet l₂ (set_end_of_buffer (packet_view l₂))

-- `Platform_CommSendBuffer`, the version of core/packet.c that a platform may replace; a round reads
-- a character, so the fuel is what is left to read.
unfoldable pub send_buffer_loop : ℕ → Link → Link
send_buffer_loop zero l = l
send_buffer_loop (suc fuel) l =
    let (c, b) = read_char (packet_view l) in
    let rest = send_buffer_loop fuel (send_char c (with_packet l b)) in
    if bytes_left (packet_view l) == 0 then l else rest

-- `sendPacket`
unfoldable pub send_packet : Link → Link
send_packet l =
    let l' = with_packet l (reset (packet_view l)) in
    send_buffer_loop (bytes_left (packet_view l')) l'

-- The `while` of `receiveCharAfterSkippingControlC`
unfoldable pub skip_control_c_loop : ℕ → ℕ → M ℕ
skip_control_c_loop zero next_char l = stuck
skip_control_c_loop (suc fuel) next_char l =
    let rest =
      (get_next_char >>= λ c. skip_control_c_loop fuel c) (record l { control_c = true }) in
    if next_char == 3 then rest else pure next_char l

unfoldable pub receive_char_after_skipping_control_c : M ℕ
receive_char_after_skipping_control_c = do
  first ← get_next_char
  λ l. skip_control_c_loop (length l.input + 1) first l

-- The `do` of `Packet_SendToGDB`
unfoldable pub send_loop : ℕ → M (Unit {0})
send_loop zero l = stuck
send_loop (suc fuel) l =
    (modify send_packet
        >> (receive_char_after_skipping_control_c >>= λ c. λ l'.
            let again = send_loop fuel l' in if c == b'+' || c == b'$' then pure tt l' else again))
      l

-- `Packet_SendToGDB`
unfoldable pub send_to_gdb : M (Unit {0})
send_to_gdb = do
  modify (λ l. complete_packet (init_packet_structure l))
  λ l. send_loop (length l.input + 1) l
