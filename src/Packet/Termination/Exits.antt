-- ===== src/Packet/Termination/Exits.antt =====
-- The loops of core/packet.c over a buffer, `processPacketData` and `Platform_CommSendBuffer`.
use mri.Prelude.{ℕ, zero, suc, ◌+◌, ◌<◌, ◌≤◌, ◌≡◌, ◌==◌, arith, ltb, Bool-cases, inl, inr}
use mri.Buffer.Core.{
  Buffer, advance, bytes_left, overrun_detected, reset, throw_and_flag_if_left_lt,
}
use mri.Buffer.Bytes.{read_char}
use mri.Packet.Link.{Link, data_view, packet_view, with_data, with_packet, send_char}
use mri.Packet.Receive.{update_checksum}
use mri.Packet.Send.{process_loop, process_packet_data, send_buffer_loop, send_packet}

read_char-takes : (b : Buffer) → 0 < bytes_left b → bytes_left ((read_char b).1) < bytes_left b
unfolding read_char throw_and_flag_if_left_lt bytes_left overrun_detected
read_char-takes b h = ground arith

process_loop-ends :
    (fuel n : ℕ) (l : Link)
    → bytes_left (data_view l) ≤ fuel
    → bytes_left (data_view ((process_loop fuel n l).1)) ≡ 0
unfolding process_loop
process_loop-ends zero n l h = omega arith
process_loop-ends (suc fuel) n l h =
    let (c, b) = read_char (data_view l) in
    elim (Bool-cases (ltb 0 (bytes_left (data_view l)))) [
      | inl more ↦
          let some_left : 0 < bytes_left (data_view l) = ground (arith, more) in
          rw more (
            process_loop-ends fuel (n + 1) (update_checksum c (with_data l b))
              (omega (arith, h, read_char-takes (data_view l) some_left)))
      | inr done ↦ rw done (ground (arith, done))
    ]

send_buffer_loop-ends :
    (fuel : ℕ) (l : Link)
    → bytes_left (packet_view l) ≤ fuel
    → bytes_left (packet_view (send_buffer_loop fuel l)) ≡ 0
unfolding send_buffer_loop
send_buffer_loop-ends zero l h = omega arith
send_buffer_loop-ends (suc fuel) l h =
    let (c, b) = read_char (packet_view l) in
    elim (Bool-cases (bytes_left (packet_view l) == 0)) [
      | inl done ↦ rw done (ground (arith, done))
      | inr more ↦
          let some_left : 0 < bytes_left (packet_view l) = ground (arith, more) in
          rw more (
            send_buffer_loop-ends fuel (send_char c (with_packet l b))
              (omega (arith, h, read_char-takes (packet_view l) some_left)))
    ]

-- `processPacketData` ends with nothing left to read,
pub process_packet_data-ends : (l : Link) → bytes_left (data_view (process_packet_data l)) ≡ 0
unfolding process_packet_data advance process_loop
process_packet_data-ends l = process_loop-ends (bytes_left (data_view l)) 0 l (omega arith)

-- and so does `sendPacket`.
pub send_packet-ends : (l : Link) → bytes_left (packet_view (send_packet l)) ≡ 0
unfolding send_packet
send_packet-ends l =
    let l' = with_packet l (reset (packet_view l)) in
    send_buffer_loop-ends (bytes_left (packet_view l')) l' (omega arith)
