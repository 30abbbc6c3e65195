-- ===== src/Packet/Termination/Sending.antt =====
-- core/packet.c: `Packet_SendToGDB`, its loops and their fuel.
use mri.Prelude.{
  ℕ, zero, suc, ◌+◌, ◌<◌, ◌≤◌, ◌≡◌, refl, arith, length, Bool, true, false, ◌==◌, ◌||◌, ltb,
  if◌then◌else◌,
}
use mri.Buffer.Core.{bytes_left, reset}
use mri.Buffer.Bytes.{read_char}
use mri.Packet.Link.{
  Link, pure, get_next_char, send_char, init_packet_structure, with_data, with_packet, packet_view,
  data_view,
}
use mri.Packet.Receive.{update_checksum, clear_checksum}
use mri.Packet.Send.{
  skip_control_c_loop, receive_char_after_skipping_control_c, send_loop, send_to_gdb, send_packet,
  send_buffer_loop, complete_packet, process_loop, process_packet_data, store_packet_header_byte,
}
use mri.Packet.Termination.Exits.{process_packet_data-ends, send_packet-ends}
use mri.Packet.Termination.{Ends, Ends-bind, Ends-if, get_next_char-Ends}

-- Sending leaves what gdb sends for later.
send_buffer_loop-input :
    (fuel : ℕ) (l : Link) → length (send_buffer_loop fuel l).input ≡ length l.input
unfolding send_buffer_loop
send_buffer_loop-input zero l = refl
send_buffer_loop-input (suc fuel) l =
    let (c, b) = read_char (packet_view l) in
    if-≡ (bytes_left (packet_view l) == 0) l (send_buffer_loop fuel (send_char c (with_packet l b)))
      refl (send_buffer_loop-input fuel (send_char c (with_packet l b)))
  where
    if-≡ :
        (t : Bool) (a b : Link) {n : ℕ}
        → length a.input ≡ n
        → length b.input ≡ n
        → length (if◌then◌else◌ {A = Link} t a b).input ≡ n
    if-≡ true a b h k = h
    if-≡ false a b h k = k

send_packet-input : (l : Link) → length (send_packet l).input ≡ length l.input
unfolding send_packet
send_packet-input l =
    let l' = with_packet l (reset (packet_view l)) in
    send_buffer_loop-input (bytes_left (packet_view l')) l'

skip_control_c_loop-Ends :
    (fuel c n : ℕ) (l : Link)
    → length l.input < fuel
    → length l.input < n
    → Ends n (skip_control_c_loop fuel c l)
unfolding skip_control_c_loop
skip_control_c_loop-Ends zero c n l h k = absurd (omega arith)
skip_control_c_loop-Ends (suc fuel) c n l h k =
    Ends-if (c == 3) n _ _
      (Ends-bind get_next_char _ (length l.input) n (record l { control_c = true })
        (get_next_char-Ends (record l { control_c = true }))
        (λ d l' less. skip_control_c_loop-Ends fuel d n l' (omega arith) (omega arith)))
      k

receive_char_after_skipping_control_c-Ends :
    (l : Link) → Ends (length l.input) (receive_char_after_skipping_control_c l)
unfolding receive_char_after_skipping_control_c
receive_char_after_skipping_control_c-Ends l =
    Ends-bind get_next_char _ (length l.input) (length l.input) l (get_next_char-Ends l)
      (λ c l' less.
        skip_control_c_loop-Ends (length l'.input + 1) c (length l.input) l' (omega arith) less)

send_loop-Ends :
    (fuel n : ℕ) (l : Link) → length l.input < fuel → length l.input ≤ n → Ends n (send_loop fuel l)
unfolding send_loop
send_loop-Ends zero n l h k = absurd (omega arith)
send_loop-Ends (suc fuel) n l h k =
    Ends-bind receive_char_after_skipping_control_c _ (length (send_packet l).input) n
      (send_packet l) (receive_char_after_skipping_control_c-Ends (send_packet l))
      (λ c l' less.
        let fewer : length l'.input < length l.input = omega (arith, send_packet-input l) in
        Ends-if (c == b'+' || c == b'$') n (pure tt l') (send_loop fuel l') (omega arith)
          (send_loop-Ends fuel n l' (omega arith) (omega arith)))

process_loop-input :
    (fuel n : ℕ) (l : Link) → length ((process_loop fuel n l).1).input ≡ length l.input
unfolding process_loop
process_loop-input zero n l = refl
process_loop-input (suc fuel) n l =
    let (c, b) = read_char (data_view l) in
    go (ltb 0 (bytes_left (data_view l))) _
      (process_loop-input fuel (n + 1) (update_checksum c (with_data l b)))
  where
    go :
        (t : Bool) (q : ℕ × Link)
        → length (q.1).input ≡ length l.input
        → length ((if◌then◌else◌ {A = ℕ × Link} t q (n, l)).1).input ≡ length l.input
    go true q h = h
    go false q h = refl

complete_packet-input :
    (l : Link) → length (complete_packet (init_packet_structure l)).input ≡ length l.input
unfolding complete_packet process_packet_data init_packet_structure
complete_packet-input l =
    let l₀ = init_packet_structure l in
    let l₁ = store_packet_header_byte (clear_checksum (with_data l₀ (reset (data_view l₀)))) in
    process_loop-input (bytes_left (data_view l₁)) 0 l₁

-- `Packet_SendToGDB` in any state of the packet, on any answers from gdb: it returns, or waits for an
-- answer that gdb does not send. When it returns, it has taken an answer.
pub send_to_gdb-Ends : (l : Link) → Ends (length l.input) (send_to_gdb l)
unfolding send_to_gdb
send_to_gdb-Ends l =
    let l' = complete_packet (init_packet_structure l) in
    let same = complete_packet-input l in
    send_loop-Ends (length l'.input + 1) (length l.input) l' (omega arith) (omega arith)

-- `Packet_SendToGDB` in any state of the packet, on any answers from gdb: it returns, with at least one of gdb's
-- characters taken, or waits for gdb, and the loops over answers do not use their fuel up. The two loops over a
-- buffer, in every state, end in the way of the C loops, with nothing left to read.
pub send_to_gdb-LoopsEnd :
    (l sent summed : Link)
    → Ends (length l.input) (send_to_gdb l)
      × (bytes_left (packet_view (send_packet sent)) ≡ 0)
      × (bytes_left (data_view (process_packet_data summed)) ≡ 0)
send_to_gdb-LoopsEnd l sent summed =
    (send_to_gdb-Ends l, send_packet-ends sent, process_packet_data-ends summed)
