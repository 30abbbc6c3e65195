-- ===== src/Packet/Complete.antt =====
-- The parts of `completePacket`: what each writes, and the checksum.
use mri.Prelude.{
  ℕ, ◌+◌, ◌-◌, ◌%◌, ◌<◌, ◌≤◌, ◌≡◌, refl, sym, ap, ◌∙◌, arith, List, [], ◌∷◌, length, slice,
  slice-step, get_or, drop, lt→ltb,
}
use mri.Buffer.Core.{Buffer, bytes_left, advance, set_end_of_buffer}
use mri.Buffer.Cases.{bytes_left-eq, read_char-room}
use mri.Buffer.Bytes.{read_char, write_byte_as_hex}
use mri.Buffer.Emit.{emit, emit-emit, hex_byte, write_char-emit, write_byte_as_hex-emit}
use mri.Packet.Link.{Link, data_view, packet_view, with_packet, with_data}
use mri.Packet.Receive.{update_checksum}
use mri.Packet.Send.{
  process_loop, process_packet_data, store_packet_header_byte, store_packet_checksum,
}
use mri.Packet.Resend.{peek_at-current}

-- The checksum that a text has when its characters are added to `c`, each modulo 256.
abbrev pub checksum_from : ℕ → List ℕ → ℕ
checksum_from c [] = c
checksum_from c (x ∷ text) = checksum_from ((c + x) % 256) text

-- What reading the data buffer for the checksum leaves.
pub record Processed (text : List ℕ) (l : Link) (count : ℕ) (l' : Link) : Type 0 where
  counted : count ≡ length text
  pub same_mem : l'.mem ≡ l.mem
  pub same_packet : l'.packet_buffer ≡ l.packet_buffer
  pub same_input : l'.input ≡ l.input
  pub same_output : l'.output ≡ l.output
  pub summed : l'.calculated_checksum ≡ checksum_from l.calculated_checksum text

process_loop-text :
    (text : List ℕ) (k : ℕ) (l : Link)
    → l.data_buffer.current + length text ≡ l.data_buffer.last
    → l.data_buffer.last ≤ length l.mem
    → slice l.mem l.data_buffer.current (length text) ≡ text
    → let (count, l') = process_loop (length text) k l in
      (count ≡ k + length text) × Processed text l (length text) l'
unfolding process_loop
process_loop-text [] k l h inside held = (
  omega arith,
  record {
    counted = refl;
    same_mem = refl;
    same_packet = refl;
    same_input = refl;
    same_output = refl;
    summed = refl;
  },
)
process_loop-text (c ∷ text) k l h inside held =
    let b = data_view l in
    let i = l.data_buffer.current in
    let room : 0 < bytes_left b = omega (arith, bytes_left-eq b) in
    let parts = sym (slice-step l.mem i (length text) 0 (omega arith)) ∙ held in
    let l₁ = update_checksum c (with_data l (record b { exn = 0; current = i + 1 })) in
    let read : read_char b ≡ (c, record b { exn = 0; current = i + 1 }) =
      read_char-room b room
      ∙ ap (λ k. (k, record b { exn = 0; current = i + 1 }))
          (peek_at-current b ∙ ap (λ xs. get_or xs 0 0) parts) in
    let ih = process_loop-text text (k + 1) l₁ (omega (arith, h)) inside (ap (drop 1) parts) in
    rw (lt→ltb _ _ room, read)
      (
        omega (arith, ih.0),
        record {
          counted = refl;
          same_mem = ih.1.same_mem;
          same_packet = ih.1.same_packet;
          same_input = ih.1.same_input;
          same_output = ih.1.same_output;
          summed = ih.1.summed;
        },
      )

advance-room :
    (b : Buffer) (n : ℕ) → n ≤ bytes_left b → advance b n ≡ record b { current = b.current + n }
unfolding advance
advance-room b n h = ground arith

pub set_end-room :
    (b : Buffer) → b.current ≤ b.last → set_end_of_buffer b ≡ record b { last = b.current }
unfolding set_end_of_buffer
set_end-room b h = ground arith

pub header_lem :
    (l : Link)
    → 0 < bytes_left (packet_view l)
    → store_packet_header_byte l ≡ with_packet l (emit (packet_view l) (b'$' ∷ []))
header_lem l h = ap (with_packet l) (write_char-emit (packet_view l) b'$' h)

pub checksum_lem :
    (l : Link)
    → 3 ≤ bytes_left (packet_view l)
    → store_packet_checksum l
      ≡ with_packet l (emit (packet_view l) (b'#' ∷ hex_byte l.calculated_checksum))
checksum_lem l h =
    let b = packet_view l in
    let sum = l.calculated_checksum in
    ap (λ k. with_packet l (write_byte_as_hex k sum)) (write_char-emit b b'#' (omega arith))
    ∙ ap (with_packet l) (
        write_byte_as_hex-emit (emit b (b'#' ∷ [])) sum
          (omega (arith, bytes_left-eq b, bytes_left-eq (emit b (b'#' ∷ []))))
        ∙ emit-emit b (b'#' ∷ []) (hex_byte sum))

pub process_packet_data-text :
    (text : List ℕ) (l : Link)
    → l.data_buffer.current + length text ≡ l.data_buffer.last
    → l.data_buffer.last ≤ length l.mem
    → slice l.mem l.data_buffer.current (length text) ≡ text
    → length text ≤ bytes_left (packet_view l)
    → (l' : Link) × Processed text l (length text) l'
      × (process_packet_data l
          ≡ with_packet l'
              (record (packet_view l') { current = l'.packet_buffer.current + length text }))
unfolding process_packet_data
process_packet_data-text text l h inside held room =
    let n = length text in
    let r = process_loop n 0 l in
    let (count, done) = process_loop-text text 0 l h inside held in
    let fuel : bytes_left (data_view l) ≡ n = omega (arith, h, bytes_left-eq (data_view l)) in
    let total : r.0 ≡ n = omega (arith, count) in
    let left : bytes_left (packet_view r.1) ≡ bytes_left (packet_view l) =
      bytes_left-eq (packet_view r.1)
      ∙ ap (λ s. s.last - s.current) done.same_packet
      ∙ sym (bytes_left-eq (packet_view l)) in
    (
      r.1,
      done,
      (λ i. let q = process_loop (fuel i) 0 l in with_packet q.1 (advance (packet_view q.1) q.0))
          ∙ ap (λ k. with_packet r.1 (advance (packet_view r.1) k)) total
          ∙ ap (with_packet r.1) (advance-room (packet_view r.1) n (omega (arith, left, room))),
    )
