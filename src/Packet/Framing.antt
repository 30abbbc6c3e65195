-- ===== src/Packet/Framing.antt =====
-- `completePacket`: the frame that is put round the text in the data buffer.
use mri.Prelude.{
  ℕ, ◌+◌, ◌-◌, ◌<◌, ◌≤◌, ◌≡◌, sym, ap, ap₂, ◌∙◌, arith, List, [], ◌∷◌, ◌++◌, length, slice,
  slice-append_slice, slice-set_below, subst,
}
use mri.Buffer.Core.{reset, set_end_of_buffer}
use mri.Buffer.Cases.{bytes_left-eq}
use mri.Buffer.Emit.{
  overwrite, length-overwrite, slice-overwrite, slice-overwrite_below, emit, hex_byte,
}
use mri.Packet.Link.{Link, data_view, packet_view, with_packet, with_data}
use mri.Packet.Receive.{clear_checksum}
use mri.Packet.Send.{process_packet_data, store_packet_checksum, complete_packet}
use mri.Packet.Resend.{packet_text}
use mri.Packet.Complete.{
  checksum_from, set_end-room, header_lem, checksum_lem, process_packet_data-text,
}

overwrite_one :
    (mem : List ℕ) (s d i n : ℕ) → s < i → slice (overwrite mem s (d ∷ [])) i n ≡ slice mem i n
unfolding overwrite
overwrite_one mem s d i n h = slice-set_below mem i n s d h

-- A text between what is stored in front of it and behind it.
framed_lem :
    (mem : List ℕ) (s d : ℕ) (text tail : List ℕ)
    → s + 1 + length text + length tail ≤ length mem
    → slice mem (s + 1) (length text) ≡ text
    → slice
        (overwrite (overwrite mem s (d ∷ [])) (s + 1 + length text) tail)
        s
        (1 + (length text + length tail))
      ≡ d ∷ text ++ tail
framed_lem mem s d text tail fits held =
    let n = length text in
    let m = length tail in
    let head = overwrite mem s (d ∷ []) in
    let out = overwrite head (s + 1 + n) tail in
    let size : length out ≡ length mem =
      length-overwrite head (s + 1 + n) tail ∙ length-overwrite mem s (d ∷ []) in
    sym (slice-append_slice out s 1 (n + m) (omega (arith, size)))
    ∙ ap₂ ◌++◌
        (slice-overwrite_below head (s + 1 + n) tail s 1 (omega arith)
          ∙ slice-overwrite mem s (d ∷ []) (omega arith))
        (sym (slice-append_slice out (s + 1) n m (omega (arith, size)))
          ∙ ap₂ ◌++◌
              (slice-overwrite_below head (s + 1 + n) tail (s + 1) n (omega arith)
                ∙ overwrite_one mem s d (s + 1) n (omega arith)
                ∙ held)
              (slice-overwrite head (s + 1 + n) tail
                (omega (arith, length-overwrite mem s (d ∷ [])))))

-- The data buffer holds a text that is ready to be sent: it lies in the packet's buffer, which has room
-- for one character in front of it and three behind it.
pub record IsPrepared (text : List ℕ) (l : Link) : Type 0 where
  pub data_start : l.data_buffer.start ≡ l.packet_buffer.start + 1
  pub data_last : l.data_buffer.last ≡ l.packet_buffer.start + 1 + length text
  pub room : l.packet_buffer.start + 4 + length text ≤ l.packet_buffer.last
  pub inside : l.packet_buffer.last ≤ length l.mem
  pub held : slice l.mem (l.packet_buffer.start + 1) (length text) ≡ text

-- The text with its '$' in front, and '#' and the digits of its checksum behind it.
abbrev pub frame_text : List ℕ → List ℕ
frame_text text = b'$' ∷ text ++ (b'#' ∷ hex_byte (checksum_from 0 text))

pub record Completed (text : List ℕ) (l l' : Link) : Type 0 where
  pub ordered : l'.packet_buffer.start ≤ l'.packet_buffer.last
  pub inside : l'.packet_buffer.last ≤ length l'.mem
  pub framed : packet_text l' ≡ frame_text text
  pub same_input : l'.input ≡ l.input
  pub same_output : l'.output ≡ l.output

-- The end of `completePacket`, behind the text.
finish_lem :
    (text : List ℕ) (l l₃ : Link)
    → IsPrepared text l
    → l₃.mem ≡ overwrite l.mem l.packet_buffer.start (b'$' ∷ [])
    → l₃.packet_buffer.start ≡ l.packet_buffer.start
    → l₃.packet_buffer.last ≡ l.packet_buffer.last
    → l₃.packet_buffer.current ≡ l.packet_buffer.start + 1 + length text
    → l₃.calculated_checksum ≡ checksum_from 0 text
    → l₃.input ≡ l.input
    → l₃.output ≡ l.output
    → Completed text l (
        with_packet
          (store_packet_checksum l₃)
          (set_end_of_buffer (packet_view (store_packet_checksum l₃))))
finish_lem text l l₃ p mem start last current sum input output =
    let tail = b'#' ∷ hex_byte l₃.calculated_checksum in
    let s = l.packet_buffer.start in
    let b = emit (packet_view l₃) tail in
    let l₄ = with_packet l₃ b in
    let wrote =
      checksum_lem l₃ (omega (arith, last, current, p.room, bytes_left-eq (packet_view l₃))) in
    let ends = set_end-room b (omega (arith, last, current, p.room)) in
    let size : length b.mem ≡ length l.mem =
      length-overwrite l₃.mem l₃.packet_buffer.current tail
      ∙ ap length mem
      ∙ length-overwrite l.mem s (b'$' ∷ []) in
    let count : l₃.packet_buffer.current + 3 - l₃.packet_buffer.start ≡ 1 + (length text + 3) =
      omega (arith, start, current) in
    let moved : packet_text (with_packet l₄ (record b { last = b.current }))
        ≡ slice
            (overwrite (overwrite l.mem s (b'$' ∷ [])) (s + 1 + length text)
              (b'#' ∷ hex_byte (checksum_from 0 text)))
            s (1 + (length text + 3)) =
      λ i. slice (overwrite (mem i) (current i) (b'#' ∷ hex_byte (sum i))) (start i) (count i) in
    subst (λ k. Completed text l (with_packet k (set_end_of_buffer (packet_view k)))) (sym wrote)
      (subst (λ k. Completed text l (with_packet l₄ k)) (sym ends)
        (record {
          ordered = omega (arith, start, current);
          inside = omega (arith, size, current, p.room, p.inside);
          framed =
              moved
              ∙ framed_lem l.mem s b'$' text (b'#' ∷ hex_byte (checksum_from 0 text))
                  (omega (arith, p.room, p.inside)) p.held;
          same_input = input;
          same_output = output;
        }))

-- `completePacket` lays the frame round the text, up to which the packet buffer then reaches.
pub complete_packet-Completed :
    (text : List ℕ) (l : Link)
    → IsPrepared text l
    → l.packet_buffer.current ≡ l.packet_buffer.start
    → Completed text l (complete_packet l)
unfolding complete_packet reset
complete_packet-Completed text l p at_start =
    let l₁ = clear_checksum (with_data l (reset (data_view l))) in
    let l₂ = with_packet l₁ (emit (packet_view l₁) (b'$' ∷ [])) in
    let head = header_lem l₁ (omega (arith, p.room, at_start, bytes_left-eq (packet_view l₁))) in
    let mem : l₂.mem ≡ overwrite l.mem l.packet_buffer.start (b'$' ∷ []) =
      ap (λ k. overwrite l.mem k (b'$' ∷ [])) at_start in
    let size : length l₂.mem ≡ length l.mem =
      length-overwrite l.mem l.packet_buffer.current (b'$' ∷ []) in
    let held : slice l₂.mem l.data_buffer.start (length text) ≡ text =
      (λ i. slice (mem i) (p.data_start i) (length text))
      ∙ overwrite_one l.mem l.packet_buffer.start b'$' (l.packet_buffer.start + 1) (length text)
          (omega arith)
      ∙ p.held in
    let (l', done, e) =
      process_packet_data-text text l₂ (omega (arith, p.data_start, p.data_last))
        (omega (arith, p.data_last, p.room, p.inside, size)) held
        (omega (arith, at_start, p.room, bytes_left-eq (packet_view l₂))) in
    let l₃ =
      with_packet l'
        (record (packet_view l') { current = l'.packet_buffer.current + length text }) in
    subst
      (λ k. Completed text l (
        with_packet (store_packet_checksum k)
          (set_end_of_buffer (packet_view (store_packet_checksum k)))))
      (sym (ap process_packet_data head ∙ e))
      (finish_lem text l l₃ p (done.same_mem ∙ mem) (ap (λ s. s.start) done.same_packet)
        (ap (λ s. s.last) done.same_packet)
        (omega (arith, at_start, ap (λ s. s.current) done.same_packet)) done.summed done.same_input
        done.same_output)
