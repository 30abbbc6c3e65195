-- ===== src/Packet/Resend.antt =====
-- `sendPacket`, and the loop of `Packet_SendToGDB` on the answers of gdb.
use mri.Prelude.{
  ℕ, zero, suc, ◌+◌, ◌-◌, ◌<◌, ◌≤◌, ◌≡◌, ◌≢◌, refl, sym, ap, ap₂, ◌∙◌, arith, List, [], ◌∷◌, ◌++◌,
  All, length, true, false, ◌||◌, ◌==◌, ==_iff, ==_false, if◌then◌else◌, append_assoc, append-nil,
  inl, inr, slice, slice-step, get_or, if-true, if-false,
}
use mri.Buffer.Core.{Buffer, bytes_left, reset, peek_at}
use mri.Buffer.Cases.{bytes_left-eq, read_char-room}
use mri.Buffer.Bytes.{read_char}
use mri.Packet.Link.{Link, Outcome, done, pure, >>=-done, packet_view, with_packet, send_char}
use mri.Packet.Send.{
  send_buffer_loop, send_packet, receive_char_after_skipping_control_c, send_loop,
}
use mri.Packet.Answers.{Answer, IsRefusal, IsEnd, answer_line, answers_line, receive_char-answer}

-- `sendPacket`: what is in the packet buffer is sent, from its start to its end, and stays there.
record Sends (text : List ℕ) (l l' : Link) : Type 0 where
  same_mem : l'.mem ≡ l.mem
  same_start : l'.packet_buffer.start ≡ l.packet_buffer.start
  same_last : l'.packet_buffer.last ≡ l.packet_buffer.last
  same_input : l'.input ≡ l.input
  output_more : l'.output ≡ l.output ++ text

pub peek_at-current : (b : Buffer) → peek_at b 0 ≡ get_or b.mem b.current 0
unfolding peek_at
peek_at-current b = ap (λ k. get_or b.mem k 0) {x = b.current + 0} {y = b.current} (omega arith)

send_buffer_loop-Sends :
    (n : ℕ) (l : Link)
    → n ≡ bytes_left (packet_view l)
    → l.packet_buffer.current + n ≤ length l.mem
    → Sends (slice l.mem l.packet_buffer.current n) l (send_buffer_loop n l)
unfolding send_buffer_loop
send_buffer_loop-Sends zero l h fits = record {
  same_mem = refl;
  same_start = refl;
  same_last = refl;
  same_input = refl;
  output_more = sym (append-nil l.output);
}
send_buffer_loop-Sends (suc n) l h fits =
    let b = packet_view l in
    let i = l.packet_buffer.current in
    let c = get_or l.mem i 0 in
    let room : 0 < bytes_left b = omega (arith, h) in
    let l₁ = send_char c (with_packet l (record b { exn = 0; current = i + 1 })) in
    let read : read_char b ≡ (c, record b { exn = 0; current = i + 1 }) =
      read_char-room b room
      ∙ ap (λ k. (k, record b { exn = 0; current = i + 1 })) (peek_at-current b) in
    let ih =
      send_buffer_loop-Sends n l₁
        (omega (arith, h, bytes_left-eq b, bytes_left-eq (packet_view l₁))) (omega arith) in
    let nonempty : bytes_left b ≢ 0 = λ e. omega (arith, room, e) in
    rw (==_false (bytes_left b) 0 nonempty, read)
      (record {
        same_mem = ih.same_mem;
        same_start = ih.same_start;
        same_last = ih.same_last;
        same_input = ih.same_input;
        output_more =
            ih.output_more
            ∙ append_assoc l.output (c ∷ []) (slice l.mem (i + 1) n)
            ∙ ap (λ k. l.output ++ k) (sym (slice-step l.mem i n 0 (omega arith)));
      })

send_packet-Sends :
    (l : Link)
    → l.packet_buffer.start ≤ l.packet_buffer.last
    → l.packet_buffer.last ≤ length l.mem
    → Sends
        (slice l.mem l.packet_buffer.start (l.packet_buffer.last - l.packet_buffer.start))
        l
        (send_packet l)
unfolding send_packet reset
send_packet-Sends l ordered inside =
    let l₁ = with_packet l (record (packet_view l) { current = l.packet_buffer.start }) in
    let n = bytes_left (packet_view l₁) in
    let count : n ≡ l.packet_buffer.last - l.packet_buffer.start = bytes_left-eq (packet_view l₁) in
    let sent = send_buffer_loop-Sends n l₁ refl (omega (arith, count)) in
    record {
      same_mem = sent.same_mem;
      same_start = sent.same_start;
      same_last = sent.same_last;
      same_input = sent.same_input;
      output_more =
          sent.output_more ∙ ap (λ k. l.output ++ slice l.mem l.packet_buffer.start k) count;
    }

-- So many copies of a text.
abbrev pub copies : ℕ → List ℕ → List ℕ
copies zero text = []
copies (suc n) text = text ++ copies n text

-- What is between the start and the end of the packet buffer.
abbrev pub packet_text : Link → List ℕ
packet_text l = slice l.mem l.packet_buffer.start (l.packet_buffer.last - l.packet_buffer.start)

text_same :
    (l l' : Link)
    → l'.mem ≡ l.mem
    → l'.packet_buffer.start ≡ l.packet_buffer.start
    → l'.packet_buffer.last ≡ l.packet_buffer.last
    → packet_text l' ≡ packet_text l
text_same l l' mem start last = λ i. slice (mem i) (start i) (last i - start i)

-- The test that ends the loop.
end_test : (a : Answer) → IsEnd a → (a.char == b'+' || a.char == b'$') ≡ true
end_test a (inl plus) = rw ((==_iff _ _).1 plus)
end_test a (inr start) = rw ((==_iff _ _).1 start) (ground arith)

refusal_test : (a : Answer) → IsRefusal a → (a.char == b'+' || a.char == b'$') ≡ false
refusal_test a ok = rw (==_false _ _ ok.no_plus, ==_false _ _ ok.no_start)

end-no_interrupt : (a : Answer) → IsEnd a → a.char ≢ 3
end-no_interrupt a (inl plus) e = omega arith
end-no_interrupt a (inr start) e = omega arith

-- What the loop does with the answer to one copy.
abbrev decide : ℕ → ℕ → Link → Outcome (Unit {0})
decide fuel c l' =
    let again = send_loop fuel l' in if c == b'+' || c == b'$' then pure tt l' else again

pub send_loop-answers :
    (refusals : List Answer) (end : Answer) (rest : List ℕ) (fuel : ℕ) (l : Link)
    → All IsRefusal refusals
    → IsEnd end
    → l.packet_buffer.start ≤ l.packet_buffer.last
    → l.packet_buffer.last ≤ length l.mem
    → l.input ≡ answers_line refusals (answer_line end rest)
    → length refusals < fuel
    → (l' : Link) × (send_loop fuel l ≡ done tt l')
      × (l'.output ≡ l.output ++ copies (suc (length refusals)) (packet_text l))
      × (l'.input ≡ rest)
unfolding send_loop
send_loop-answers refusals end rest zero l oks ok ordered inside h more = absurd (omega arith)
send_loop-answers [] end rest (suc fuel) l oks ok ordered inside h more =
    let sent = send_packet-Sends l ordered inside in
    let (l₁, e, left, same) =
      receive_char-answer end rest (send_packet l) (end-no_interrupt end ok)
        (sent.same_input ∙ h) in
    (
      l₁,
      >>=-done receive_char_after_skipping_control_c (decide fuel) (send_packet l) e
          ∙ if-true _ _ (end_test end ok),
      same.same_output
          ∙ sent.output_more
          ∙ ap (λ k. l.output ++ k) (sym (append-nil (packet_text l))),
      left,
    )
send_loop-answers (a ∷ refusals) end rest (suc fuel) l oks ok ordered inside h more =
    let chars = answers_line refusals (answer_line end rest) in
    let sent = send_packet-Sends l ordered inside in
    let (l₁, e, left, same) =
      receive_char-answer a chars (send_packet l) oks.0.no_interrupt (sent.same_input ∙ h) in
    let mem = same.same_mem ∙ sent.same_mem in
    let start = ap (λ s. s.start) same.same_packet ∙ sent.same_start in
    let last = ap (λ s. s.last) same.same_packet ∙ sent.same_last in
    let (l', e', output, left') =
      send_loop-answers refusals end rest fuel l₁ oks.1 ok (omega (arith, start, last))
        (omega (arith, last, ap length mem)) left (omega arith) in
    (
      l',
      >>=-done receive_char_after_skipping_control_c (decide fuel) (send_packet l) e
          ∙ if-false _ _ (refusal_test a oks.0)
          ∙ e',
      output
          ∙ ap₂ (λ o t. o ++ copies (suc (length refusals)) t) (same.same_output ∙ sent.output_more)
              (text_same l l₁ mem start last)
          ∙ append_assoc l.output (packet_text l) (copies (suc (length refusals)) (packet_text l)),
      left',
    )
