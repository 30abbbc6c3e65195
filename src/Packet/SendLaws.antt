-- ===== src/Packet/SendLaws.antt =====
-- `Packet_SendToGDB`, whole.
use mri.Prelude.{
  ℕ, zero, suc, ◌+◌, ◌<◌, ◌≡◌, refl, ap, ap₂, ◌∙◌, arith, List, [], ◌∷◌, ◌++◌, All, length,
  replicate,
}
use mri.Buffer.Core.{reset}
use mri.Packet.Link.{Link, done, init_packet_structure}
use mri.Packet.Send.{complete_packet, send_to_gdb}
use mri.Packet.Answers.{Answer, IsRefusal, IsEnd, answer_line, answers_line, interrupts-length}
use mri.Packet.Resend.{copies, send_loop-answers}
use mri.Packet.Framing.{IsPrepared, frame_text, complete_packet-Completed}

refusals-length :
    (refusals : List Answer) (end : Answer) (rest : List ℕ)
    → length refusals < length (answers_line refusals (answer_line end rest))
refusals-length [] end rest = omega (arith, interrupts-length end.interrupts end.char rest)
refusals-length (a ∷ refusals) end rest = omega (
  arith,
  refusals-length refusals end rest,
  answer-length a (answers_line refusals (answer_line end rest)),
)
  where
    answer-length : (a : Answer) (rest : List ℕ) → length rest < length (answer_line a rest)
    answer-length a rest = go a.interrupts
      where
        go : (n : ℕ) → length rest < length (replicate n 3 ++ (a.char ∷ rest))
        go zero = omega arith
        go (suc n) = omega (arith, go n)

-- With a text ready in the data buffer, and answers from gdb of which all but the last are neither
-- '+' nor '$' and the last is one of them, each behind any number of control-C characters,
-- `Packet_SendToGDB` returns behind the last answer; it has sent the text in its frame, with '$' in
-- front and '#' and the two digits of its checksum behind, once for each answer.
pub send_to_gdb_lem :
    (text : List ℕ) (refusals : List Answer) (end : Answer) (rest : List ℕ) (l : Link)
    → IsPrepared text l
    → All IsRefusal refusals
    → IsEnd end
    → l.input ≡ answers_line refusals (answer_line end rest)
    → (l' : Link) × (send_to_gdb l ≡ done tt l')
      × (l'.output ≡ l.output ++ copies (suc (length refusals)) (frame_text text))
      × (l'.input ≡ rest)
unfolding send_to_gdb init_packet_structure reset
send_to_gdb_lem text refusals end rest l p oks ok h =
    let l₁ = init_packet_structure l in
    let prepared : IsPrepared text l₁ = record {
      data_start = p.data_start;
      data_last = p.data_last;
      room = p.room;
      inside = p.inside;
      held = p.held;
    } in
    let whole = complete_packet-Completed text l₁ prepared refl in
    let l₀ = complete_packet l₁ in
    let line = whole.same_input ∙ h in
    let (l', e, output, left) =
      send_loop-answers refusals end rest (length l₀.input + 1) l₀ oks ok whole.ordered whole.inside
        line (omega (arith, ap length line, refusals-length refusals end rest)) in
    (
      l',
      e,
      output ∙ ap₂ (λ o t. o ++ copies (suc (length refusals)) t) whole.same_output whole.framed,
      left,
    )
