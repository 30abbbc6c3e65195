-- ===== src/Monitor/Responses.antt =====
-- core/mri.c: the responses that the handlers leave in the packet buffer, as they are sent to gdb.
use mri.Prelude.{
  ℕ, suc, ◌+◌, ◌≤◌, ◌≡◌, ◌≢◌, ◌∙◌, refl, ap, arith, List, [], ◌∷◌, ◌++◌, All, length, slice, true,
  false, ltb, Bool-cases, inl, inr,
}
use mri.Libc.{c_string, strlen}
use mri.Buffer.Core.{Buffer, bytes_left, overrun_detected, set_end_of_buffer}
use mri.Buffer.Bytes.{write_string}
use mri.Buffer.Emit.{emit, slice-overwrite, length-overwrite, write_sized_string-emit}
use mri.Packet.Link.{Link, M, done, data_view, with_data, init}
use mri.Packet.Send.{send_to_gdb}
use mri.Packet.Answers.{Answer, IsRefusal, IsEnd, answer_line, answers_line}
use mri.Packet.Resend.{copies}
use mri.Packet.Framing.{IsPrepared, frame_text}
use mri.Packet.SendLaws.{send_to_gdb_lem}
use mri.Commands.Session.{prepare_string_response, mri_error_buffer_overrun}
use mri.Monitor.State.{Machine, MriCore}
use mri.Monitor.Monad.{returned, with_session, ◌>>=◌, ◌>>◌, >>=-returned, on_packet, change_buffer}
use mri.Monitor.Console.{init_buffers, respond, send_packet_to_gdb}

-- A text has been written from the start of the data buffer on, and lies in the packet's memory.
pub record IsHolding (text : List ℕ) (l : Link) : Type 0 where
  pub data_start : l.data_buffer.start ≡ l.packet_buffer.start + 1
  pub data_current : l.data_buffer.current ≡ l.packet_buffer.start + 1 + length text
  pub fits : l.data_buffer.current ≤ l.data_buffer.last
  pub room : l.packet_buffer.start + 4 + length text ≤ l.packet_buffer.last
  pub inside : l.packet_buffer.last ≤ length l.mem
  pub held : slice l.mem (l.packet_buffer.start + 1) (length text) ≡ text

-- What `Packet_SendToGDB` is called on
abbrev closed : Link → Link
closed l = with_data l (set_end_of_buffer (data_view l))

closed-IsPrepared : (text : List ℕ) (l : Link) → IsHolding text l → IsPrepared text (closed l)
unfolding set_end_of_buffer
closed-IsPrepared text l h = elim (Bool-cases (ltb l.data_buffer.current l.data_buffer.last)) [
  | inl below ↦ record {
    data_start = rw below h.data_start;
    data_last = rw below h.data_current;
    room = h.room;
    inside = rw below h.inside;
    held = rw below h.held;
  }
  | inr full ↦ record {
    data_start = rw full h.data_start;
    data_last = rw full (grind (arith, h.data_current, h.fits));
    room = h.room;
    inside = rw full h.inside;
    held = rw full h.held;
  }
]

-- A character that ends no string
abbrev pub IsText : List ℕ → Type 0
IsText text = All (λ c. c ≢ 0) text

strlen-c_string : (text : List ℕ) → IsText text → strlen (c_string text) ≡ length text
unfolding strlen
strlen-c_string [] h = refl
strlen-c_string (c ∷ text) (h, hs) = ground (arith, strlen-c_string text hs)

on_packet-done :
    {S : Type 0} (routine : M (Unit {0})) (m : MriCore S) (l' : Link)
    → routine m.session.packet ≡ done tt l'
    → on_packet routine m ≡ returned tt (with_session m (record m.session { packet = l' }))
unfolding on_packet
on_packet-done routine m l' e = rw (e, on_packet)

module _ {S : Type 0} (machine : Machine S) where
  -- The state with a text written into the initialized packet buffer
  abbrev pub holding : List ℕ → MriCore S → MriCore S
  holding text m =
      let l = init machine.packet_start machine.packet_size m.session.packet in
      with_session m (record m.session { packet = with_data l (emit (data_view l) text) })

  -- The packet buffer holds a text of this length, in the memory.
  pub record HasRoom (text : List ℕ) (m : MriCore S) : Type 0 where
    pub sized : 4 + length text ≤ machine.packet_size
    pub in_memory : machine.packet_start + machine.packet_size ≤ length m.session.packet.mem

  pub holding-IsHolding :
      (text : List ℕ) (m : MriCore S)
      → HasRoom text m
      → IsHolding text (holding text m).session.packet
  unfolding init
  holding-IsHolding text m h = record {
    data_start = refl;
    data_current = refl;
    fits = omega (arith, h.sized);
    room = omega (arith, h.sized);
    inside =
        omega (
          arith,
          h.in_memory,
          length-overwrite m.session.packet.mem (machine.packet_start + 1) text,
        );
    held =
        slice-overwrite m.session.packet.mem (machine.packet_start + 1) text
          (omega (arith, h.sized, h.in_memory));
  }

  write_string-holding :
      (text : List ℕ) (b : Buffer)
      → IsText text
      → length text ≤ bytes_left b
      → write_string b (c_string text) ≡ emit b text
  unfolding write_string
  write_string-holding text b h k =
      rw (strlen-c_string text h) (write_sized_string-emit b text (0 ∷ []) k)

  -- gdb's answers to a packet: any number that ask for it again, and one that ends the sending
  pub record Answers (refusals : List Answer) (end : Answer) (rest : List ℕ) (m : MriCore S)
      : Type 0 where
    pub all_refuse : All IsRefusal refusals
    pub ends : IsEnd end
    pub line : m.session.packet.input ≡ answers_line refusals (answer_line end rest)

  -- A routine has sent a packet with the text, once for each answer, and left the rest of gdb's characters.
  abbrev pub Sends : List ℕ → List Answer → List ℕ → MriCore S → MriCore S → Type 0
  Sends text refusals rest m m' =
      (m'.session.packet.output
        ≡ m.session.packet.output ++ copies (suc (length refusals)) (frame_text text))
      × (m'.session.packet.input ≡ rest)
      × (m'.session.state ≡ m.session.state)

  send_held :
      (text : List ℕ) (refusals : List Answer) (end : Answer) (rest : List ℕ) (m : MriCore S)
      → IsHolding text m.session.packet
      → Answers refusals end rest m
      → (m' : MriCore S) × ((change_buffer set_end_of_buffer >> on_packet send_to_gdb) m
          ≡ returned tt m')
        × Sends text refusals rest m m'
  unfolding ◌>>=◌
  send_held text refusals end rest m h answers =
      let (l', e, output, left) =
        send_to_gdb_lem text refusals end rest (closed m.session.packet)
          (closed-IsPrepared text m.session.packet h) answers.all_refuse answers.ends
          answers.line in
      (
        with_session m (record m.session { packet = l' }),
        on_packet-done send_to_gdb
            (with_session m (record m.session { packet = closed m.session.packet })) l' e,
        (output, left, refl),
      )

  holding-not_overrun :
      (text : List ℕ) (l : Link) → IsHolding text l → overrun_detected (data_view l) ≡ false
  unfolding overrun_detected
  holding-not_overrun text l h = ground (arith, h.fits)

  pub send_packet_to_gdb-held :
      (text : List ℕ) (refusals : List Answer) (end : Answer) (rest : List ℕ) (m : MriCore S)
      → IsHolding text m.session.packet
      → Answers refusals end rest m
      → (m' : MriCore S) × (send_packet_to_gdb machine m ≡ returned tt m')
        × Sends text refusals rest m m'
  unfolding send_packet_to_gdb ◌>>=◌
  send_packet_to_gdb-held text refusals end rest m h answers =
      let (m', e, sends) = send_held text refusals end rest m h answers in
      (m', rw (holding-not_overrun text m.session.packet h) e, sends)

  pub respond-holding :
      (text : List ℕ) (m : MriCore S)
      → IsText text
      → HasRoom text m
      → respond machine (c_string text) m ≡ returned tt (holding text m)
  unfolding prepare_string_response bytes_left overrun_detected init
  respond-holding text m h k =
      let l = init machine.packet_start machine.packet_size m.session.packet in
      ap (λ b. returned tt (with_session m (record m.session { packet = with_data l b })))
        (write_string-holding text (data_view l) h (ground (arith, k.sized)))

  -- `PrepareStringResponse` with a string that the packet buffer has room for, and then `SendPacketToGdb`,
  -- whatever the buffer held before and whatever exception was set: with answers from gdb of which only the last
  -- is '+' or '$', each behind any number of control-C, they return, and have sent the string in its frame
  -- once for each answer and taken the answers.
  pub send_packet_to_gdb-respond :
      (text : List ℕ) (refusals : List Answer) (end : Answer) (rest : List ℕ) (m : MriCore S)
      → IsText text
      → HasRoom text m
      → Answers refusals end rest m
      → (m' : MriCore S) × ((respond machine (c_string text) >> send_packet_to_gdb machine) m
          ≡ returned tt m')
        × Sends text refusals rest m m'
  unfolding init
  send_packet_to_gdb-respond text refusals end rest m h k answers =
      let (m', e, sends) =
        send_packet_to_gdb-held text refusals end rest (holding text m) (holding-IsHolding text m k)
          (record { all_refuse = answers.all_refuse; ends = answers.ends; line = answers.line }) in
      (
        m',
        >>=-returned (respond machine (c_string text)) _ m (respond-holding text m h k) ∙ e,
        sends,
      )

  -- `SendPacketToGdb` on a data buffer that has been overrun: with such answers from gdb and a packet buffer of
  -- at least seven characters, it returns, and has sent the packet of the error "E04" in place of the response.
  pub send_packet_to_gdb-overrun :
      (refusals : List Answer) (end : Answer) (rest : List ℕ) (m : MriCore S)
      → overrun_detected (data_view m.session.packet) ≡ true
      → HasRoom (b'E' ∷ b'0' ∷ b'4' ∷ []) m
      → Answers refusals end rest m
      → (m' : MriCore S) × (send_packet_to_gdb machine m ≡ returned tt m')
        × Sends (b'E' ∷ b'0' ∷ b'4' ∷ []) refusals rest m m'
  unfolding send_packet_to_gdb ◌>>=◌ init prepare_string_response
  send_packet_to_gdb-overrun refusals end rest m over k answers =
      let text : List ℕ = b'E' ∷ b'0' ∷ b'4' ∷ [] in
      let (m', e, sends) =
        send_held text refusals end rest (holding text m) (holding-IsHolding text m k)
          (record { all_refuse = answers.all_refuse; ends = answers.ends; line = answers.line }) in
      let holds : respond machine (c_string text) m ≡ returned tt (holding text m) =
        respond-holding text m (λ z. omega arith, (λ z. omega arith, (λ z. omega arith, tt))) k in
      (
        m',
        rw over (
            >>=-returned
              (init_buffers machine >> change_buffer (λ b. write_string b mri_error_buffer_overrun))
              (λ u. change_buffer set_end_of_buffer >> on_packet send_to_gdb) m holds
            ∙ e),
        sends,
      )
