-- ===== src/Monitor/Window.antt =====
-- core/cmd_query.c: the response to "qXfer", for a request of less than the packet buffer holds, and for one of all
-- of it.
use mri.Prelude.{
  ltb, Bool-cases, inl, inr, ap₂, ℕ, zero, suc, ◌+◌, ◌-◌, ◌%◌, ◌^◌, ◌<◌, ◌≤◌, ◌≡◌, inl, inr, ◌∙◌,
  sym, ap, refl, arith, List, [], ◌∷◌, ◌++◌, length, take, drop, length-take, length-drop,
  if◌then◌else◌, true,
}
use mri.TryCatch.{set_exception_code}
use mri.Buffer.Core.{Buffer, bytes_left, overrun_detected, throw_and_flag_if_left_lt}
use mri.Buffer.Room.{write_char-takes}
use mri.Buffer.Bytes.{write_char, write_sized_string}
use mri.Buffer.Emit.{emit, emit-emit, write_char-emit, write_sized_string-emit}
use mri.Packet.Link.{data_view, init}
use mri.Commands.Session.{init_packet_buffers}
use mri.Monitor.State.{Machine, MriCore}
use mri.Monitor.Monad.{returned, with_session, >>=-returned, ◌>>=◌}
use mri.Packet.Link.{with_data}
use mri.Packet.Answers.{Answer}
use mri.Monitor.Console.{send_packet_to_gdb}
use mri.Monitor.Responses.{Answers, Sends, holding, holding-IsHolding, send_packet_to_gdb-held}
use mri.Monitor.Query.Transfer.{
  AnnexOffsetLength, prefix_and_length, handle_query_transfer_read_command,
}

take-drop : (n : ℕ) (xs : List ℕ) → take n xs ++ drop n xs ≡ xs
take-drop zero xs = refl
take-drop (suc n) [] = refl
take-drop (suc n) (x ∷ xs) = ap (λ ys. x ∷ ys) (take-drop n xs)

-- A piece is no longer than what was asked for, and lies in the annex.
prefix_and_length-bounds :
    (size offset piece room : ℕ)
    → ((prefix_and_length size offset piece room).1 ≤ piece)
      × ((prefix_and_length size offset piece room).1 ≤ size - offset)
unfolding prefix_and_length
prefix_and_length-bounds size offset piece room = (ground arith, ground arith)

prefix_and_length-whole :
    (size offset piece room : ℕ)
    → 0 < room
    → room ≤ piece
    → offset + room ≤ size
    → (prefix_and_length size offset piece room).1 ≡ room
unfolding prefix_and_length
prefix_and_length-whole size offset piece room h k l = ground arith

write_too_long :
    (b : Buffer) (text : List ℕ) (n : ℕ)
    → bytes_left b < n
    → overrun_detected (write_sized_string b text n) ≡ true
unfolding write_sized_string throw_and_flag_if_left_lt bytes_left overrun_detected
    set_exception_code
write_too_long b text n h = ground arith

write_piece :
    (b : Buffer) (first : ℕ) (text : List ℕ) (n : ℕ)
    → n ≤ length text
    → n < bytes_left b
    → write_sized_string (write_char b first) text n ≡ emit b (first ∷ take n text)
unfolding bytes_left overrun_detected
write_piece b first text n fits h =
    let piece = take n text in
    let b₁ = emit b (first ∷ []) in
    let same : n ≡ length piece = omega (arith, length-take n text) in
    ap (λ b'. write_sized_string b' text n) (write_char-emit b first (omega arith))
    ∙ ap (λ s. write_sized_string b₁ s n) (sym (take-drop n text))
    ∙ ap (λ k. write_sized_string b₁ (piece ++ drop n text) k) {x = n} {y = length piece} same
    ∙ write_sized_string-emit b₁ piece (drop n text) (ground arith)
    ∙ emit-emit b (first ∷ []) piece

-- The piece of an annex that gdb's protocol has for a request: the rest, marked as the last, if it is shorter than
-- what is asked for, and otherwise as much as is asked for.
unfoldable pub piece_of : List ℕ → ℕ → ℕ → List ℕ
piece_of annex offset n =
    let rest = drop offset annex in if ltb (length rest) n then b'l' ∷ rest else b'm' ∷ take n rest

length-piece_of : (annex : List ℕ) (offset n : ℕ) → length (piece_of annex offset n) ≤ n + 1
unfolding piece_of
length-piece_of annex offset n = ground (arith, length-take n (drop offset annex))

prefix_and_length-last :
    (size offset n room : ℕ)
    → size - offset < n
    → n < room
    → ((prefix_and_length size offset n room).0 ≡ b'l')
      × ((prefix_and_length size offset n room).1 ≡ size - offset)
unfolding prefix_and_length
prefix_and_length-last size offset n room h k = (ground arith, ground arith)

prefix_and_length-more :
    (size offset n room : ℕ)
    → 0 < n
    → n ≤ size - offset
    → n < room
    → ((prefix_and_length size offset n room).0 ≡ b'm')
      × ((prefix_and_length size offset n room).1 ≡ n)
unfolding prefix_and_length
prefix_and_length-more size offset n room h k l = (ground arith, ground arith)

take-length : (xs : List ℕ) → take (length xs) xs ≡ xs
take-length [] = refl
take-length (x ∷ xs) = ap (λ ys. x ∷ ys) (take-length xs)

prefix_and_length-piece_of :
    (annex : List ℕ) (offset n room : ℕ)
    → 0 < n
    → n < room
    → (prefix_and_length (length annex) offset n room).0
        ∷ take (prefix_and_length (length annex) offset n room).1 (drop offset annex)
      ≡ piece_of annex offset n
unfolding piece_of
prefix_and_length-piece_of annex offset n room h k =
    let rest = drop offset annex in
    let size : length rest ≡ length annex - offset = length-drop offset annex in
    elim (Bool-cases (ltb (length rest) n)) [
      | inl short ↦
          let less : length annex - offset < n = ground (arith, short, size) in
          let (first, all) = prefix_and_length-last (length annex) offset n room less k in
          rw short (
            ap₂ (λ c i. c ∷ take i rest) first (all ∙ sym size)
            ∙ ap (λ ys. b'l' ∷ ys) (take-length rest))
      | inr long ↦
          let enough : n ≤ length annex - offset = ground (arith, long, size) in
          let (first, whole) = prefix_and_length-more (length annex) offset n room h enough k in
          rw long (ap₂ (λ c i. c ∷ take i rest) first whole)
    ]

module _ {S : Type 0} (machine : Machine S) where
  -- The buffer into which a response is written
  abbrev pub empty_buffer : MriCore S → Buffer
  empty_buffer m =
      data_view ((init_packet_buffers machine.packet_start machine.packet_size m.session).packet)

  empty_buffer-room : (m : MriCore S) → bytes_left (empty_buffer m) ≡ machine.packet_size - 4
  unfolding init bytes_left overrun_detected
  empty_buffer-room m = ground arith

  handle_query_transfer_read_command-holding :
      (annex : List ℕ) (arguments : AnnexOffsetLength) (m : MriCore S)
      → machine.packet_size < 2 ^ 32
      → 0 < arguments.length
      → arguments.length < machine.packet_size - 4
      → handle_query_transfer_read_command machine annex (length annex) arguments m
        ≡ returned tt (holding machine (piece_of annex arguments.offset arguments.length) m)
  unfolding handle_query_transfer_read_command ◌>>=◌
  handle_query_transfer_read_command-holding annex arguments m small some asked =
      let b = empty_buffer m in
      let l = init machine.packet_start machine.packet_size m.session.packet in
      let room = machine.packet_size - 4 in
      let (first, n) = prefix_and_length (length annex) arguments.offset arguments.length room in
      let bounds = prefix_and_length-bounds (length annex) arguments.offset arguments.length room in
      ap (λ b'. returned tt (with_session m (record m.session { packet = with_data l b' })))
        (ap
            (λ r.
              write_sized_string
                (write_char b
                  (prefix_and_length (length annex) arguments.offset arguments.length r).0)
                (drop arguments.offset annex)
                (prefix_and_length (length annex) arguments.offset arguments.length r).1)
            {x = bytes_left b % 2 ^ 32} {y = room} (omega (arith, empty_buffer-room m))
          ∙ write_piece b first (drop arguments.offset annex) n
              (omega (arith, length-drop arguments.offset annex, bounds.1))
              (omega (arith, empty_buffer-room m, bounds.0))
          ∙ ap (emit b)
              (prefix_and_length-piece_of annex arguments.offset arguments.length room some asked))

  -- `handleQueryTransferReadCommand` and then `SendPacketToGdb`, on a request for at least one character and for
  -- less than the packet buffer holds, with that buffer in the memory and below 2 ^ 32 characters: with
  -- answers from gdb of which only the last is '+' or '$', they return, and have sent, once for each answer, 'l'
  -- and the rest of the annex if that is shorter than what is asked for, and otherwise 'm' and as many
  -- characters of it as are asked for.
  pub send_packet_to_gdb-piece :
      (annex : List ℕ) (arguments : AnnexOffsetLength) (refusals : List Answer) (end : Answer)
      (rest : List ℕ) (m : MriCore S)
      → machine.packet_size < 2 ^ 32
      → 0 < arguments.length
      → arguments.length < machine.packet_size - 4
      → machine.packet_start + machine.packet_size ≤ length m.session.packet.mem
      → Answers machine refusals end rest m
      → (m' : MriCore S) × ((handle_query_transfer_read_command machine annex
                (length annex)
                arguments
              >>= λ u. send_packet_to_gdb machine)
            m
          ≡ returned tt m')
        × Sends machine (piece_of annex arguments.offset arguments.length) refusals rest m m'
  unfolding init
  send_packet_to_gdb-piece annex arguments refusals end rest m small some asked inside answers =
      let text = piece_of annex arguments.offset arguments.length in
      let (m', e, sends) =
        send_packet_to_gdb-held machine text refusals end rest (holding machine text m)
          (holding-IsHolding machine text m (record {
            sized = omega (arith, length-piece_of annex arguments.offset arguments.length);
            in_memory = inside;
          }))
          (record { all_refuse = answers.all_refuse; ends = answers.ends; line = answers.line }) in
      (
        m',
        >>=-returned (handle_query_transfer_read_command machine annex (length annex) arguments)
              (λ u. send_packet_to_gdb machine) m
              (handle_query_transfer_read_command-holding annex arguments m small some asked)
            ∙ e,
        sends,
      )

  -- A request for all that the buffer holds, of an annex that goes on as far, overruns the buffer: the prefix has
  -- no place.
  pub handle_query_transfer_read_command-overruns :
      (annex : List ℕ) (arguments : AnnexOffsetLength) (m : MriCore S)
      → 5 ≤ machine.packet_size
      → machine.packet_size < 2 ^ 32
      → machine.packet_size - 4 ≤ arguments.length
      → arguments.offset + (machine.packet_size - 4) ≤ length annex
      → (m' : MriCore S) × (handle_query_transfer_read_command machine annex
            (length annex)
            arguments
            m
          ≡ returned tt m')
        × (overrun_detected (data_view m'.session.packet) ≡ true)
  unfolding handle_query_transfer_read_command ◌>>=◌
  handle_query_transfer_read_command-overruns annex arguments m large small asked long =
      let b = empty_buffer m in
      let room = bytes_left b % 2 ^ 32 in
      let (first, n) = prefix_and_length (length annex) arguments.offset arguments.length room in
      let whole =
        prefix_and_length-whole (length annex) arguments.offset arguments.length room
          (omega (arith, empty_buffer-room m)) (omega (arith, empty_buffer-room m))
          (omega (arith, empty_buffer-room m)) in
      (
        _,
        refl,
        write_too_long (write_char b first) (drop arguments.offset annex) n (
            omega (
              arith,
              write_char-takes b first (omega (arith, empty_buffer-room m)),
              empty_buffer-room m,
              whole,
            )),
      )
