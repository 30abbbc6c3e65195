-- ===== src/Monitor/Detach.antt =====
-- core/cmd_continue.c: 'D', as gdb and the program see it.
use mri.Prelude.{ℕ, ◌≡◌, ◌∙◌, arith, Bool, List, [], ◌∷◌}
use mri.Packet.Link.{init}
use mri.Packet.Answers.{Answer}
use mri.Monitor.State.{Machine, MriCore, only_resume}
use mri.Monitor.Monad.{returned, ◌>>=◌, ◌>>◌, >>=-returned, pure}
use mri.Monitor.Console.{ok_response, respond, send_packet_to_gdb}
use mri.Monitor.Continue.{skip_hardcoded_breakpoint, thaw_all_threads, handle_detach_command}
use mri.Monitor.Responses.{
  HasRoom, Answers, Sends, holding, holding-IsHolding, respond-holding, send_packet_to_gdb-held,
}
use mri.Monitor.Resume.{
  Skips, in_state, with_thawed, thaw_all_threads-lem, skip_hardcoded_breakpoint-Skips,
}

abbrev pub ok_text : List ℕ
ok_text = b'O' ∷ b'K' ∷ []

module _ {S : Type 0} (machine : Machine S) where
  -- `HandleDetachCommand` and then `SendPacketToGdb`, with room for the response in the packet buffer and answers
  -- from gdb of which only the last is '+' or '$': they return, with the program to be resumed; the platform has
  -- been asked to thaw all threads, if it has thread states, and then a hard-coded breakpoint has been skipped,
  -- unless the user has moved the program counter; and "OK" has been sent once for each answer.
  pub send_packet_to_gdb-detach :
      (refusals : List Answer) (end : Answer) (rest : List ℕ) (m : MriCore S)
      → HasRoom machine ok_text m
      → Answers machine refusals end rest m
      → (skipped : Bool) × (state : S) × (m' : MriCore S) × ((handle_detach_command machine >>= λ r.
              (send_packet_to_gdb machine >> pure r))
            m
          ≡ returned only_resume m')
        × Skips machine (with_thawed machine m.session.state) skipped state
        × Sends machine ok_text refusals rest (in_state machine m state) m'
  unfolding handle_detach_command ◌>>=◌ init
  send_packet_to_gdb-detach refusals end rest m k answers =
      let m₁ = in_state machine m (with_thawed machine m.session.state) in
      let (skipped, state, skip, skips) = skip_hardcoded_breakpoint-Skips machine m₁ in
      let m₂ = in_state machine m state in
      let room : HasRoom machine ok_text m₂ = record { sized = k.sized; in_memory = k.in_memory } in
      let m₃ = holding machine ok_text m₂ in
      let (m', e, sends) =
        send_packet_to_gdb-held machine ok_text refusals end rest m₃
          (holding-IsHolding machine ok_text m₂ room)
          (record { all_refuse = answers.all_refuse; ends = answers.ends; line = answers.line }) in
      let handled : handle_detach_command machine m ≡ returned only_resume m₃ =
        >>=-returned (thaw_all_threads machine) _ m (thaw_all_threads-lem machine m)
        ∙ >>=-returned (skip_hardcoded_breakpoint machine) _ m₁ skip
        ∙ >>=-returned (respond machine ok_response) (λ u. pure only_resume) m₂
            (respond-holding machine ok_text m₂ (λ z. omega arith, (λ z. omega arith, tt)) room) in
      (
        skipped,
        state,
        m',
        >>=-returned (handle_detach_command machine) (λ r. send_packet_to_gdb machine >> pure r) m
              handled
            ∙ >>=-returned (send_packet_to_gdb machine) (λ u. pure only_resume) m₃ e,
        skips,
        sends,
      )
