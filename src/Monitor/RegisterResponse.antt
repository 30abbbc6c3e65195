-- ===== src/Monitor/RegisterResponse.antt =====
-- core/cmd_registers.c: the response to 'g', as gdb receives it.
use mri.Prelude.{ℕ, ◌≡◌, ◌∙◌, ap, arith, List}
use mri.Buffer.Core.{bytes_left, overrun_detected}
use mri.Packet.Link.{data_view, with_data, init}
use mri.Packet.Answers.{Answer}
use mri.Context.Flat.{places}
use mri.Context.Registers.{text_at, length-text, copy_to_buffer_lem}
use mri.Monitor.State.{Machine, MriCore, nothing}
use mri.Monitor.Monad.{returned, with_session, ◌>>=◌, >>=-returned}
use mri.Monitor.Console.{send_packet_to_gdb}
use mri.Monitor.Registers.{get_context, handle_register_read_command}
use mri.Monitor.Responses.{
  HasRoom, Answers, Sends, holding, holding-IsHolding, send_packet_to_gdb-held,
}

module _ {S : Type 0} (machine : Machine S) where
  -- The digits of all registers
  abbrev pub registers : MriCore S → List ℕ
  registers m = text_at machine.bytes (machine.register_words m.session.state) (places m.context)

  handle_register_read_command-holding :
      (m : MriCore S)
      → m.session.packet.exn ≡ 0
      → HasRoom machine (registers m) m
      → handle_register_read_command machine m ≡ returned nothing (holding machine (registers m) m)
  unfolding handle_register_read_command ◌>>=◌ init bytes_left overrun_detected
  handle_register_read_command-holding m quiet k =
      let l = init machine.packet_start machine.packet_size m.session.packet in
      ap (λ b. returned nothing (with_session m (record m.session { packet = with_data l b })))
        (copy_to_buffer_lem machine.bytes (get_context machine m) (data_view l) quiet
          (ground (arith, k.sized, length-text machine.bytes (get_context machine m))))

  -- `HandleRegisterReadCommand` and then `SendPacketToGdb`, with no exception set and room for the digits of all
  -- registers in the packet buffer: with answers from gdb of which only the last is '+' or '$', they return, and
  -- have sent the digits of all registers in their order, each lowest byte first, once for each answer.
  pub send_packet_to_gdb-registers :
      (refusals : List Answer) (end : Answer) (rest : List ℕ) (m : MriCore S)
      → m.session.packet.exn ≡ 0
      → HasRoom machine (registers m) m
      → Answers machine refusals end rest m
      → (m' : MriCore S) × ((handle_register_read_command machine >>= λ r.
              send_packet_to_gdb machine)
            m
          ≡ returned tt m')
        × Sends machine (registers m) refusals rest m m'
  unfolding init
  send_packet_to_gdb-registers refusals end rest m quiet k answers =
      let (m', e, sends) =
        send_packet_to_gdb-held machine (registers m) refusals end rest
          (holding machine (registers m) m) (holding-IsHolding machine (registers m) m k)
          (record { all_refuse = answers.all_refuse; ends = answers.ends; line = answers.line }) in
      (
        m',
        >>=-returned (handle_register_read_command machine) (λ r. send_packet_to_gdb machine) m
              (handle_register_read_command-holding m quiet k)
            ∙ e,
        sends,
      )
