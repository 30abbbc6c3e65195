-- ===== src/Monitor/UnknownCommand.antt =====
-- core/mri.c: a command that neither the platform nor the command table knows.
use mri.Prelude.{ℕ, ◌≡◌, ◌≢◌, ◌==◌, ◌∙◌, refl, ap, arith, List, [], ◌∷◌, All, false}
use mri.Buffer.Core.{Buffer, reset, throw_and_flag_if_left_lt}
use mri.Buffer.Bytes.{read_char}
use mri.Packet.Link.{data_view, init}
use mri.Packet.Answers.{Answer}
use mri.Commands.Session.{with_buffer}
use mri.Monitor.State.{Machine, MriCore, nothing}
use mri.Monitor.Monad.{returned, with_session, ◌>>=◌, >>=-returned, pure}
use mri.Monitor.Console.{respond, send_packet_to_gdb, empty_response}
use mri.Monitor.Loop.{find_handler, command_table, ask_platform, dispatch, after_packet}
use mri.Monitor.Responses.{
  HasRoom, Answers, Sends, holding, holding-IsHolding, respond-holding, send_packet_to_gdb-held,
}

find_handler-unknown {ℓ} :
    {A : Type ℓ} (table : List (ℕ × A)) (c : ℕ) (unknown : A)
    → All (λ entry. entry.0 ≢ c) table
    → find_handler table c unknown ≡ unknown
unfolding find_handler
find_handler-unknown [] c unknown h = refl
find_handler-unknown ((d, handler) ∷ table) c unknown (h, hs) =
    rw (differ d c h) (find_handler-unknown table c unknown hs)
  where
    differ : (d c : ℕ) → d ≢ c → (d == c) ≡ false
    differ d c h = ground (arith, h)

read_char-mem : (b : Buffer) → ((read_char (reset b)).1).mem ≡ b.mem
unfolding read_char reset throw_and_flag_if_left_lt
read_char-mem b = ground arith

module _ {S : Type 0} (machine : Machine S) where
  -- The state behind the command's character
  abbrev behind : MriCore S → MriCore S
  behind m =
      with_session m (with_buffer m.session ((read_char (reset (data_view m.session.packet))).1))

  -- A packet whose command character is in no entry of the command table, and that the platform leaves alone
  pub record IsUnknown (m : MriCore S) : Type 0 where
    pub ignored :
        machine.handle_platform_command (data_view m.session.packet) m.session.state
        ≡ (nothing, data_view m.session.packet, m.session.state)
    pub not_in_table :
        All
          (λ entry. entry.0 ≢ (read_char (reset (data_view m.session.packet))).0)
          (command_table machine)

  ask_platform-ignored : (m : MriCore S) → IsUnknown m → ask_platform machine m ≡ returned nothing m
  unfolding ask_platform
  ask_platform-ignored m h =
      ap (λ r. returned (r.0) (with_session m (record (with_buffer m.session r.1) { state = r.2 })))
        h.ignored

  behind-HasRoom : (m : MriCore S) → HasRoom machine [] m → HasRoom machine [] (behind m)
  behind-HasRoom m k = record {
    sized = k.sized;
    in_memory = rw (read_char-mem (data_view m.session.packet)) k.in_memory;
  }

  dispatch-unknown :
      (m : MriCore S)
      → IsUnknown m
      → HasRoom machine [] m
      → dispatch machine m ≡ returned nothing (holding machine [] (behind m))
  unfolding dispatch ◌>>=◌
  dispatch-unknown m h k =
      ap (λ handler. handler (behind m))
        (find_handler-unknown (command_table machine) _ (empty_response machine) h.not_in_table)
      ∙ >>=-returned (respond machine (0 ∷ [])) (λ u. pure nothing) (behind m)
          (respond-holding machine [] (behind m) tt (behind-HasRoom m k))

  -- `handleGDBCommand` behind `getPacketFromGDB`, on a command that neither the platform nor the command table
  -- knows, with a packet buffer of at least four characters: with answers from gdb of which only the last is '+' or
  -- '$', it returns, has sent the empty packet once for each answer, and does not resume the program.
  pub after_packet-unknown :
      (refusals : List Answer) (end : Answer) (rest : List ℕ) (m : MriCore S)
      → IsUnknown m
      → HasRoom machine [] m
      → Answers machine refusals end rest m
      → (m' : MriCore S) × (after_packet machine m ≡ returned false m')
        × Sends machine [] refusals rest m m'
  unfolding after_packet init
  after_packet-unknown refusals end rest m h k answers =
      let m₂ = holding machine [] (behind m) in
      let (m', e, sends) =
        send_packet_to_gdb-held machine [] refusals end rest m₂
          (holding-IsHolding machine [] (behind m) (behind-HasRoom m k))
          (record { all_refuse = answers.all_refuse; ends = answers.ends; line = answers.line }) in
      (
        m',
        >>=-returned (ask_platform machine) _ m (ask_platform-ignored m h)
            ∙ >>=-returned (dispatch machine) _ m (dispatch-unknown m h k)
            ∙ >>=-returned (send_packet_to_gdb machine) (λ u. pure false) m₂ e,
        sends,
      )
