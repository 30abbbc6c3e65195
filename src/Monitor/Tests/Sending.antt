-- ===== src/Monitor/Tests/Sending.antt =====
-- Responses of the monitor, sent to a gdb that acknowledges them.
use mri.Prelude.{Bool, none, inl, ℕ, ◌≡◌, refl, false, [], ◌∷◌, ◌++◌, replicate, arith}
use mri.Libc.{codes, literal}
use mri.Monitor.Monad.{returned}
use mri.Monitor.State.{MriCore}
use mri.Buffer.Core.{bytes_left, overrun_detected, peek_at, throw_and_flag_if_left_lt}
use mri.Buffer.Bytes.{read_char}
use mri.Buffer.Core.{reset}
use mri.Packet.Answers.{Answer}
use mri.Monitor.Loop.{command_table, after_packet}
use mri.Monitor.Monad.{◌>>◌}
use mri.Monitor.Console.{respond, send_packet_to_gdb}
use mri.Monitor.Responses.{Sends, send_packet_to_gdb-respond, send_packet_to_gdb-overrun}
use mri.Monitor.Monad.{◌>>=◌}
use mri.Objects.{hex_of, bytes_of}
use mri.Context.Flat.{places, places_from}
use mri.Context.Registers.{text_at}
use mri.Monitor.Registers.{handle_register_read_command}
use mri.Monitor.RegisterResponse.{registers, send_packet_to_gdb-registers}
use mri.Monitor.Window.{piece_of, send_packet_to_gdb-piece}
use mri.Monitor.Query.Transfer.{AnnexOffsetLength, handle_query_transfer_read_command}
use mri.Monitor.Continue.{handle_detach_command}
use mri.Monitor.Monad.{pure}
use mri.Monitor.State.{only_resume}
use mri.Monitor.Resume.{Skips, in_state}
use mri.Monitor.Detach.{send_packet_to_gdb-detach}
use mri.Monitor.UnknownCommand.{IsUnknown, after_packet-unknown}
use mri.Monitor.Board.{board, halted}

abbrev plus : Answer
plus = record { interrupts = 1; char = b'+' }

-- gdb acknowledges, behind a control-C, and sends one more character.
abbrev acknowledged : MriCore ℕ
acknowledged = halted (3 ∷ codes "+!")

send_packet_to_gdb-respond_example :
    (m' : MriCore ℕ) × ((respond board (literal "OK") >> send_packet_to_gdb board) acknowledged
      ≡ returned tt m')
    × Sends board (codes "OK") [] (codes "!") acknowledged m'
send_packet_to_gdb-respond_example =
    send_packet_to_gdb-respond board (codes "OK") [] plus (codes "!") acknowledged
      (λ e. omega arith, (λ e. omega arith, tt))
      (record { sized = omega arith; in_memory = omega arith })
      (record { all_refuse = tt; ends = inl refl; line = refl })

-- The data buffer has been overrun by one character.
abbrev too_long : MriCore ℕ
too_long = record acknowledged {
  session = record {
    packet = record acknowledged.session.packet {
      data_buffer = record { start = 1; last = 33; current = 34 };
    };
    state = 8;
  };
}

send_packet_to_gdb-overrun_example :
    (m' : MriCore ℕ) × (send_packet_to_gdb board too_long ≡ returned tt m')
    × Sends board (codes "E04") [] (codes "!") too_long m'
unfolding overrun_detected
send_packet_to_gdb-overrun_example =
    send_packet_to_gdb-overrun board [] plus (codes "!") too_long refl
      (record { sized = omega arith; in_memory = omega arith })
      (record { all_refuse = tt; ends = inl refl; line = refl })

-- "y" is no command.
abbrev unknown_command : MriCore ℕ
unknown_command = record acknowledged {
  session = record {
    packet = record acknowledged.session.packet {
      mem = 0 ∷ codes "y" ++ replicate 38 0;
      data_buffer = record { start = 1; last = 2; current = 1 };
    };
    state = 8;
  };
}

unknown_command-IsUnknown : IsUnknown board unknown_command
unfolding command_table read_char reset throw_and_flag_if_left_lt bytes_left overrun_detected
    peek_at
unknown_command-IsUnknown = record {
  ignored = refl;
  not_in_table = (
    λ e. omega arith,
    (
      λ e. omega arith,
      (
        λ e. omega arith,
        (
          λ e. omega arith,
          (
            λ e. omega arith,
            (
              λ e. omega arith,
              (
                λ e. omega arith,
                (
                  λ e. omega arith,
                  (
                    λ e. omega arith,
                    (
                      λ e. omega arith,
                      (
                        λ e. omega arith,
                        (
                          λ e. omega arith,
                          (
                            λ e. omega arith,
                            (
                              λ e. omega arith,
                              (
                                λ e. omega arith,
                                (λ e. omega arith, (λ e. omega arith, (λ e. omega arith, tt))),
                              ),
                            ),
                          ),
                        ),
                      ),
                    ),
                  ),
                ),
              ),
            ),
          ),
        ),
      ),
    ),
  );
}

after_packet-unknown_example :
    (m' : MriCore ℕ) × (after_packet board unknown_command ≡ returned false m')
    × Sends board [] [] (codes "!") unknown_command m'
after_packet-unknown_example =
    after_packet-unknown board [] plus (codes "!") unknown_command unknown_command-IsUnknown
      (record { sized = omega arith; in_memory = omega arith })
      (record { all_refuse = tt; ends = inl refl; line = refl })

-- The digits of three registers of four bytes
send_packet_to_gdb-registers_example :
    (m' : MriCore ℕ) × ((handle_register_read_command board >>= λ r. send_packet_to_gdb board)
        acknowledged
      ≡ returned tt m')
    × Sends board (registers board acknowledged) [] (codes "!") acknowledged m'
unfolding places text_at hex_of bytes_of places_from
send_packet_to_gdb-registers_example =
    send_packet_to_gdb-registers board [] plus (codes "!") acknowledged refl
      (record { sized = omega arith; in_memory = omega arith })
      (record { all_refuse = tt; ends = inl refl; line = refl })

-- "2,4" of an annex: a piece from its middle
abbrev middle : AnnexOffsetLength
middle = record { annex = none; annex_size = 0; offset = 2; length = 4 }

send_packet_to_gdb-piece_example :
    (m' : MriCore ℕ) × ((handle_query_transfer_read_command board (codes "<target/>") 9 middle
          >>= λ u. send_packet_to_gdb board)
        acknowledged
      ≡ returned tt m')
    × Sends board (codes "marge") [] (codes "!") acknowledged m'
unfolding piece_of
send_packet_to_gdb-piece_example =
    send_packet_to_gdb-piece board (codes "<target/>") middle [] plus (codes "!") acknowledged
      (omega arith) (omega arith) (omega arith) (omega arith)
      (record { all_refuse = tt; ends = inl refl; line = refl })

send_packet_to_gdb-detach_example :
    (skipped : Bool) × (state : ℕ) × (m' : MriCore ℕ) × ((handle_detach_command board >>= λ r.
    (send_packet_to_gdb board >> pure r))
        acknowledged
      ≡ returned only_resume m')
    × Skips board 8 skipped state
    × Sends board (codes "OK") [] (codes "!") (in_state board acknowledged state) m'
send_packet_to_gdb-detach_example =
    send_packet_to_gdb-detach board [] plus (codes "!") acknowledged
      (record { sized = omega arith; in_memory = omega arith })
      (record { all_refuse = tt; ends = inl refl; line = refl })
