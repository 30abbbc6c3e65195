-- ===== src/Monitor/Tests.antt =====
-- The theorems about the monitor at concrete states of a small machine.
mod Sending
use mri.Prelude.{
  Bool, ℕ, ◌+◌, ◌≡◌, refl, true, false, List, [], ◌∷◌, ◌++◌, none, replicate, length, arith, take,
  inr,
}
use mri.Libc.{codes, literal}
use mri.Monitor.Monad.{returned, ◌>>=◌}
use mri.Packet.Link.{Span}
use mri.Monitor.State.{Machine, MriCore, unknown, other, nothing}
use mri.Buffer.Core.{
  bytes_left, overrun_detected, peek_at, throw_if_left_lt, throw_and_flag_if_left_lt,
}
use mri.Buffer.Bytes.{read_char}
use mri.Buffer.Integers.{is_next_char_equal_to}
use mri.Monitor.Continue.{take_semicolon}
use mri.Monitor.VCont.{handle_v_cont_command, handle_single_step_and_continue_commands}
use mri.Monitor.VCont.Parse.{parse_action, parse_plain_action, parse_optional_thread_id}
use mri.Monitor.VCont.Passes.{no_actions}
use mri.Monitor.ActionErrors.{
  one_more, no_more, after_action, started, with_action, rejected,
  handle_v_cont_command-forgets_error,
}
use mri.Buffer.Core.{no_throw}
use mri.Buffer.Emit.{emit}
use mri.Packet.Link.{data_view}
use mri.Token.Core.{Token}
use mri.Monitor.Breakpoint.{set_temp_breakpoint, clear_temp_breakpoint}
use mri.Monitor.Continue.{handle_continue_command, handle_detach_command}
use mri.Monitor.Exception.{debug_exception}
use mri.Monitor.Init.{mri_init}
use mri.Monitor.Query.Transfer.{
  AnnexOffsetLength, prefix_and_length, handle_query_transfer_read_command,
}
use mri.Monitor.TempBreakpoint.{
  IsConsistent, HasSet, set_temp_breakpoint-IsConsistent, clear-set_temp_breakpoint,
}
use mri.TryCatch.{set_exception_code}
use mri.Monitor.Resume.{Skips, with_pc, argument, handle_continue_command-Skips}
use mri.Monitor.Window.{handle_query_transfer_read_command-overruns}
use mri.Monitor.Startup.{mri_init-lem}
use mri.Monitor.RangedStep.{GoesOn, signalled, resumed, debug_exception-decides}
use mri.Monitor.Transmission.{Asked, IsTransmitting, in_state, wait_for_ack_to_be_transmitted-Asked}
use mri.Monitor.Exception.{enter_debugger, wait_for_ack_to_be_transmitted}
use mri.Packet.Link.{packet_view}
use mri.Packet.Send.{send_packet, process_packet_data}
use mri.Buffer.Integers.{parse_all_hex_digits}
use mri.Monitor.State.{HandlerReturn}
use mri.Monitor.Monad.{pure}
use mri.Prelude.{◌%◌, ◌^◌, ◌-◌, ◌==◌, ◌⊎◌}
use mri.Monitor.Termination.Whole.{gdb_command_handling_loop-Ends}
use mri.Buffer.Core.{reset}
use mri.Packet.Answers.{Answer}
use mri.Monitor.Loop.{command_table, after_packet, gdb_command_handling_loop}
use mri.Monitor.Monad.{◌>>◌}
use mri.Monitor.Console.{respond, send_packet_to_gdb}
use mri.Monitor.Responses.{
  HasRoom, Answers, Sends, send_packet_to_gdb-respond, send_packet_to_gdb-overrun,
}
use mri.Monitor.UnknownCommand.{IsUnknown, after_packet-unknown}
use mri.Monitor.Termination.CommandLoop.{Below}
use mri.Monitor.Board.{board, halted, reading}

-- "vCont;c;x", behind "vCont": the program is resumed.
abbrev bad_second_action : MriCore ℕ
bad_second_action = reading (codes ";c;x")

abbrev behind_first : MriCore ℕ
behind_first = after_action board (started board bad_second_action)

handle_v_cont_command-forgets_error_example :
    handle_v_cont_command board bad_second_action
    ≡ handle_single_step_and_continue_commands board
        (with_action board (started board bad_second_action) no_actions)
        (rejected board (after_action board behind_first))
unfolding take_semicolon is_next_char_equal_to throw_if_left_lt peek_at bytes_left overrun_detected
    parse_action parse_plain_action parse_optional_thread_id read_char throw_and_flag_if_left_lt
handle_v_cont_command-forgets_error_example =
    handle_v_cont_command-forgets_error board bad_second_action behind_first
      (with_action board (started board bad_second_action) no_actions) (omega arith) refl
      (one_more refl refl no_more) refl refl

set_temp_breakpoint_example :
    (ok : Bool) × (m' : MriCore ℕ) × (set_temp_breakpoint board 9 none (halted []) ≡ returned ok m')
    × HasSet 9 none (halted []) ok m'
    × IsConsistent m'
set_temp_breakpoint_example =
    set_temp_breakpoint-IsConsistent board 9 none (halted []) (inr (refl, refl, refl))

-- All of the buffer, of an annex of fifty characters
abbrev too_much : AnnexOffsetLength
too_much = record { annex = none; annex_size = 0; offset = 2; length = 32 }

handle_query_transfer_read_command-overruns_example :
    (m' : MriCore ℕ) × (handle_query_transfer_read_command board
        (replicate 50 b'x')
        50
        too_much
        (halted [])
      ≡ returned tt m')
    × (overrun_detected (data_view m'.session.packet) ≡ true)
handle_query_transfer_read_command-overruns_example =
    handle_query_transfer_read_command-overruns board (replicate 50 b'x') too_much (halted [])
      (omega arith) (omega arith) (omega arith) (omega arith)

abbrev no_tokens : Token
no_tokens = record {
  exn = 0;
  address = 64;
  copy_of_string = replicate 65 0;
  token_pointers = replicate 10 0;
  token_count = 0;
  token_separators = [];
}

mri_init_example :
    (m' : MriCore ℕ) × (mri_init board no_tokens (literal "MRI_UART_0") (halted [])
      ≡ returned tt m')
    × (m'.successful_init ≡ no_throw (data_view m'.session.packet))
    × (m'.first_exception ≡ no_throw (data_view m'.session.packet))
mri_init_example = mri_init-lem board no_tokens (literal "MRI_UART_0") (halted [])

-- A step from 8 to below 16
abbrev stepping : MriCore ℕ
stepping = record (halted []) {
  ranged_single_step = true;
  range_for_single_stepping = record { start = 8; last = 16 };
}

-- That step, on a machine with a trap of unknown reason
debug_exception-decides_example :
    (GoesOn board stepping
      × (debug_exception board [] stepping
          ≡ returned tt (signalled board [] stepping (resumed board 8))))
    ⊎ ((¬ GoesOn board stepping)
        × (debug_exception board [] stepping
            ≡ enter_debugger board false (signalled board [] stepping 8)))
debug_exception-decides_example = debug_exception-decides board [] stepping refl

clear-set_temp_breakpoint_example :
    (m' : MriCore ℕ) × ((set_temp_breakpoint board 9 none >>= λ ok.
    clear_temp_breakpoint board >>= λ u. pure ok)
        (halted [])
      ≡ returned true m')
    × (m'.session.state ≡ 8)
    × (m'.temp_breakpoint ≡ false)
    × (m'.temp_breakpoint_address ≡ 0)
    × (m'.temp_breakpoint_callback ≡ none)
    × (m'.session.packet.exn ≡ 0)
unfolding set_exception_code
clear-set_temp_breakpoint_example = clear-set_temp_breakpoint board 9 none (halted []) refl refl

-- 'c' with the address 0x10 behind it
abbrev continued : MriCore ℕ
continued = reading (codes "10")

handle_continue_command-Skips_example :
    (result : HandlerReturn) × (m' : MriCore ℕ) × (state : ℕ) × (handle_continue_command board
        continued
      ≡ returned result m')
    × Skips board 8 result.skipped_over_break state
    × (m'.session.state
        ≡ with_pc board
            (no_throw ((argument board continued).1))
            ((argument board continued).0 % 2 ^ 32)
            state)
    × (result.resume_program ≡ true)
    × (result.return_immediately ≡ true)
    × (no_throw (data_view m'.session.packet) ≡ true)
handle_continue_command-Skips_example = handle_continue_command-Skips board continued

-- A machine that has as much to transmit as its state says
abbrev transmitting : Machine ℕ
transmitting = record board {
  transmit_time = λ s. s;
  has_transmit_completed = λ s. (s == 0, s - 1);
}

transmitting-IsTransmitting : IsTransmitting transmitting
transmitting-IsTransmitting = record { shorter = λ s e. ground (arith, e) }

wait_for_ack_to_be_transmitted_example :
    (last : ℕ) × (wait_for_ack_to_be_transmitted transmitting (halted [])
      ≡ returned tt (in_state transmitting (halted []) (last - 1)))
    × Asked transmitting 8 last
    × ((last == 0) ≡ true)
wait_for_ack_to_be_transmitted_example =
    wait_for_ack_to_be_transmitted-Asked transmitting (halted []) transmitting-IsTransmitting

gdb_command_handling_loop-Ends_example :
    Below 5 (gdb_command_handling_loop board (halted (codes "$c#63")))
    × (bytes_left (packet_view (send_packet continued.session.packet)) ≡ 0)
    × (bytes_left (data_view (process_packet_data continued.session.packet)) ≡ 0)
    × (no_throw ((parse_all_hex_digits 4 (data_view continued.session.packet)).2) ≡ false)
gdb_command_handling_loop-Ends_example =
    gdb_command_handling_loop-Ends board (halted (codes "$c#63")) continued.session.packet
      continued.session.packet (data_view continued.session.packet)
