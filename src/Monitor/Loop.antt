-- ===== src/Monitor/Loop.antt =====
-- core/mri.c: the commands of gdb, handled one after the other until one resumes the program.
use mri.Prelude.{ℕ, zero, suc, ◌+◌, ◌==◌, Bool, if◌then◌else◌, List, [], ◌∷◌, length}
use mri.Buffer.Core.{reset}
use mri.Buffer.Bytes.{read_char}
use mri.Packet.Link.{data_view}
use mri.Packet.Receive.{get_from_gdb}
use mri.Commands.Session.{with_buffer}
use mri.Commands.MemoryAccess.{
  handle_memory_read_command, handle_memory_write_command, handle_binary_memory_write_command,
}
use mri.Commands.BreakWatch.{
  handle_breakpoint_watchpoint_set_command, handle_breakpoint_watchpoint_remove_command,
}
use mri.Commands.Session.{Session}
use mri.Monitor.State.{Machine, HandlerReturn, is_set, nothing}
use mri.Monitor.Monad.{
  Run, out_of_fuel, with_session, ◌>>=◌, ◌>>◌, pure, on_packet, on_buffer, change_buffer,
  on_session,
}
use mri.Monitor.Console.{init_buffers, send_packet_to_gdb, empty_response}
use mri.Monitor.Continue.{
  handle_continue_command, handle_continue_with_signal_command, handle_detach_command,
}
use mri.Monitor.Registers.{
  send_t_stop_response, handle_register_read_command, handle_register_write_command,
}
use mri.Monitor.Step.{handle_single_step_command, handle_single_step_with_signal_command}
use mri.Monitor.Threads.{handle_thread_context_command, handle_is_thread_active_command}
use mri.Monitor.Query.{handle_query_command}
use mri.Monitor.VCont.{handle_v_cont_commands}
use mri.Monitor.FileIo.{handle_file_io_command}

-- The loop over `commandTable`
unfoldable pub find_handler {ℓ} : {A : Type ℓ} → List (ℕ × A) → ℕ → A → A
find_handler [] command_char unknown = unknown
find_handler ((c, handler) ∷ table) command_char unknown =
    let rest = find_handler table command_char unknown in
    if c == command_char then handler else rest

module _ {S : Type 0} (machine : Machine S) where
  -- A handler that returns 0
  abbrev plain : (Session S → Session S) → Run S HandlerReturn
  plain handler = on_session handler >> pure nothing

  -- `commandTable`
  unfoldable pub command_table : List (ℕ × Run S HandlerReturn)
  command_table =
      (b'?', send_t_stop_response machine)
      ∷ (b'c', handle_continue_command machine)
      ∷ (b'C', handle_continue_with_signal_command machine)
      ∷ (b'D', handle_detach_command machine)
      ∷ (b'F', handle_file_io_command machine)
      ∷ (b'g', handle_register_read_command machine)
      ∷ (b'G', handle_register_write_command machine)
      ∷ (b'H', handle_thread_context_command machine)
      ∷ (
        b'm',
        plain (
            handle_memory_read_command machine.memory machine.bytes machine.packet_start
              machine.packet_size),
      )
      ∷ (
        b'M',
        plain (
            handle_memory_write_command machine.memory machine.bytes machine.packet_start
              machine.packet_size),
      )
      ∷ (b'q', handle_query_command machine)
      ∷ (b's', handle_single_step_command machine)
      ∷ (b'S', handle_single_step_with_signal_command machine)
      ∷ (b'T', handle_is_thread_active_command machine)
      ∷ (b'v', handle_v_cont_commands machine)
      ∷ (
        b'X',
        plain (
            handle_binary_memory_write_command machine.memory machine.bytes machine.packet_start
              machine.packet_size machine.sync_icache_to_dcache),
      )
      ∷ (
        b'z',
        plain (
            handle_breakpoint_watchpoint_remove_command machine.comparators machine.bytes
              machine.packet_start machine.packet_size machine.always_hardware),
      )
      ∷ (
        b'Z',
        plain (
            handle_breakpoint_watchpoint_set_command machine.comparators machine.bytes
              machine.packet_start machine.packet_size machine.always_hardware),
      )
      ∷ []

  -- `getPacketFromGDB`
  unfoldable pub get_packet_from_gdb : Run S (Unit {0})
  get_packet_from_gdb = init_buffers machine >> on_packet get_from_gdb

  -- `Platform_HandleGDBCommand`
  unfoldable pub ask_platform : Run S HandlerReturn
  ask_platform m =
      let (result, b, s) =
        machine.handle_platform_command (data_view m.session.packet) m.session.state in
      pure result (with_session m (record (with_buffer m.session b) { state = s }))

  -- The handler of the command in the buffer
  unfoldable pub dispatch : Run S HandlerReturn
  dispatch = do
    change_buffer reset
    command_char ← on_buffer read_char
    find_handler command_table command_char (empty_response machine)

  -- `handleGDBCommand` behind `getPacketFromGDB`
  unfoldable pub after_packet : Run S Bool
  after_packet = do
    from_platform ← ask_platform
    result ← if is_set from_platform then pure from_platform else dispatch
    if result.return_immediately then pure tt else send_packet_to_gdb machine
    pure result.resume_program

  -- `handleGDBCommand`
  unfoldable pub handle_gdb_command : Run S Bool
  handle_gdb_command = get_packet_from_gdb >> after_packet

  -- The `do` of `GdbCommandHandlingLoop`
  unfoldable pub command_loop : ℕ → Run S (Unit {0})
  command_loop zero m = out_of_fuel
  command_loop (suc fuel) m =
      let again = command_loop fuel in
      (handle_gdb_command >>= λ start_up_again. if start_up_again then pure tt else again) m

  -- `GdbCommandHandlingLoop`: every command takes a character from gdb, so what gdb still sends and one more
  -- is enough fuel.
  unfoldable pub gdb_command_handling_loop : Run S (Unit {0})
  gdb_command_handling_loop m = command_loop (length m.session.packet.input + 1) m
