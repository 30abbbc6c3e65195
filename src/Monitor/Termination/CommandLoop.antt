-- ===== src/Monitor/Termination/CommandLoop.antt =====
-- core/mri.c: the command table and the loop over commands, and their fuel.
use mri.Prelude.{ℕ, zero, suc, ◌+◌, ◌<◌, ◌≡◌, ◌==◌, arith, List, [], ◌∷◌}
use mri.Packet.Link.{Link, Outcome, done, waits, stuck, init}
use mri.Packet.Receive.{get_from_gdb}
use mri.Packet.Termination.{Ends, get_from_gdb-Ends}
use mri.Monitor.State.{Machine, MriCore, HandlerReturn, nothing}
use mri.Monitor.Monad.{
  Result, Run, on_session, ◌>>◌, returned, waiting, out_of_fuel, with_session, ◌>>=◌, on_packet,
  pure,
}
use mri.Commands.Session.{Session}
use mri.Commands.MemoryAccess.{
  handle_memory_read_command, handle_memory_write_command, handle_binary_memory_write_command,
}
use mri.Commands.BreakWatch.{
  handle_breakpoint_watchpoint_set_command, handle_breakpoint_watchpoint_remove_command,
}
use mri.Monitor.Console.{empty_response}
use mri.Monitor.Loop.{
  find_handler, command_table, get_packet_from_gdb, ask_platform, dispatch, handle_gdb_command,
  command_loop, after_packet, gdb_command_handling_loop,
}
use mri.Monitor.Termination.{
  Runs, Within, to_come, runs, Runs-bind, Runs-pure, Runs-if, Runs-on_session,
}
use mri.Monitor.Termination.Sessions.{
  input-memory_read, input-memory_write, input-binary_write, input-set, input-remove,
}
use mri.Monitor.Termination.Handlers.{
  Runs-respond, send_packet_to_gdb-Runs, handle_continue_command-Runs,
  handle_continue_with_signal_command-Runs, handle_detach_command-Runs, send_t_stop_response-Runs,
  handle_register_read_command-Runs, handle_register_write_command-Runs,
  handle_single_step_command-Runs, handle_single_step_with_signal_command-Runs,
  handle_thread_context_command-Runs, handle_is_thread_active_command-Runs,
}
use mri.Monitor.Termination.Loops.{Within-if}
use mri.Monitor.Termination.Commands.{
  handle_file_io_command-Runs, handle_query_command-Runs, handle_v_cont_commands-Runs,
}

-- The routine has returned with fewer than `n` characters to come, or waits for gdb.
abbrev pub Below {ℓ} : {S : Type 0} {A : Type ℓ} → ℕ → Result S A → Type 0
Below n (returned a m) = to_come m < n
Below n (waiting m) = Unit {0}
Below n out_of_fuel = ⊥

Within-Below {ℓ} :
    {S : Type 0} {A : Type ℓ} (k n : ℕ) (r : Result S A) → k < n → Within k r → Below n r
Within-Below k n (returned a m) l v = omega arith
Within-Below k n (waiting m) l v = tt
Within-Below k n out_of_fuel l v = v

Below-Within {ℓ} : {S : Type 0} {A : Type ℓ} (n : ℕ) (r : Result S A) → Below n r → Within n r
Below-Within n (returned a m) v = omega arith
Below-Within n (waiting m) v = tt
Below-Within n out_of_fuel v = v

Below-bind {ℓ κ} :
    {S : Type 0} {A : Type ℓ} {B : Type κ} (run : Run S A) (next : A → Run S B) (n : ℕ)
    (m : MriCore S)
    → Below n (run m)
    → ((a : A) (m' : MriCore S) → to_come m' < n → Within (to_come m') (next a m'))
    → Below n ((run >>= next) m)
unfolding ◌>>=◌
Below-bind run next n m w h = go (run m) w
  where
    go :
        (r : Result _ _)
        → Below n r
        → Below n (elim r [
          | returned a m' ↦ next a m'
          | waiting m' ↦ waiting m'
          | out_of_fuel ↦ out_of_fuel
        ])
    go (returned a m') v = Within-Below (to_come m') n (next a m') v (h a m' v)
    go (waiting m') v = tt
    go out_of_fuel v = absurd v

module _ {S : Type 0} (machine : Machine S) where
  -- Every handler of a table ends.
  infixr 30 ◌&◌
  data AllRun : List (ℕ × Run S HandlerReturn) → Type 0 where
    done_all : AllRun []
    ◌&◌ :
        {c : ℕ} {handler : Run S HandlerReturn} {table : List (ℕ × Run S HandlerReturn)}
        → Runs handler
        → AllRun table
        → AllRun ((c, handler) ∷ table)

  find_handler-Runs :
      {table : List (ℕ × Run S HandlerReturn)} (c : ℕ) (unknown : Run S HandlerReturn)
      → AllRun table
      → Runs unknown
      → Runs (find_handler table c unknown)
  unfolding find_handler
  find_handler-Runs c unknown done_all u = u
  find_handler-Runs {table = (d, handler) ∷ table} c unknown (first & rest) u =
      Runs-if (d == c) handler _ first (find_handler-Runs c unknown rest u)

  empty_response-Runs : Runs (empty_response machine)
  empty_response-Runs = search (runs, Runs-respond machine)

  command_table-AllRun : AllRun (command_table machine)
  unfolding command_table
  command_table-AllRun =
      send_t_stop_response-Runs machine
      & handle_continue_command-Runs machine
      & handle_continue_with_signal_command-Runs machine
      & handle_detach_command-Runs machine
      & handle_file_io_command-Runs machine
      & handle_register_read_command-Runs machine
      & handle_register_write_command-Runs machine
      & handle_thread_context_command-Runs machine
      & plain
          (handle_memory_read_command machine.memory machine.bytes machine.packet_start
            machine.packet_size)
          (input-memory_read machine.memory machine.bytes machine.packet_start machine.packet_size)
      & plain
          (handle_memory_write_command machine.memory machine.bytes machine.packet_start
            machine.packet_size)
          (input-memory_write machine.memory machine.bytes machine.packet_start machine.packet_size)
      & handle_query_command-Runs machine
      & handle_single_step_command-Runs machine
      & handle_single_step_with_signal_command-Runs machine
      & handle_is_thread_active_command-Runs machine
      & handle_v_cont_commands-Runs machine
      & plain
          (handle_binary_memory_write_command machine.memory machine.bytes machine.packet_start
            machine.packet_size machine.sync_icache_to_dcache)
          (input-binary_write machine.memory machine.bytes machine.packet_start machine.packet_size
            machine.sync_icache_to_dcache)
      & plain
          (handle_breakpoint_watchpoint_remove_command machine.comparators machine.bytes
            machine.packet_start machine.packet_size machine.always_hardware)
          (input-remove machine.comparators machine.bytes machine.packet_start machine.packet_size
            machine.always_hardware)
      & plain
          (handle_breakpoint_watchpoint_set_command machine.comparators machine.bytes
            machine.packet_start machine.packet_size machine.always_hardware)
          (input-set machine.comparators machine.bytes machine.packet_start machine.packet_size
            machine.always_hardware)
      & done_all
    where
      plain :
          (f : Session S → Session S)
          → ((s : Session S) → (f s).packet.input ≡ s.packet.input)
          → Runs (on_session f >> pure nothing)
      plain f h = Runs-bind _ _ (Runs-on_session f h) (λ u. Runs-pure nothing)

  dispatch-Runs : Runs (dispatch machine)
  unfolding dispatch
  dispatch-Runs =
      search (runs, find_handler-Runs, command_table-AllRun, empty_response-Runs) depth 20

  ask_platform-Runs : Runs (ask_platform machine)
  unfolding ask_platform
  ask_platform-Runs m = omega arith

  get_packet_from_gdb-Below : (m : MriCore S) → Below (to_come m) (get_packet_from_gdb machine m)
  unfolding get_packet_from_gdb ◌>>=◌ on_packet init
  get_packet_from_gdb-Below m = go (get_from_gdb l) (get_from_gdb-Ends l)
    where
      l : Link
      l = init machine.packet_start machine.packet_size m.session.packet

      go :
          (o : Outcome (Unit {0}))
          → Ends (to_come m) o
          → Below (to_come m) (elim o [
            | done a l' ↦ returned a (with_session m (record m.session { packet = l' }))
            | waits l' ↦ waiting (with_session m (record m.session { packet = l' }))
            | stuck ↦ out_of_fuel
          ])
      go (done a l') less = less
      go (waits l') less = tt
      go stuck less = absurd less

  -- What follows the receipt of the packet
  after_packet-Runs : Runs (after_packet machine)
  unfolding after_packet
  after_packet-Runs =
      search (runs, ask_platform-Runs, dispatch-Runs, send_packet_to_gdb-Runs machine) depth 20

  handle_gdb_command-Below : (m : MriCore S) → Below (to_come m) (handle_gdb_command machine m)
  unfolding handle_gdb_command
  handle_gdb_command-Below m =
      Below-bind (get_packet_from_gdb machine) _ (to_come m) m (get_packet_from_gdb-Below m)
        (λ u m' fewer. after_packet-Runs m')

  command_loop-Below :
      (fuel : ℕ) (m : MriCore S)
      → to_come m < fuel
      → Below (to_come m) (command_loop machine fuel m)
  unfolding command_loop
  command_loop-Below zero m h = absurd (omega arith)
  command_loop-Below (suc fuel) m h =
      Below-bind (handle_gdb_command machine) _ (to_come m) m (handle_gdb_command-Below m)
        (λ again m' fewer.
          Within-if again _ _ (to_come m') m' (λ stop. omega arith)
            (λ go_on. Below-Within (to_come m') _ (command_loop-Below fuel m' (omega arith))))

  -- `GdbCommandHandlingLoop`, from every state: it returns, with at least one of gdb's characters taken, or
  -- waits for gdb. It is not out of fuel.
  pub gdb_command_handling_loop-Below :
      (m : MriCore S) → Below (to_come m) (gdb_command_handling_loop machine m)
  unfolding gdb_command_handling_loop
  gdb_command_handling_loop-Below m = command_loop-Below (to_come m + 1) m (omega arith)
