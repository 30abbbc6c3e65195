-- ===== src/Monitor/Exception.antt =====
-- core/mri.c: the debug exception, from the halt of the program to its resumption.
use mri.Prelude.{
  ℕ, zero, suc, ◌+◌, ◌%◌, ◌^◌, ◌==◌, leb, ltb, Bool, true, false, not, ◌&&◌, ◌||◌, if◌then◌else◌,
  List, Option, none, some,
}
use mri.Context.Core.{ContextSection}
use mri.Monitor.State.{Machine, PlatformTrapType, unknown, hwbreak, swbreak, watch, rwatch, awatch}
use mri.Monitor.Signal.{sigint, sigill, sigtrap, sigbus, sigsegv}
use mri.Monitor.Monad.{
  Run, out_of_fuel, with_session, ◌>>=◌, ◌>>◌, pure, gets, ask, on_state, change_state,
}
use mri.Monitor.Console.{write_strings_to_gdb_console}
use mri.Monitor.Registers.{send_t_stop_response}
use mri.Monitor.Loop.{gdb_command_handling_loop}
use mri.Monitor.FileRequests.{set_signal_value}
use mri.Monitor.Breakpoint.{was_temp_breakpoint_hit, clear_temp_breakpoint}
use mri.Semihost.{is_debuggee_making_semihost_call, handle_semihost_request}

abbrev pub is_unknown : PlatformTrapType → Bool
is_unknown unknown = true
is_unknown hwbreak = false
is_unknown swbreak = false
is_unknown watch = false
is_unknown rwatch = false
is_unknown awatch = false

-- The effect of a callback or a hook; `none` is NULL.
abbrev call_hook : {S : Type 0} → Option (S → S) → Run S (Unit {0})
call_hook none = pure tt
call_hook (some hook) = change_state hook

abbrev call_callback : {S : Type 0} → Option (S → Bool × S) → Run S Bool
call_callback none = pure false
call_callback (some callback) = on_state callback

module _ {S : Type 0} (machine : Machine S) where
  -- `RestoreThreadStates`
  unfoldable pub restore_thread_states : Run S (Unit {0})
  restore_thread_states =
      if machine.is_set_thread_state_supported
      then change_state machine.restore_prev_thread_state
      else pure tt

  -- The `while` of `waitForAckToBeTransmitted`, on fuel
  unfoldable pub transmit_loop : ℕ → Run S (Unit {0})
  transmit_loop zero m = out_of_fuel
  transmit_loop (suc fuel) m =
      let again = transmit_loop fuel in
      (on_state machine.has_transmit_completed >>= λ completed.
      if completed then pure tt else again)
        m

  -- `waitForAckToBeTransmitted`
  unfoldable pub wait_for_ack_to_be_transmitted : Run S (Unit {0})
  wait_for_ack_to_be_transmitted m = transmit_loop (machine.transmit_time m.session.state + 1) m

  -- `CancelResetRequestOnNextContinue`
  abbrev pub cancel_reset_request : Run S (Unit {0})
  cancel_reset_request m = pure tt (record m { reset_on_continue = false })

  -- `prepareForDebuggerExit`
  unfoldable pub prepare_for_debugger_exit : Run S (Unit {0})
  prepare_for_debugger_exit = do
    reset ← gets (λ m. m.reset_on_continue)
    stepping ← ask machine.is_single_stepping
    if reset && not stepping
        then (wait_for_ack_to_be_transmitted
            >> (change_state machine.reset_device >> cancel_reset_request))
        else pure tt
    change_state machine.leaving_debugger
    hook ← gets (λ m. m.leaving_hook)
    call_hook hook
    λ m. pure tt (record m { first_exception = false })

  -- `areSingleSteppingInRange`: the reason for a trap is asked for only if there was one.
  unfoldable pub are_single_stepping_in_range : Run S Bool
  are_single_stepping_in_range = do
    signal ← gets (λ m. m.signal_value)
    ranged ← gets (λ m. m.ranged_single_step)
    if signal == sigint || (signal == sigsegv || (signal == sigbus || signal == sigill))
        then pure false
        else if signal == sigtrap
        then (on_state machine.get_trap_reason >>= λ reason.
            pure (is_unknown reason.type && ranged))
        else pure ranged

  -- Whether the step stays in the range, so that the next one follows at once.
  unfoldable pub stays_in_range : Run S Bool
  stays_in_range = do
    stepping ← are_single_stepping_in_range
    range ← gets (λ m. m.range_for_single_stepping)
    pc ← ask (λ s. machine.get_program_counter s % 2 ^ 32)
    pure (stepping && (leb range.start pc && ltb pc range.last))

  -- The callback of a temporary breakpoint that was hit; the result is whether to resume.
  unfoldable pub handle_temp_breakpoint : Run S Bool
  handle_temp_breakpoint = do
    hit ← was_temp_breakpoint_hit machine
    callback ← gets (λ m. m.temp_breakpoint_callback)
    if hit then (clear_temp_breakpoint machine >> call_callback callback) else pure false

  -- The condition on a semihosting call; each part is done only if those before it hold.
  unfoldable pub handle_semihost_call : Bool → Run S Bool
  handle_semihost_call just_single_stepped = do
    signal ← gets (λ m. m.signal_value)
    if signal == sigtrap
        then (is_debuggee_making_semihost_call machine >>= λ making.
            if making
            then (handle_semihost_request machine >>= λ handled.
                pure (handled && not just_single_stepped))
            else pure false)
        else pure false

  -- `determineSignalValue`
  unfoldable pub determine_signal_value : Run S (Unit {0})
  determine_signal_value = do
    signal ← on_state machine.determine_cause_of_exception
    set_signal_value signal

  -- gdb takes over: the last part of `mriDebugException`
  unfoldable pub talk_to_gdb : Run S (Unit {0})
  talk_to_gdb = do
    first ← gets (λ m. m.first_exception)
    if first
        then pure tt
        else (on_state machine.fault_cause >>= write_strings_to_gdb_console machine)
    immediately ← send_t_stop_response machine
    gdb_command_handling_loop machine
    prepare_for_debugger_exit

  -- `mriDebugException` from `clearSingleSteppingInRange` on
  unfoldable pub enter_debugger : Bool → Run S (Unit {0})
  enter_debugger just_single_stepped = do
    λ m. pure tt (record m { ranged_single_step = false })
    hook ← gets (λ m. m.entering_hook)
    call_hook hook
    change_state machine.entering_debugger
    handled ← handle_semihost_call just_single_stepped
    if handled then (restore_thread_states >> prepare_for_debugger_exit) else talk_to_gdb

  -- `SetContext` and `clearControlCEncounteredFlag`
  abbrev begin_exception : List ContextSection → Run S (Unit {0})
  begin_exception context m = pure tt (
      with_session (record m { context = context })
        (record m.session { packet = record m.session.packet { control_c = false } }))

  -- `mriDebugException`
  unfoldable pub debug_exception : List ContextSection → Run S (Unit {0})
  debug_exception context = do
    begin_exception context
    just_single_stepped ← ask machine.is_single_stepping
    resume_execution ← handle_temp_breakpoint
    if resume_execution
        then restore_thread_states
        else (determine_signal_value
            >> (stays_in_range >>= λ in_range.
                if in_range
                then (change_state machine.disable_single_step
                    >> (change_state machine.enable_single_step >> restore_thread_states))
                else enter_debugger just_single_stepped))
