-- ===== src/Monitor/Registers.antt =====
-- core/cmd_registers.c: the commands '?', 'g' and 'G'.
use mri.Prelude.{ℕ, ◌%◌, ◌^◌, ◌==◌, if◌then◌else◌, List, [], ◌∷◌, Option, none, some}
use mri.Libc.{c_string}
use mri.Buffer.Core.{Buffer, overrun_detected}
use mri.Buffer.Bytes.{write_char, write_byte_as_hex, write_string}
use mri.Buffer.Integers.{write_uinteger_as_hex}
use mri.Packet.Link.{data_view}
use mri.Context.Core.{MriContext}
use mri.Context.Copy.{copy_to_buffer, copy_from_buffer}
use mri.Commands.Session.{with_buffer, mri_error_buffer_overrun}
use mri.Monitor.State.{
  Machine, MriCore, HandlerReturn, PlatformTrapType, PlatformTrapReason, unknown, hwbreak, swbreak,
  watch, rwatch, awatch, nothing, only_immediately,
}
use mri.Monitor.Signal.{sigtrap}
use mri.Monitor.Monad.{Run, ◌>>=◌, ◌>>◌, pure, gets, ask, on_state, change_buffer, with_session}
use mri.Monitor.Console.{ok_response, init_buffers, respond, send_packet_to_gdb}

-- The `switch` of `writeTrapReasonToBuffer`
abbrev pub trap_reason_text : PlatformTrapType → Option (List ℕ)
trap_reason_text unknown = none
trap_reason_text hwbreak = none
trap_reason_text swbreak = none
trap_reason_text watch = some (c_string (b'w' ∷ b'a' ∷ b't' ∷ b'c' ∷ b'h' ∷ []))
trap_reason_text rwatch = some (c_string (b'r' ∷ b'w' ∷ b'a' ∷ b't' ∷ b'c' ∷ b'h' ∷ []))
trap_reason_text awatch = some (c_string (b'a' ∷ b'w' ∷ b'a' ∷ b't' ∷ b'c' ∷ b'h' ∷ []))

module _ {S : Type 0} (machine : Machine S) where
  -- `writeThreadIdToBuffer`
  unfoldable pub write_thread_id : Buffer → ℕ → Buffer
  write_thread_id b thread_id =
      let b₁ = write_string b (c_string (b't' ∷ b'h' ∷ b'r' ∷ b'e' ∷ b'a' ∷ b'd' ∷ [])) in
      let b₂ = write_uinteger_as_hex machine.bytes (write_char b₁ b':') thread_id in
      write_char b₂ b';'

  -- `writeTrapReasonToBuffer`, on the reason that the platform gives
  unfoldable pub write_trap_reason : PlatformTrapReason → Buffer → Buffer
  write_trap_reason reason b = elim (trap_reason_text reason.type) [
    | none ↦ b
    | some text ↦
        write_char
          (write_uinteger_as_hex machine.bytes (write_char (write_string b text) b':')
            reason.address)
          b';'
  ]

  -- `Send_T_StopResponse`; the thread is kept in a `uint32_t`.
  unfoldable pub send_t_stop_response : Run S HandlerReturn
  send_t_stop_response = do
    signal ← gets (λ m. m.signal_value)
    init_buffers machine
    halted ← ask machine.halted_thread_id
    change_buffer (λ b. write_byte_as_hex (write_char b b'T') signal)
    if halted % 2 ^ 32 == 0
        then pure tt
        else change_buffer (λ b. write_thread_id b (halted % 2 ^ 32))
    if signal == sigtrap
        then (on_state machine.get_trap_reason >>= λ reason.
            change_buffer (write_trap_reason reason))
        else pure tt
    state ← ask (λ s. s)
    change_buffer (λ b. machine.write_t_response_registers b state)
    send_packet_to_gdb machine
    pure only_immediately

  -- `GetContext()`, with the words of its sections
  abbrev pub get_context : MriCore S → MriContext
  get_context m = record { sections = m.context; words = machine.register_words m.session.state }

  -- `HandleRegisterReadCommand`
  unfoldable pub handle_register_read_command : Run S HandlerReturn
  handle_register_read_command = do
    init_buffers machine
    context ← gets get_context
    change_buffer (copy_to_buffer machine.bytes context)
    pure nothing

  -- `Context_CopyFromBuffer` on `GetContext()` and `GetBuffer()`
  unfoldable pub copy_registers_from_buffer : Run S (Unit {0})
  copy_registers_from_buffer m =
      let (context, b) =
        copy_from_buffer machine.bytes (get_context m) (data_view m.session.packet) in
      let s = with_buffer m.session b in
      pure tt
        (with_session m (record s { state = machine.with_register_words context.words s.state }))

  -- `HandleRegisterWriteCommand`
  unfoldable pub handle_register_write_command : Run S HandlerReturn
  handle_register_write_command = do
    copy_registers_from_buffer
    overrun ← gets (λ m. overrun_detected (data_view m.session.packet))
    respond machine (if overrun then mri_error_buffer_overrun else ok_response)
    pure nothing
