-- ===== src/Monitor/Threads.antt =====
-- core/cmd_thread.c: the commands 'H' and 'T'. A response that does not fit is an exception of the `__try`.
use mri.Prelude.{◌%◌, ◌^◌, ◌==◌, if◌then◌else◌, List, Option, none, some}
use mri.TryCatch.{invalid_argument_exception}
use mri.Buffer.Core.{throw}
use mri.Buffer.Bytes.{read_char}
use mri.Buffer.Integers.{read_uinteger_as_hex}
use mri.Commands.Session.{mri_error_invalid_argument}
use mri.Context.Core.{ContextSection}
use mri.Monitor.State.{Machine, HandlerReturn, nothing}
use mri.Monitor.Monad.{
  Run, ◌>>=◌, ◌>>◌, pure, ask, on_buffer, change_buffer, clear_exception, attempt,
}
use mri.Monitor.Console.{ok_response, respond, respond_and_stay}

module _ {S : Type 0} (machine : Machine S) where
  -- The `__catch` of both handlers
  abbrev invalid : Run S HandlerReturn
  invalid = respond_and_stay machine mri_error_invalid_argument

  -- `setExceptionCode(invalidArgumentException); break;`
  abbrev throw_invalid_argument : Run S HandlerReturn
  throw_invalid_argument =
      attempt (change_buffer (throw invalid_argument_exception)) invalid (λ u. pure nothing)

  -- `PrepareStringResponse("OK")` at the end of the `__try`
  abbrev answer_ok : Run S HandlerReturn
  answer_ok = attempt (respond machine ok_response) invalid (λ u. pure nothing)

  -- `SetContext`, and the response, for the context that the platform has found
  unfoldable pub select_context : Option (List ContextSection) → Run S HandlerReturn
  select_context none = throw_invalid_argument
  select_context (some sections) = (λ m. pure tt (record m { context = sections })) >> answer_ok

  -- `HandleThreadContextCommand`
  unfoldable pub handle_thread_context_command : Run S HandlerReturn
  handle_thread_context_command =
      clear_exception
      >> attempt (on_buffer read_char) invalid (λ ch.
        if ch == b'g'
        then attempt (on_buffer (read_uinteger_as_hex machine.bytes)) invalid (λ thread_id.
          ask (machine.thread_context (thread_id % 2 ^ 32)) >>= λ context. select_context context)
        else throw_invalid_argument)

  -- `HandleIsThreadActiveCommand`
  unfoldable pub handle_is_thread_active_command : Run S HandlerReturn
  handle_is_thread_active_command =
      clear_exception
      >> attempt (on_buffer (read_uinteger_as_hex machine.bytes)) invalid (λ thread_id.
        ask (machine.is_thread_active (thread_id % 2 ^ 32)) >>= λ active.
        if active then answer_ok else throw_invalid_argument)
