-- ===== src/Monitor/Query/ThreadInfo.antt =====
-- core/cmd_query.c: "qfThreadInfo", "qsThreadInfo" and "qThreadExtraInfo".
use mri.Prelude.{ℕ, zero, suc, ◌+◌, ◌%◌, ◌^◌, ◌==◌, leb, List, Option, none, some, if◌then◌else◌}
use mri.Buffer.Core.{Buffer, bytes_left}
use mri.Buffer.Bytes.{write_char, write_string_as_hex}
use mri.Buffer.Integers.{is_next_char_equal_to, read_uinteger_as_hex, write_uinteger_as_hex}
use mri.Packet.Link.{data_view}
use mri.Commands.Session.{mri_error_invalid_argument}
use mri.Monitor.State.{Machine, HandlerReturn, nothing}
use mri.Monitor.Monad.{
  Run, out_of_fuel, ◌>>=◌, ◌>>◌, pure, ask, on_buffer, on_state, change_buffer, branch,
}
use mri.Monitor.Console.{init_buffers, respond_and_stay, empty_response}

module _ {S : Type 0} (machine : Machine S) where
  -- One round of the loop of `outputThreadIds`, and the write in front of it
  abbrev write_thread : ℕ → ℕ → Buffer → Buffer
  write_thread separator thread_id b =
      write_uinteger_as_hex machine.bytes (write_char b separator) thread_id

  -- The `while` of `outputThreadIds`: the platform is asked only if there is room. A round uses up some of
  -- the room, so the bytes left and one more are enough fuel.
  unfoldable pub output_loop : ℕ → Run S (Unit {0})
  output_loop zero m = out_of_fuel
  output_loop (suc fuel) m =
      let rest = output_loop fuel in
      let round : ℕ → Run S (Unit {0}) = λ next.
        if next % 2 ^ 32 == 0
        then pure tt
        else (change_buffer (write_thread b',' (next % 2 ^ 32)) >> rest) in
      (if leb 9 (bytes_left (data_view m.session.packet))
          then on_state machine.next_thread_id >>= round
          else pure tt)
        m

  -- `outputThreadIds`
  unfoldable pub output_thread_ids : ℕ → Run S HandlerReturn
  output_thread_ids thread_id = do
    init_buffers machine
    if thread_id == 0
        then change_buffer (λ b. write_char b b'l')
        else (change_buffer (write_thread b'm' thread_id) >> λ m.
            output_loop (bytes_left (data_view m.session.packet) + 1) m)
    pure nothing

  -- `handleQueryFirstThreadInfoCommand`
  unfoldable pub handle_query_first_thread_info_command : Run S HandlerReturn
  handle_query_first_thread_info_command = do
    thread_id ← on_state machine.first_thread_id
    if thread_id % 2 ^ 32 == 0
        then empty_response machine
        else output_thread_ids (thread_id % 2 ^ 32)

  -- `handleQuerySubsequentThreadInfoCommand`
  unfoldable pub handle_query_subsequent_thread_info_command : Run S HandlerReturn
  handle_query_subsequent_thread_info_command = do
    thread_id ← on_state machine.next_thread_id
    output_thread_ids (thread_id % 2 ^ 32)

  -- The text that is known of a thread; `none` is NULL.
  abbrev write_extra_info : Option (List ℕ) → Buffer → Buffer
  write_extra_info none b = b
  write_extra_info (some text) b = (write_string_as_hex b text).1

  -- `handleQueryThreadExtraInfoCommand`
  unfoldable pub handle_query_thread_extra_info_command : Run S HandlerReturn
  handle_query_thread_extra_info_command =
      branch (on_buffer (λ b. is_next_char_equal_to b b','))
        (do
          thread_id ← on_buffer (read_uinteger_as_hex machine.bytes)
          info ← ask (machine.extra_thread_info (thread_id % 2 ^ 32))
          init_buffers machine
          change_buffer (write_extra_info info)
          pure nothing)
        (respond_and_stay machine mri_error_invalid_argument)
