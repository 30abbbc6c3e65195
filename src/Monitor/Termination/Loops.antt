-- ===== src/Monitor/Termination/Loops.antt =====
-- The loops over a buffer, of core/cmd_query.c and core/cmd_vcont.c, and their fuel.
use mri.Prelude.{
  ℕ, zero, suc, ◌+◌, ◌%◌, ◌^◌, ◌<◌, ◌≡◌, ◌==◌, refl, arith, leb, Bool, true, false, if◌then◌else◌,
}
use mri.Buffer.Core.{Buffer, bytes_left, no_throw, clear_exception_code, overrun_detected}
use mri.Buffer.Bytes.{write_char}
use mri.Buffer.Integers.{write_uinteger_as_hex}
use mri.Buffer.Room.{write_char-takes, write_uinteger_as_hex-shrinks}
use mri.Packet.Link.{Span, view, pointers, data_view}
use mri.Commands.Session.{with_buffer, mri_error_invalid_argument}
use mri.Monitor.State.{Machine, MriCore, HandlerReturn, AddressRange, nothing, combine}
use mri.Monitor.Console.{respond}
use mri.Monitor.Monad.{Run, with_session, pure, ◌>>=◌, ◌>>◌}
use mri.Monitor.Continue.{take_semicolon}
use mri.Monitor.Query.ThreadInfo.{output_loop}
use mri.Monitor.VCont.Parse.{
  ActionType, action_none, action_continue, action_single_step, action_ranged_single_step,
  parse_action,
}
use mri.Monitor.VCont.Passes.{
  Actions, reject, finish_first_pass, first_parse_loop, first_parse_pass, second_parse_loop,
  second_parse_pass, apply_action, keep_more_specific, set_single_stepping_range,
  handle_action_with_set_thread_state, thread_id_from,
}
use mri.Monitor.VCont.Room.{
  take_semicolon-takes, parse_action-shrinks, parse_action-shrinks_cleared,
}
use mri.Monitor.Termination.{Runs, Within, Within-bind, Within-mono, to_come, runs}
use mri.Monitor.Termination.Handlers.{Runs-respond}

-- The room in the data buffer
abbrev room : {S : Type 0} → MriCore S → ℕ
room m = bytes_left (data_view m.session.packet)

-- The state with another data buffer
abbrev with_data_view : {S : Type 0} → MriCore S → Buffer → MriCore S
with_data_view m b = with_session m (with_buffer m.session b)

-- The state after a routine on a copy of the pointers
abbrev with_replay : {S : Type 0} → MriCore S → Buffer → MriCore S
with_replay m b =
    with_session m
      (record m.session { packet = record m.session.packet { mem = b.mem; exn = b.exn } })

pub Within-if {ℓ} :
    {S : Type 0} {A : Type ℓ} (t : Bool) (run other : Run S A) (n : ℕ) (m : MriCore S)
    → (t ≡ true → Within n (run m))
    → (t ≡ false → Within n (other m))
    → Within n ((if t then run else other) m)
Within-if true run other n m h k = h refl
Within-if false run other n m h k = k refl

module _ {S : Type 0} (machine : Machine S) where
  output_loop-Within :
      (fuel : ℕ) (m : MriCore S) → room m < fuel → Within (to_come m) (output_loop machine fuel m)
  unfolding output_loop ◌>>=◌
  output_loop-Within zero m h = absurd (omega arith)
  output_loop-Within (suc fuel) m h =
      let (next, state) = machine.next_thread_id m.session.state in
      let m₁ = with_session m (record m.session { state = state }) in
      let b = data_view m.session.packet in
      let b₁ = write_char b b',' in
      let b₂ = write_uinteger_as_hex machine.bytes b₁ (next % 2 ^ 32) in
      Within-if (leb 9 (room m)) _ _ (to_come m) m
        (λ enough.
          Within-if (next % 2 ^ 32 == 0) _ _ (to_come m) m₁ (λ zero. omega arith)
            (λ some. output_loop-Within fuel (with_data_view m₁ b₂) (
              ground (
                arith,
                write_char-takes b b',',
                write_uinteger_as_hex-shrinks machine.bytes b₁ (next % 2 ^ 32),
              ))))
        (λ few. omega arith)

  reject-Runs : (actions : Actions) → Runs (reject machine actions)
  unfolding reject
  reject-Runs actions = search (runs, Runs-respond) depth 12

  finish_first_pass-Runs :
      (count : ℕ) (actions : Actions) → Runs (finish_first_pass machine count actions)
  unfolding finish_first_pass
  finish_first_pass-Runs count actions = search (runs, reject-Runs) depth 12

  respond_and_keep-Runs :
      (actions : Actions) → Runs (respond machine mri_error_invalid_argument >> pure actions)
  respond_and_keep-Runs actions = search (runs, Runs-respond) depth 12

  first_parse_loop-Within :
      (fuel count : ℕ) (actions : Actions) (m : MriCore S)
      → room m < fuel
      → Within (to_come m) (first_parse_loop machine fuel count actions m)
  unfolding first_parse_loop ◌>>=◌
  first_parse_loop-Within zero count actions m h = absurd (omega arith)
  first_parse_loop-Within (suc fuel) count actions m h =
      let b = data_view m.session.packet in
      let (more, b₁) = take_semicolon b in
      let (action, b₂) = parse_action machine.bytes (clear_exception_code b₁) in
      let m₂ = with_data_view m b₂ in
      Within-if more _ _ (to_come m) (with_data_view m b₁)
        (λ taken.
          Within-if (no_throw b₂) _ _ (to_come m) m₂
            (λ fine.
              first_parse_loop-Within fuel ((count + 1) % 2 ^ 32)
                (keep_more_specific machine m.session.state action actions action.type) m₂
                (omega (
                  arith,
                  take_semicolon-takes b taken,
                  parse_action-shrinks_cleared machine.bytes b₁,
                )))
            (λ thrown. respond_and_keep-Runs actions m₂))
        (λ last. finish_first_pass-Runs count actions (with_data_view m b₁))

  pub first_parse_pass-Runs : (actions : Actions) → Runs (first_parse_pass machine actions)
  unfolding first_parse_pass
  first_parse_pass-Runs actions m = first_parse_loop-Within (room m + 1) 0 actions m (omega arith)

  apply_action-Runs :
      (id : ℕ) (range : AddressRange) (type : ActionType)
      → Runs (apply_action machine id range type)
  unfolding apply_action
  apply_action-Runs id range action_none = search runs
  apply_action-Runs id range action_continue = search runs depth 12
  apply_action-Runs id range action_single_step = search runs depth 12
  apply_action-Runs id range action_ranged_single_step =
      search (runs, set_single_stepping_range-Runs) depth 12
    where
      set_single_stepping_range-Runs : Runs {S = S} (set_single_stepping_range range)
      set_single_stepping_range-Runs m = omega arith

  -- The room of a copy of the pointers depends on nothing else.
  replay_room :
      (m k : MriCore S) (span : Span)
      → bytes_left (view m.session.packet span) ≡ bytes_left (view k.session.packet span)
  unfolding bytes_left overrun_detected
  replay_room m k span = refl

  second_parse_loop-Within :
      (fuel : ℕ) (span : Span) (value : HandlerReturn) (m : MriCore S)
      → bytes_left (view m.session.packet span) < fuel
      → Within (to_come m) (second_parse_loop machine fuel span value m)
  unfolding second_parse_loop ◌>>=◌
  second_parse_loop-Within zero span value m h = absurd (omega arith)
  second_parse_loop-Within (suc fuel) span value m h =
      let b = view m.session.packet span in
      let (more, b₁) = take_semicolon b in
      let (action, b₂) = parse_action machine.bytes b₁ in
      let m₁ = with_replay m b₁ in
      let m₂ = with_replay m b₂ in
      Within-if more _ _ (to_come m) m₁
        (λ taken.
          Within-bind (handle_action_with_set_thread_state machine action) _ (to_come m) (to_come m)
            m₂
            (apply_action-Runs (thread_id_from machine action.thread_id action.thread_id.type)
              action.range action.type m₂)
            (λ handled m₃ fewer. Within-mono (to_come m₃) (to_come m) _ fewer (
              second_parse_loop-Within fuel (pointers b₂) (combine value handled) m₃ (
                omega (
                  arith,
                  replay_room m₃ m₂ (pointers b₂),
                  take_semicolon-takes b taken,
                  parse_action-shrinks machine.bytes b₁,
                )))))
        (λ last. omega arith)

  pub second_parse_pass-Runs : (replay : Span) → Runs (second_parse_pass machine replay)
  unfolding second_parse_pass
  second_parse_pass-Runs replay m =
      second_parse_loop-Within (bytes_left (view m.session.packet replay) + 1) replay nothing m
        (omega arith)

  pub output_loop-Runs : Runs {S = S} (λ m. output_loop machine (room m + 1) m)
  output_loop-Runs m = output_loop-Within (room m + 1) m (omega arith)
