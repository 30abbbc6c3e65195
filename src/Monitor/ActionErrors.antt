-- ===== src/Monitor/ActionErrors.antt =====
-- core/cmd_vcont.c: an action that cannot be parsed, behind others that can.
use mri.Prelude.{
  ℕ, zero, suc, ◌+◌, ◌%◌, ◌^◌, ◌<◌, ◌≤◌, ◌≡◌, refl, ◌∙◌, arith, Bool, true, false, List,
}
use mri.Libc.{strlen, peek, next}
use mri.Buffer.Core.{
  Buffer, bytes_left, no_throw, clear_exception_code, overrun_detected, throw_and_flag_if_left_lt,
  put,
}
use mri.Buffer.Bytes.{copy_string, write_sized_string, write_string}
use mri.Packet.Link.{data_view, init}
use mri.Commands.Session.{prepare_string_response, with_buffer, mri_error_invalid_argument}
use mri.Monitor.State.{Machine, MriCore}
use mri.Monitor.Monad.{returned, with_session, ◌>>=◌, >>=-returned}
use mri.Monitor.Continue.{take_semicolon}
use mri.Monitor.VCont.Parse.{Action, parse_action}
use mri.Monitor.VCont.Passes.{
  Actions, no_actions, keep_more_specific, first_parse_loop, first_parse_pass,
}
use mri.Monitor.VCont.Room.{take_semicolon-takes, parse_action-shrinks_cleared}
use mri.Monitor.VCont.{handle_single_step_and_continue_commands, handle_v_cont_command}

-- The room in the data buffer
abbrev room : {S : Type 0} → MriCore S → ℕ
room m = bytes_left (data_view m.session.packet)

copy_string-exn : (b : Buffer) (s : List ℕ) (n : ℕ) → (copy_string b s n).exn ≡ b.exn
unfolding copy_string put
copy_string-exn b s zero = refl
copy_string-exn b s (suc n) = copy_string-exn (put b (peek s)) (next s) n

write_string-exn : (b : Buffer) (s : List ℕ) → strlen s ≤ bytes_left b → (write_string b s).exn ≡ 0
unfolding write_string write_sized_string throw_and_flag_if_left_lt bytes_left overrun_detected
write_string-exn b s h = ground (arith, copy_string-exn (clear_exception_code b) s (strlen s))

module _ {S : Type 0} (machine : Machine S) where
  -- The response to a bad argument fits, and leaves no exception.
  respond-exn :
      (m : MriCore S)
      → 7 ≤ machine.packet_size
      → (prepare_string_response machine.packet_start machine.packet_size m.session
          mri_error_invalid_argument).packet.exn
        ≡ 0
  unfolding prepare_string_response init bytes_left overrun_detected strlen
  respond-exn m h = write_string-exn _ mri_error_invalid_argument (ground arith)

  -- The state with the response to a bad argument
  abbrev pub rejected : MriCore S → MriCore S
  rejected m = with_session m (
      prepare_string_response machine.packet_start machine.packet_size m.session
        mri_error_invalid_argument)

  -- What a round of the first pass reads: the ';', and an action
  abbrev pub next_is_action : MriCore S → Bool
  next_is_action m = (take_semicolon (data_view m.session.packet)).0

  abbrev pub parsed : MriCore S → Action × Buffer
  parsed m =
      parse_action machine.bytes
        (clear_exception_code ((take_semicolon (data_view m.session.packet)).1))

  abbrev pub parses : MriCore S → Bool
  parses m = no_throw ((parsed m).1)

  -- The state behind the action, and the actions that are kept then
  abbrev pub after_action : MriCore S → MriCore S
  after_action m = with_session m (with_buffer m.session (parsed m).1)

  abbrev pub with_action : MriCore S → Actions → Actions
  with_action m actions =
      let action = (parsed m).0 in
      keep_more_specific machine m.session.state action actions action.type

  -- Rounds of the first pass whose actions are well formed: where they end, and what they keep
  pub data Rounds : MriCore S → Actions → MriCore S → Actions → Type 0 where
    no_more : {m : MriCore S} {actions : Actions} → Rounds m actions m actions
    one_more :
        {m m' : MriCore S} {actions actions' : Actions}
        → next_is_action m ≡ true
        → parses m ≡ true
        → Rounds (after_action m) (with_action m actions) m' actions'
        → Rounds m actions m' actions'

  first_parse_loop-step :
      (fuel count : ℕ) (actions : Actions) (m : MriCore S)
      → next_is_action m ≡ true
      → parses m ≡ true
      → first_parse_loop machine (suc fuel) count actions m
        ≡ first_parse_loop machine fuel
            ((count + 1) % 2 ^ 32)
            (with_action m actions)
            (after_action m)
  unfolding first_parse_loop ◌>>=◌
  first_parse_loop-step fuel count actions m h k = rw (h, k)

  first_parse_loop-error :
      (fuel count : ℕ) (actions : Actions) (m : MriCore S)
      → next_is_action m ≡ true
      → parses m ≡ false
      → first_parse_loop machine (suc fuel) count actions m
        ≡ returned actions (rejected (after_action m))
  unfolding first_parse_loop ◌>>=◌
  first_parse_loop-error fuel count actions m h k = rw (h, k)

  after_action-room : (m : MriCore S) → next_is_action m ≡ true → room (after_action m) < room m
  after_action-room m h =
      let b = data_view m.session.packet in
      omega (
        arith,
        take_semicolon-takes b h,
        parse_action-shrinks_cleared machine.bytes ((take_semicolon b).1),
      )

  -- The loop keeps the actions in front of the one that cannot be parsed, and throws nothing.
  first_parse_loop-forgets :
      (fuel count : ℕ) {m m' : MriCore S} {actions actions' : Actions}
      → room m < fuel
      → Rounds m actions m' actions'
      → next_is_action m' ≡ true
      → parses m' ≡ false
      → first_parse_loop machine fuel count actions m
        ≡ returned actions' (rejected (after_action m'))
  first_parse_loop-forgets zero count h rounds more bad = absurd (omega arith)
  first_parse_loop-forgets (suc fuel) count {m = m} {actions = actions} h no_more more bad =
      first_parse_loop-error fuel count actions m more bad
  first_parse_loop-forgets (suc fuel) count {m = m} {actions = actions} h
        (one_more next good rounds) more bad =
      first_parse_loop-step fuel count actions m next good
      ∙ first_parse_loop-forgets fuel ((count + 1) % 2 ^ 32)
          (omega (arith, after_action-room m next)) rounds more bad

  -- The state in which `handleVContCommand` starts its first pass
  abbrev pub started : MriCore S → MriCore S
  started m =
      with_session m (with_buffer m.session (clear_exception_code (data_view m.session.packet)))

  -- "vCont" with well-formed actions and then one that cannot be parsed, on a packet buffer with room for the
  -- response "E01", where thread states cannot be set: the handler does not stop with that response, but carries
  -- out the actions in front.
  pub handle_v_cont_command-forgets_error :
      (m m' : MriCore S) (actions : Actions)
      → 7 ≤ machine.packet_size
      → machine.is_set_thread_state_supported ≡ false
      → Rounds (started m) no_actions m' actions
      → next_is_action m' ≡ true
      → parses m' ≡ false
      → handle_v_cont_command machine m
        ≡ handle_single_step_and_continue_commands machine actions (rejected (after_action m'))
  unfolding handle_v_cont_command first_parse_pass ◌>>=◌
  handle_v_cont_command-forgets_error m m' actions h unsupported rounds more bad =
      let passed : first_parse_pass machine no_actions (started m)
          ≡ returned actions (rejected (after_action m')) =
        first_parse_loop-forgets (room (started m) + 1) 0 (omega arith) rounds more bad in
      >>=-returned (first_parse_pass machine no_actions) _ (started m) passed
      ∙ rw (respond-exn (after_action m') h, unsupported)
