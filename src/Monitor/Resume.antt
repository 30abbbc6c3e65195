-- ===== src/Monitor/Resume.antt =====
-- core/cmd_continue.c: what 'c' and 'D' do to the program.
use mri.Prelude.{
  ℕ, ◌%◌, ◌^◌, ◌≡◌, ◌∙◌, refl, sym, subst, ◌||◌, Bool, Bool-cases, inl, inr, true, false,
  if◌then◌else◌,
}
use mri.Buffer.Core.{Buffer, no_throw, clear_exception_code}
use mri.Commands.Arguments.{read_uinteger_argument}
use mri.Packet.Link.{data_view}
use mri.Monitor.State.{
  Machine, MriCore, HandlerReturn, all_threads, thawed, nothing, only_skipped, combine,
  resume_immediately,
}
use mri.Commands.Session.{with_buffer}
use mri.Monitor.Monad.{pure, change_state, returned, with_session, ◌>>=◌, ◌>>◌, >>=-returned}
use mri.Monitor.Continue.{
  is_hardcoded_breakpoint, is_current_instruction_hardcoded_breakpoint,
  should_skip_hardcoded_breakpoint, skip_hardcoded_breakpoint, thaw_all_threads, continue_execution,
  handle_continue_command,
}

or_false : (a : Bool) → (a || false) ≡ a
or_false true = refl
or_false false = refl

module _ {S : Type 0} (machine : Machine S) where
  -- How the platform's state changes as a hard-coded breakpoint is skipped, and whether there was one: the
  -- instruction is asked for only if the user has not moved the program counter.
  pub data Skips (state : S) : Bool → S → Type 0 where
    moved : machine.was_program_counter_modified state ≡ true → Skips state false state
    no_breakpoint :
        machine.was_program_counter_modified state ≡ false
        → is_hardcoded_breakpoint (machine.type_of_current_instruction state).0 ≡ false
        → Skips state false (machine.type_of_current_instruction state).1
    breakpoint :
        machine.was_program_counter_modified state ≡ false
        → is_hardcoded_breakpoint (machine.type_of_current_instruction state).0 ≡ true
        → Skips state true
            (machine.advance_program_counter (machine.type_of_current_instruction state).1)

  -- The state with all threads thawed, on a platform with such states
  abbrev pub with_thawed : S → S
  with_thawed state =
      if machine.is_set_thread_state_supported
      then machine.set_thread_state all_threads thawed state
      else state

  abbrev pub in_state : MriCore S → S → MriCore S
  in_state m state = with_session m (record m.session { state = state })

  pub thaw_all_threads-lem :
      (m : MriCore S)
      → thaw_all_threads machine m ≡ returned tt (in_state m (with_thawed m.session.state))
  unfolding thaw_all_threads
  thaw_all_threads-lem m = elim (Bool-cases machine.is_set_thread_state_supported) [
    | inl has ↦ rw has
    | inr lacks ↦ rw lacks
  ]

  abbrev skip_result : Bool → HandlerReturn
  skip_result skipped = record nothing { skipped_over_break = skipped }

  should_skip_hardcoded_breakpoint-cases :
      (m : MriCore S)
      → (skipped : Bool) × (state : S) × (should_skip_hardcoded_breakpoint machine m
          ≡ returned skipped (in_state m state))
        × Skips m.session.state skipped
            (if skipped then machine.advance_program_counter state else state)
  unfolding should_skip_hardcoded_breakpoint is_current_instruction_hardcoded_breakpoint ◌>>=◌
  should_skip_hardcoded_breakpoint-cases m =
      let state = m.session.state in
      let instruction = machine.type_of_current_instruction state in
      elim (Bool-cases (machine.was_program_counter_modified state)) [
        | inl has ↦ (false, state, rw has, moved has)
        | inr lacks ↦ elim (Bool-cases (is_hardcoded_breakpoint instruction.0)) [
          | inl hard ↦ (true, instruction.1, rw (lacks, hard), breakpoint lacks hard)
          | inr soft ↦ (false, instruction.1, rw (lacks, soft), no_breakpoint lacks soft)
        ]
      ]

  pub skip_hardcoded_breakpoint-Skips :
      (m : MriCore S)
      → (skipped : Bool) × (state : S) × (skip_hardcoded_breakpoint machine m
          ≡ returned (skip_result skipped) (in_state m state))
        × Skips m.session.state skipped state
  unfolding skip_hardcoded_breakpoint ◌>>=◌
  skip_hardcoded_breakpoint-Skips m =
      let (skipped, state, e, skips) = should_skip_hardcoded_breakpoint-cases m in
      (
        skipped,
        if skipped then machine.advance_program_counter state else state,
        >>=-returned (should_skip_hardcoded_breakpoint machine) _ m e ∙ go skipped state,
        skips,
      )
    where
      go :
          (skipped : Bool) (state : S)
          → (if skipped
                then change_state machine.advance_program_counter >> pure only_skipped
                else pure nothing)
              (in_state m state)
            ≡ returned
                (skip_result skipped)
                (in_state m (if skipped then machine.advance_program_counter state else state))
      go true state = refl
      go false state = refl

  -- The state once a new program counter is set, if there is one
  abbrev pub with_pc : Bool → ℕ → S → S
  with_pc set_pc new_pc state = if set_pc then machine.set_program_counter new_pc state else state

  set_pc-lem :
      (set_pc : Bool) (new_pc : ℕ) (m : MriCore S)
      → (if set_pc then change_state (machine.set_program_counter new_pc) else pure tt) m
        ≡ returned tt (in_state m (with_pc set_pc new_pc m.session.state))
  set_pc-lem true new_pc m = refl
  set_pc-lem false new_pc m = refl

  continue_execution-Skips :
      (set_pc : Bool) (new_pc : ℕ) (m : MriCore S)
      → (skipped : Bool) × (state : S) × (continue_execution machine set_pc new_pc m
          ≡ returned
              (combine (skip_result skipped) resume_immediately)
              (in_state m (with_pc set_pc new_pc state)))
        × Skips (with_thawed m.session.state) skipped state
  unfolding continue_execution ◌>>=◌
  continue_execution-Skips set_pc new_pc m =
      let m₁ = in_state m (with_thawed m.session.state) in
      let (skipped, state, e, skips) = skip_hardcoded_breakpoint-Skips m₁ in
      (
        skipped,
        state,
        >>=-returned (thaw_all_threads machine) _ m (thaw_all_threads-lem m)
            ∙ >>=-returned (skip_hardcoded_breakpoint machine) _ m₁ e
            ∙ >>=-returned
                (if set_pc then change_state (machine.set_program_counter new_pc) else pure tt)
                (λ u. pure (combine (skip_result skipped) resume_immediately)) (in_state m₁ state)
                (set_pc-lem set_pc new_pc (in_state m₁ state)),
        skips,
      )

  -- The argument of 'c', and the buffer behind it
  abbrev pub argument : MriCore S → ℕ × Buffer
  argument m =
      read_uinteger_argument machine.bytes (clear_exception_code (data_view m.session.packet))

  -- `HandleContinueCommand`, from every state: it returns, with no exception, and has the program resumed at once
  -- and no response sent. The platform has been asked to thaw all threads, if it has thread states; then a
  -- hard-coded breakpoint has been skipped, unless the user has moved the program counter, and the result says
  -- whether one was; and last the program counter has been set to the argument, cut to 32 bits, if that could
  -- be read.
  pub handle_continue_command-Skips :
      (m : MriCore S)
      → (result : HandlerReturn) × (m' : MriCore S) × (state : S) × (handle_continue_command machine
            m
          ≡ returned result m')
        × Skips (with_thawed m.session.state) result.skipped_over_break state
        × (m'.session.state ≡ with_pc (no_throw ((argument m).1)) ((argument m).0 % 2 ^ 32) state)
        × (result.resume_program ≡ true)
        × (result.return_immediately ≡ true)
        × (no_throw (data_view m'.session.packet) ≡ true)
  unfolding handle_continue_command ◌>>=◌
  handle_continue_command-Skips m = elim (Bool-cases (no_throw ((argument m).1))) [
    | inl fine ↦
        let m₁ = with_session m (with_buffer m.session (argument m).1) in
        let (skipped, state, e, skips) =
          continue_execution-Skips true ((argument m).0 % 2 ^ 32) m₁ in
        (
          combine (skip_result skipped) resume_immediately,
          in_state m₁ (machine.set_program_counter ((argument m).0 % 2 ^ 32) state),
          state,
          rw fine e,
          subst (λ k. Skips (with_thawed m.session.state) k state) (sym (or_false skipped)) skips,
          rw fine,
          refl,
          refl,
          fine,
        )
    | inr thrown ↦
        let m₁ = with_session m (with_buffer m.session (clear_exception_code ((argument m).1))) in
        let (skipped, state, e, skips) = continue_execution-Skips false 0 m₁ in
        (
          combine (skip_result skipped) resume_immediately,
          in_state m₁ state,
          state,
          rw thrown e,
          subst (λ k. Skips (with_thawed m.session.state) k state) (sym (or_false skipped)) skips,
          rw thrown,
          refl,
          refl,
          refl,
        )
  ]
