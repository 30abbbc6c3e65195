-- ===== src/Monitor/VCont/Passes.antt =====
-- core/cmd_vcont.c: the two passes over the actions of a "vCont".
use mri.Prelude.{
  ℕ, zero, suc, ◌+◌, ◌%◌, ◌^◌, Bool, true, false, not, ◌&&◌, ltb, ◌==◌, if◌then◌else◌,
}
use mri.TryCatch.{invalid_argument_exception}
use mri.Buffer.Core.{Buffer, bytes_left, throw}
use mri.Packet.Link.{Span, view, pointers, data_view}
use mri.Commands.Session.{mri_error_invalid_argument}
use mri.Monitor.State.{
  Machine, HandlerReturn, AddressRange, thawed, single_stepping, nothing, combine,
  resume_immediately, all_threads, all_frozen_threads,
}
use mri.Monitor.Monad.{
  Run, out_of_fuel, with_session, ◌>>=◌, ◌>>◌, pure, gets, ask, on_buffer, change_buffer,
  change_state, clear_exception, attempt, branch,
}
use mri.Monitor.Console.{respond}
use mri.Monitor.Continue.{take_semicolon}
use mri.Monitor.VCont.Parse.{
  ActionType, Action, ThreadId, ThreadIdType, thread_id_all, thread_id_none, thread_id_specific,
  action_none, action_continue, action_single_step, action_ranged_single_step, is_action_none,
  plain_action, parse_action,
}

-- `continueAction` and `stepAction`
pub record Actions : Type 0 where
  pub continuing : Action
  pub step : Action

abbrev pub no_actions : Actions
no_actions = record { continuing = plain_action action_none; step = plain_action action_none }

-- `SetSingleSteppingRange`
abbrev pub set_single_stepping_range : {S : Type 0} → AddressRange → Run S (Unit {0})
set_single_stepping_range range m =
    pure tt (record m { range_for_single_stepping = range; ranged_single_step = true })

module _ {S : Type 0} (machine : Machine S) where
  -- The first test of `isActionSpecificToHaltedThreadId` and of the other one
  abbrev is_specific : ThreadIdType → Bool
  is_specific thread_id_all = false
  is_specific thread_id_none = false
  is_specific thread_id_specific = true

  -- `isActionSpecificToNonHaltedThreadId`
  abbrev pub is_specific_to_non_halted_thread : S → Action → Bool
  is_specific_to_non_halted_thread s action =
      is_specific action.thread_id.type && not (action.thread_id.id == machine.halted_thread_id s)

  -- `isActionSpecificToHaltedThreadId`
  abbrev pub is_specific_to_halted_thread : S → Action → Bool
  is_specific_to_halted_thread s action =
      is_specific action.thread_id.type && action.thread_id.id == machine.halted_thread_id s

  -- The tests of `getActionPriority` from the third on, by the kind of thread
  unfoldable pub priority_of_thread : S → Action → ThreadIdType → ℕ
  priority_of_thread s action thread_id_none = 1
  priority_of_thread s action thread_id_all = 3
  priority_of_thread s action thread_id_specific =
      if not machine.is_set_thread_state_supported && is_specific_to_non_halted_thread s action
      then 2
      else if is_specific_to_halted_thread s action
      then 4
      else 0

  -- `getActionPriority`
  unfoldable pub get_action_priority : S → Action → ℕ
  get_action_priority s action =
      if is_action_none action.type
      then 0
      else if machine.is_set_thread_state_supported && is_specific_to_non_halted_thread s action
      then 0
      else priority_of_thread s action action.thread_id.type

  -- `isActionMoreSpecificThanCurrent`
  unfoldable pub is_action_more_specific : S → Action → Action → Bool
  is_action_more_specific s current new =
      ltb (get_action_priority s current) (get_action_priority s new)

  -- The `switch` of `firstParsePass`
  unfoldable pub keep_more_specific : S → Action → Actions → ActionType → Actions
  keep_more_specific s action actions action_none = actions
  keep_more_specific s action actions action_continue =
      if is_action_more_specific s actions.continuing action
      then record actions { continuing = action }
      else actions
  keep_more_specific s action actions action_single_step =
      if is_action_more_specific s actions.step action
      then record actions { step = action }
      else actions
  keep_more_specific s action actions action_ranged_single_step =
      if is_action_more_specific s actions.step action
      then record actions { step = action }
      else actions

  -- `PrepareStringResponse(MRI_ERROR_INVALID_ARGUMENT); __throw(invalidArgumentException);`
  unfoldable pub reject : Actions → Run S Actions
  reject actions = do
    respond machine mri_error_invalid_argument
    change_buffer (throw invalid_argument_exception)
    pure actions

  -- The tests of `firstParsePass` behind its loop
  unfoldable pub finish_first_pass : ℕ → Actions → Run S Actions
  finish_first_pass action_count actions = do
    left ← gets (λ m. bytes_left (data_view m.session.packet))
    if ltb 0 left
        then reject actions
        else if not machine.is_set_thread_state_supported
            && (is_action_none actions.continuing.type && is_action_none actions.step.type)
        then reject actions
        else if machine.is_set_thread_state_supported && action_count == 0
        then reject actions
        else pure actions

  -- The `while` of `firstParsePass`, and what follows it. A round takes the ';', so the bytes left and one
  -- more are enough fuel.
  unfoldable pub first_parse_loop : ℕ → ℕ → Actions → Run S Actions
  first_parse_loop zero action_count actions m = out_of_fuel
  first_parse_loop (suc fuel) action_count actions m =
      let rest = first_parse_loop fuel ((action_count + 1) % 2 ^ 32) in
      branch (on_buffer take_semicolon)
        (clear_exception
          >> attempt (on_buffer (parse_action machine.bytes))
              (respond machine mri_error_invalid_argument >> pure actions)
              (λ action. ask (λ s. keep_more_specific s action actions action.type) >>= rest))
        (finish_first_pass action_count actions) m

  -- `firstParsePass`
  unfoldable pub first_parse_pass : Actions → Run S Actions
  first_parse_pass actions m =
      first_parse_loop (bytes_left (data_view m.session.packet) + 1) 0 actions m

  -- `getThreadIdFromAction`
  abbrev pub thread_id_from : ThreadId → ThreadIdType → ℕ
  thread_id_from thread thread_id_none = all_frozen_threads
  thread_id_from thread thread_id_all = all_threads
  thread_id_from thread thread_id_specific = thread.id

  -- The `switch` of `handleActionWithSetThreadState`
  unfoldable pub apply_action : ℕ → AddressRange → ActionType → Run S HandlerReturn
  apply_action thread_id range action_none = pure nothing
  apply_action thread_id range action_continue = do
    change_state (machine.set_thread_state thread_id thawed)
    pure resume_immediately
  apply_action thread_id range action_single_step = do
    change_state (machine.set_thread_state thread_id single_stepping)
    change_state machine.enable_single_step
    pure resume_immediately
  apply_action thread_id range action_ranged_single_step = do
    change_state (machine.set_thread_state thread_id single_stepping)
    change_state machine.enable_single_step
    set_single_stepping_range range
    pure resume_immediately

  -- `handleActionWithSetThreadState`
  abbrev pub handle_action_with_set_thread_state : Action → Run S HandlerReturn
  handle_action_with_set_thread_state action =
      apply_action (thread_id_from action.thread_id action.thread_id.type) action.range action.type

  -- A routine of core/buffer.c on `replayBuffer`, a copy of the pointers of `GetBuffer()`
  abbrev pub on_replay {ℓ} : {A : Type ℓ} → Span → (Buffer → A × Buffer) → Run S (A × Span)
  on_replay span routine m =
      let l = m.session.packet in
      let result = routine (view l span) in
      let b = result.1 in
      pure (result.0, pointers b)
        (with_session m (record m.session { packet = record l { mem = b.mem; exn = b.exn } }))

  -- The `while` of `secondParsePass`
  unfoldable pub second_parse_loop : ℕ → Span → HandlerReturn → Run S HandlerReturn
  second_parse_loop zero span return_value m = out_of_fuel
  second_parse_loop (suc fuel) span return_value m =
      let rest = second_parse_loop fuel in
      (do
        (more, behind) ← on_replay span take_semicolon
        if more
            then (do
              (action, next) ← on_replay behind (parse_action machine.bytes)
              handled ← handle_action_with_set_thread_state action
              rest next (combine return_value handled))
            else pure return_value)
        m

  -- `secondParsePass`
  unfoldable pub second_parse_pass : Span → Run S HandlerReturn
  second_parse_pass replay m =
      second_parse_loop (bytes_left (view m.session.packet replay) + 1) replay nothing m
