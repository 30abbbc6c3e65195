-- ===== src/Monitor/RangedStep.antt =====
-- core/mri.c: which debug exceptions are steps inside of a range, and how each kind goes on.
use mri.Prelude.{
  ℕ, ◌%◌, ◌^◌, ◌<◌, ◌≤◌, ◌≡◌, ◌≢◌, ◌⊎◌, inl, inr, ◌==◌, ◌∙◌, refl, arith, Bool, Bool-cases, true,
  false, leb, ltb, List, if◌then◌else◌, ◌&&◌, ◌||◌,
}
use mri.Context.Core.{ContextSection}
use mri.Monitor.State.{Machine, MriCore}
use mri.Monitor.Monad.{Run, returned, with_session, pure, change_state, ◌>>◌, ◌>>=◌, >>=-returned}
use mri.Monitor.Signal.{sigtrap, sigint, sigsegv, sigbus, sigill}
use mri.Monitor.Breakpoint.{was_temp_breakpoint_hit}
use mri.Monitor.Exception.{
  is_unknown, restore_thread_states, are_single_stepping_in_range, stays_in_range,
  handle_temp_breakpoint, determine_signal_value, debug_exception, enter_debugger,
}

module _ {S : Type 0} (machine : Machine S) where
  abbrev pub signal_of : MriCore S → ℕ
  signal_of m = (machine.determine_cause_of_exception m.session.state).0

  -- The platform's state once it has been asked for the signal, and for a trap then for its reason
  abbrev pub after_signal : MriCore S → S
  after_signal m = (machine.determine_cause_of_exception m.session.state).1

  abbrev pub after_asking : MriCore S → S
  after_asking m =
      if signal_of m == sigtrap
      then (machine.get_trap_reason (after_signal m)).1
      else after_signal m

  abbrev pub pc_of : MriCore S → ℕ
  pc_of m = machine.get_program_counter (after_asking m) % 2 ^ 32

  -- A step of a ranged step that is still in the range, with no interrupt, fault or breakpoint
  pub record GoesOn (m : MriCore S) : Type 0 where
    pub ranged : m.ranged_single_step ≡ true
    pub no_interrupt : signal_of m ≢ sigint
    pub no_segmentation_fault : signal_of m ≢ sigsegv
    pub no_bus_fault : signal_of m ≢ sigbus
    pub no_illegal_instruction : signal_of m ≢ sigill
    pub no_breakpoint :
        (signal_of m ≢ sigtrap)
        ⊎ (is_unknown (machine.get_trap_reason (after_signal m)).0.type ≡ true)
    pub from_start : m.range_for_single_stepping.start ≤ pc_of m
    pub before_last : pc_of m < m.range_for_single_stepping.last

  -- The same as the code tests it
  abbrev interrupted : MriCore S → Bool
  interrupted m =
      let s = signal_of m in s == sigint || (s == sigsegv || (s == sigbus || s == sigill))

  abbrev stepping_test : MriCore S → Bool
  stepping_test m =
      if interrupted m
      then false
      else if signal_of m == sigtrap
      then is_unknown (machine.get_trap_reason (after_signal m)).0.type && m.ranged_single_step
      else m.ranged_single_step

  abbrev range_test : MriCore S → Bool
  range_test m =
      stepping_test m
      && (leb m.range_for_single_stepping.start (pc_of m)
          && ltb (pc_of m) m.range_for_single_stepping.last)

  range_test-GoesOn : (m : MriCore S) → range_test m ≡ true → GoesOn m
  range_test-GoesOn m h = record {
    ranged = ground (arith, h);
    no_interrupt = ground (arith, h);
    no_segmentation_fault = ground (arith, h);
    no_bus_fault = ground (arith, h);
    no_illegal_instruction = ground (arith, h);
    no_breakpoint = ground (arith, h);
    from_start = ground (arith, h);
    before_last = ground (arith, h);
  }

  GoesOn-range_test : (m : MriCore S) → GoesOn m → range_test m ≡ true
  GoesOn-range_test m g = ground (
    arith, g.ranged, g.no_interrupt, g.no_segmentation_fault, g.no_bus_fault,
    g.no_illegal_instruction, g.no_breakpoint, g.from_start, g.before_last,
  )

  -- The monitor once the exception has begun, with the signal, in a state of the platform
  abbrev begun : List ContextSection → MriCore S → MriCore S
  begun context m =
      with_session (record m { context = context })
        (record m.session { packet = record m.session.packet { control_c = false } })

  abbrev pub signalled : List ContextSection → MriCore S → S → MriCore S
  signalled context m state = record (begun context m) {
    signal_value = signal_of m;
    session = record (begun context m).session { state = state };
  }

  -- The platform's state when the program goes on
  abbrev pub resumed : S → S
  resumed state =
      if machine.is_set_thread_state_supported
      then machine.restore_prev_thread_state state
      else state

  restore_thread_states-lem :
      (context : List ContextSection) (m : MriCore S) (state : S)
      → restore_thread_states machine (signalled context m state)
        ≡ returned tt (signalled context m (resumed state))
  unfolding restore_thread_states
  restore_thread_states-lem context m state = go machine.is_set_thread_state_supported
    where
      go :
          (t : Bool)
          → (if◌then◌else◌ {A = Run S (Unit {0})} t
                (change_state machine.restore_prev_thread_state)
                (pure tt))
              (signalled context m state)
            ≡ returned tt
                (signalled context m (if t then machine.restore_prev_thread_state state else state))
      go true = refl
      go false = refl

  handle_temp_breakpoint-unset :
      (m : MriCore S)
      → m.temp_breakpoint ≡ false
      → handle_temp_breakpoint machine m ≡ returned false m
  unfolding handle_temp_breakpoint was_temp_breakpoint_hit ◌>>=◌
  handle_temp_breakpoint-unset m h = rw h

  are_single_stepping_in_range-lem :
      (context : List ContextSection) (m : MriCore S)
      → are_single_stepping_in_range machine (signalled context m (after_signal m))
        ≡ returned (stepping_test m) (signalled context m (after_asking m))
  unfolding are_single_stepping_in_range ◌>>=◌
  are_single_stepping_in_range-lem context m = elim (Bool-cases (interrupted m)) [
    | inl stopped ↦
        let no_trap : (signal_of m == sigtrap) ≡ false = ground (arith, stopped) in
        rw (stopped, no_trap)
    | inr quiet ↦ elim (Bool-cases (signal_of m == sigtrap)) [
      | inl trap ↦ rw (quiet, trap)
      | inr other ↦ rw (quiet, other)
    ]
  ]

  stays_in_range-lem :
      (context : List ContextSection) (m : MriCore S)
      → stays_in_range machine (signalled context m (after_signal m))
        ≡ returned (range_test m) (signalled context m (after_asking m))
  unfolding stays_in_range ◌>>=◌
  stays_in_range-lem context m =
      >>=-returned (are_single_stepping_in_range machine) _ (signalled context m (after_signal m))
        (are_single_stepping_in_range-lem context m)

  signalled-decides :
      (context : List ContextSection) (m : MriCore S)
      → m.temp_breakpoint ≡ false
      → debug_exception machine context m
        ≡ (if range_test m
              then change_state machine.disable_single_step
                >> (change_state machine.enable_single_step >> restore_thread_states machine)
              else enter_debugger machine (machine.is_single_stepping m.session.state))
            (signalled context m (after_asking m))
  unfolding debug_exception determine_signal_value ◌>>=◌
  signalled-decides context m unset =
      >>=-returned (handle_temp_breakpoint machine) _ (begun context m)
        (handle_temp_breakpoint-unset (begun context m) unset)
      ∙ >>=-returned (stays_in_range machine) _ (signalled context m (after_signal m))
          (stays_in_range-lem context m)

  -- A debug exception with no temporary breakpoint set. The program counter and the reason of a trap are those that
  -- the platform gives behind the signal. If a ranged step is on, the signal is none of SIGINT, SIGSEGV, SIGBUS and
  -- SIGILL, a SIGTRAP has no known reason, and the program counter is in the range, it returns at once, with the
  -- platform set to step again and nothing else changed but the context, the signal and the flag of control-C;
  -- and if any of these fails, it goes on as `mriDebugException` does from `clearSingleSteppingInRange` on.
  pub debug_exception-decides :
      (context : List ContextSection) (m : MriCore S)
      → m.temp_breakpoint ≡ false
      → (GoesOn m
          × (debug_exception machine context m
              ≡ returned tt (
                  signalled context m (
                    resumed (
                      machine.enable_single_step (machine.disable_single_step (after_asking m)))))))
        ⊎ ((¬ GoesOn m)
            × (debug_exception machine context m
                ≡ enter_debugger machine
                    (machine.is_single_stepping m.session.state)
                    (signalled context m (after_asking m))))
  unfolding ◌>>=◌
  debug_exception-decides context m unset = elim (Bool-cases (range_test m)) [
    | inl inside ↦ inl (
      range_test-GoesOn m inside,
      signalled-decides context m unset
          ∙ rw inside (
              restore_thread_states-lem context m
                (machine.enable_single_step (machine.disable_single_step (after_asking m)))),
    )
    | inr outside ↦ inr (
      λ g. absurd (ground (arith, outside, GoesOn-range_test m g)),
      signalled-decides context m unset ∙ rw outside,
    )
  ]
