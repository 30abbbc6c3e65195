-- ===== src/Monitor/Init.antt =====
-- core/mri.c: `mriInit`.
use mri.Prelude.{ℕ, true, false, List, [], none}
use mri.Packet.Link.{Link, Span}
use mri.Token.Core.{Token, init_tokens}
use mri.Token.Split.{split_string}
use mri.Monitor.State.{Machine, MriCore}
use mri.Monitor.Monad.{Run, ◌>>◌, pure, on_buffer, clear_exception, attempt}
use mri.Monitor.Breakpoint.{on_platform}

abbrev no_span : Span
no_span = record { start = 0; last = 0; current = 0 }

module _ {S : Type 0} (machine : Machine S) where
  -- `mri_memset` of the pointers and numbers of a `Packet`
  abbrev cleared_packet : Link → Link
  cleared_packet l = record l {
    packet_buffer = no_span;
    data_buffer = no_span;
    last_char = 0;
    calculated_checksum = 0;
    expected_checksum = 0;
    control_c = false;
  }

  -- The core after `clearCoreStructure`
  abbrev pub cleared_core : MriCore S → MriCore S
  cleared_core m = record {
    session = record m.session { packet = cleared_packet m.session.packet };
    temp_breakpoint_callback = none;
    entering_hook = none;
    leaving_hook = none;
    context = [];
    temp_breakpoint_address = 0;
    successful_init = false;
    first_exception = false;
    semihost_control_c = false;
    temp_breakpoint = false;
    reset_on_continue = false;
    ranged_single_step = false;
    range_for_single_stepping = record { start = 0; last = 0 };
    semihost_return_code = 0;
    semihost_errno = 0;
    signal_value = 0;
  }

  -- `clearCoreStructure`
  unfoldable pub clear_core_structure : Run S (Unit {0})
  clear_core_structure m = pure tt (cleared_core m)

  -- `Token_SplitString` of `initializePlatformSpecificModulesWithDebuggerParameters`
  abbrev split_parameters : Token → List ℕ → Run S Token
  split_parameters tokens parameters = on_buffer (λ b.
      let t = split_string (record (init_tokens tokens) { exn = b.exn }) parameters in
      (t, record b { exn = t.exn }))

  -- `initializePlatformSpecificModulesWithDebuggerParameters`; `tokens` is what the memory of the local
  -- object holds before.
  unfoldable pub initialize_platform : Token → List ℕ → Run S (Unit {0})
  initialize_platform tokens parameters = do
    clear_exception
    attempt (split_parameters tokens parameters) (pure tt)
        (λ t. on_platform (machine.platform_init t))

  -- `setFirstExceptionFlag` and `setSuccessfulInitFlag`
  abbrev set_init_flags : Run S (Unit {0})
  set_init_flags m = pure tt (record m { first_exception = true; successful_init = true })

  -- `mriInit`
  unfoldable pub mri_init : Token → List ℕ → Run S (Unit {0})
  mri_init tokens parameters = do
    clear_core_structure
    clear_exception
    attempt (initialize_platform tokens parameters) (pure tt) (λ u. set_init_flags)
