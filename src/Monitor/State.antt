-- ===== src/Monitor/State.antt =====
-- core/mri.c: the state of the monitor, `MriCore`, and the types of core/platforms.h and core/core.h that
-- it and the handlers use.
use mri.Prelude.{ℕ, Bool, false, true, ◌||◌, List, Option}
use mri.Buffer.Core.{Buffer}
use mri.Memory.Platform.{Platform}
use mri.Context.Core.{ContextSection}
use mri.Commands.BreakWatch.{Comparators}
use mri.Commands.Session.{Session}
use mri.Token.Core.{Token}

-- The bits of a handler's return value, `HANDLER_RETURN_…`
pub record HandlerReturn : Type 0 where
  pub resume_program : Bool
  pub return_immediately : Bool
  pub skipped_over_break : Bool
  pub handled : Bool

abbrev pub nothing : HandlerReturn
nothing = record {
  resume_program = false;
  return_immediately = false;
  skipped_over_break = false;
  handled = false;
}

abbrev pub only_immediately : HandlerReturn
only_immediately = record nothing { return_immediately = true }

abbrev pub only_resume : HandlerReturn
only_resume = record nothing { resume_program = true }

abbrev pub only_skipped : HandlerReturn
only_skipped = record nothing { skipped_over_break = true }

abbrev pub resume_immediately : HandlerReturn
resume_immediately = record only_resume { return_immediately = true }

-- `a | b`
abbrev pub combine : HandlerReturn → HandlerReturn → HandlerReturn
combine a b = record {
  resume_program = a.resume_program || b.resume_program;
  return_immediately = a.return_immediately || b.return_immediately;
  skipped_over_break = a.skipped_over_break || b.skipped_over_break;
  handled = a.handled || b.handled;
}

-- `returnValue != 0`
abbrev pub is_set : HandlerReturn → Bool
is_set r = r.resume_program || (r.return_immediately || (r.skipped_over_break || r.handled))

-- `PlatformTrapType` and `PlatformTrapReason`
pub data PlatformTrapType : Type 0 where
  unknown hwbreak swbreak watch rwatch awatch : PlatformTrapType

pub record PlatformTrapReason : Type 0 where
  pub type : PlatformTrapType
  pub address : ℕ

-- `PlatformInstructionType`
pub data PlatformInstructionType : Type 0 where
  other arm_semihost_call newlib_semihost_call hardcoded_breakpoint : PlatformInstructionType

-- `PlatformThreadState`
pub data PlatformThreadState : Type 0 where
  frozen thawed single_stepping : PlatformThreadState

-- `PlatformSemihostParameters`
pub record PlatformSemihostParameters : Type 0 where
  pub parameter1 : ℕ
  pub parameter2 : ℕ
  pub parameter3 : ℕ
  pub parameter4 : ℕ

-- `AddressRange`
pub record AddressRange : Type 0 where
  pub start : ℕ
  pub last : ℕ

-- `MRI_PLATFORM_ALL_THREADS` and `MRI_PLATFORM_ALL_FROZEN_THREADS`
abbrev pub all_threads : ℕ
all_threads = 4294967295

abbrev pub all_frozen_threads : ℕ
all_frozen_threads = 4294967294

-- `Platform_…` of core/platforms.h, over the platform's state; a routine that can throw gives the code of
-- its exception, 0 for none. `fault_cause` are the texts that `Platform_DisplayFaultCauseToGdbConsole`
-- writes, and `transmit_time` is how often `Platform_CommHasTransmitCompleted` is asked before it holds.
-- `memory_bytes` and `set_memory_bytes` are accesses by a pointer of the debuggee, and `file_stats_address`
-- is where the local `gdbFileStats` of semihost/arm/semihost_arm.c lies. `hook_at` is the function of the
-- debuggee at an address, applied to its context.
pub record Machine (S : Type 0) : Type 0 where
  pub bytes : ℕ
  pub packet_start : ℕ
  pub packet_size : ℕ
  pub always_hardware : Bool
  pub memory : Platform S
  pub comparators : Comparators S
  pub sync_icache_to_dcache : ℕ → ℕ → S → S
  pub handle_platform_command : Buffer → S → HandlerReturn × Buffer × S
  pub entering_debugger : S → S
  pub leaving_debugger : S → S
  pub determine_cause_of_exception : S → ℕ × S
  pub get_trap_reason : S → PlatformTrapReason × S
  pub fault_cause : S → List (List ℕ) × S
  pub enable_single_step : S → S
  pub disable_single_step : S → S
  pub is_single_stepping : S → Bool
  pub get_program_counter : S → ℕ
  pub set_program_counter : ℕ → S → S
  pub advance_program_counter : S → S
  pub was_program_counter_modified : S → Bool
  pub type_of_current_instruction : S → PlatformInstructionType × S
  pub write_t_response_registers : Buffer → S → Buffer
  pub memory_map_xml : List ℕ
  pub memory_map_xml_size : ℕ
  pub target_xml : List ℕ
  pub target_xml_size : ℕ
  pub set_hardware_breakpoint : ℕ → S → ℕ × S
  pub clear_hardware_breakpoint : ℕ → S → ℕ × S
  pub register_words : S → List ℕ
  pub with_register_words : List ℕ → S → S
  pub halted_thread_id : S → ℕ
  pub first_thread_id : S → ℕ × S
  pub next_thread_id : S → ℕ × S
  pub extra_thread_info : ℕ → S → Option (List ℕ)
  pub thread_context : ℕ → S → Option (List ContextSection)
  pub is_thread_active : ℕ → S → Bool
  pub is_set_thread_state_supported : Bool
  pub set_thread_state : ℕ → PlatformThreadState → S → S
  pub restore_prev_thread_state : S → S
  pub transmit_time : S → ℕ
  pub has_transmit_completed : S → Bool × S
  pub reset_device : S → S
  pub get_semihost_call_parameters : S → PlatformSemihostParameters
  pub get_newlib_semihost_operation : S → ℕ
  pub set_semihost_call_return_and_errno_values : ℕ → ℕ → S → S
  pub read_memory : ℕ → ℕ → S → List ℕ
  pub memory_bytes : ℕ → ℕ → S → List ℕ
  pub set_memory_bytes : ℕ → List ℕ → S → S
  pub uid : List ℕ
  pub file_stats_address : ℕ
  pub hook_at : ℕ → ℕ → Option (S → S)
  pub platform_init : Token → S → ℕ × S

-- `MriCore`: its bit flags are one field each, but for `MRI_FLAGS_ENCOUNTERED_CTRL_C`, which the packet has.
-- A callback comes with its context, and works on the platform's state; `none` is NULL. `context` are the
-- sections of `pContext`, whose words are the platform's. An `int` is its 32-bit pattern.
pub record MriCore (S : Type 0) : Type 0 where
  pub session : Session S
  pub temp_breakpoint_callback : Option (S → Bool × S)
  pub entering_hook : Option (S → S)
  pub leaving_hook : Option (S → S)
  pub context : List ContextSection
  pub temp_breakpoint_address : ℕ
  pub successful_init : Bool
  pub first_exception : Bool
  pub semihost_control_c : Bool
  pub temp_breakpoint : Bool
  pub reset_on_continue : Bool
  pub ranged_single_step : Bool
  pub range_for_single_stepping : AddressRange
  pub semihost_return_code : ℕ
  pub semihost_errno : ℕ
  pub signal_value : ℕ
