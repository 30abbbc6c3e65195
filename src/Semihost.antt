-- ===== src/Semihost.antt =====
-- semihost/semihost.c: the calls that the debuggee makes of its host.
pub mod Console
pub mod Arm
pub mod Newlib
use mri.Prelude.{Bool, true, false}
use mri.Monitor.State.{
  Machine, PlatformInstructionType, PlatformSemihostParameters, other, arm_semihost_call,
  newlib_semihost_call, hardcoded_breakpoint,
}
use mri.Monitor.Monad.{Run, ◌>>=◌, pure, ask, on_state}
use Arm.{handle_arm_semihost_request}
use Newlib.{handle_newlib_semihost_request}

-- The test of `Semihost_IsDebuggeeMakingSemihostCall`
abbrev pub is_semihost_call : PlatformInstructionType → Bool
is_semihost_call other = false
is_semihost_call arm_semihost_call = true
is_semihost_call newlib_semihost_call = true
is_semihost_call hardcoded_breakpoint = false

module _ {S : Type 0} (machine : Machine S) where
  -- `Semihost_IsDebuggeeMakingSemihostCall`
  unfoldable pub is_debuggee_making_semihost_call : Run S Bool
  is_debuggee_making_semihost_call = do
    type ← on_state machine.type_of_current_instruction
    pure (is_semihost_call type)

  -- The choice of `Semihost_HandleSemihostRequest`
  unfoldable pub handle_request_of_type :
      PlatformInstructionType → PlatformSemihostParameters → Run S Bool
  handle_request_of_type other parameters = pure false
  handle_request_of_type arm_semihost_call parameters =
      handle_arm_semihost_request machine parameters
  handle_request_of_type newlib_semihost_call parameters =
      handle_newlib_semihost_request machine parameters
  handle_request_of_type hardcoded_breakpoint parameters = pure false

  -- `Semihost_HandleSemihostRequest`
  unfoldable pub handle_semihost_request : Run S Bool
  handle_semihost_request = do
    type ← on_state machine.type_of_current_instruction
    parameters ← ask machine.get_semihost_call_parameters
    handle_request_of_type type parameters
