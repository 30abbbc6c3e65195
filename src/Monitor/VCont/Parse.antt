-- ===== src/Monitor/VCont/Parse.antt =====
-- core/cmd_vcont.c: the actions of a "vCont", read from the text.
use mri.Prelude.{ℕ, ◌%◌, ◌^◌, Bool, true, false, ◌==◌, if◌then◌else◌}
use mri.TryCatch.{invalid_argument_exception}
use mri.Libc.{literal}
use mri.Buffer.Core.{Buffer, clear_exception_code, no_throw, throw, bytes_left}
use mri.Buffer.Bytes.{read_char, read_byte_as_hex}
use mri.Buffer.Integers.{is_next_char_equal_to, read_uinteger_as_hex}
use mri.Buffer.Matching.{matches_string}
use mri.Commands.Arguments.{throw_if_next_char_is_not_equal_to}
use mri.Monitor.State.{AddressRange}

-- `ThreadIdType` and `ThreadId`
pub data ThreadIdType : Type 0 where
  thread_id_all thread_id_none thread_id_specific : ThreadIdType

pub record ThreadId : Type 0 where
  pub id : ℕ
  pub type : ThreadIdType

-- `ActionType` and `Action`
pub data ActionType : Type 0 where
  action_none action_continue action_single_step action_ranged_single_step : ActionType

pub record Action : Type 0 where
  pub thread_id : ThreadId
  pub range : AddressRange
  pub type : ActionType

abbrev pub is_action_none : ActionType → Bool
is_action_none action_none = true
is_action_none action_continue = false
is_action_none action_single_step = false
is_action_none action_ranged_single_step = false

abbrev pub no_thread : ThreadId
no_thread = record { id = 0; type = thread_id_none }

abbrev pub no_range : AddressRange
no_range = record { start = 0; last = 0 }

-- `Action action = { {THREAD_ID_NONE, 0}, {0, 0}, type };`
abbrev pub plain_action : ActionType → Action
plain_action type = record { thread_id = no_thread; range = no_range; type = type }

module _ (bytes : ℕ) where
  -- `parseOptionalThreadId`; the thread is kept in a `uint32_t`.
  unfoldable pub parse_optional_thread_id : Buffer → ThreadId × Buffer
  parse_optional_thread_id b =
      let (colon, b₁) = is_next_char_equal_to b b':' in
      let (negative_one, b₂) = matches_string b₁ (literal "-1") 2 in
      let (id, b₃) = read_uinteger_as_hex bytes (clear_exception_code b₂) in
      let specific : ThreadId = record {
        id = id % 2 ^ 32;
        type = if no_throw b₃ then thread_id_specific else thread_id_none;
      } in
      let all : ThreadId = record { id = 0; type = thread_id_all } in
      if bytes_left b == 0
      then (no_thread, b)
      else (if colon then (if negative_one then (all, b₂) else (specific, b₃)) else (no_thread, b₁))

  -- `parseContinueAction` and `parseSingleStepAction`
  unfoldable pub parse_plain_action : ActionType → Buffer → Action × Buffer
  parse_plain_action type b =
      let (thread_id, b') = parse_optional_thread_id b in
      (record { thread_id = thread_id; range = no_range; type = type }, b')

  -- `parseContinueWithSignalAction` and `parseSingleStepWithSignalAction`
  unfoldable pub parse_action_with_signal : ActionType → Buffer → Action × Buffer
  parse_action_with_signal type b =
      let (signal, b₁) = read_byte_as_hex (clear_exception_code b) in
      if no_throw b₁ then parse_plain_action type b₁ else (plain_action type, b₁)

  -- `parseAddressRange`; what has not been read when an exception is thrown is 0.
  unfoldable pub parse_address_range : Buffer → AddressRange × Buffer
  parse_address_range b =
      let (start, b₁) = read_uinteger_as_hex bytes (clear_exception_code b) in
      let b₂ = throw_if_next_char_is_not_equal_to b₁ b',' in
      let (last, b₃) = read_uinteger_as_hex bytes b₂ in
      let from_start : AddressRange = record { start = start % 2 ^ 32; last = 0 } in
      let both : AddressRange = record { start = start % 2 ^ 32; last = last % 2 ^ 32 } in
      if no_throw b₁
      then (if no_throw b₂ then (both, b₃) else (from_start, b₂))
      else (from_start, b₁)

  -- `parseRangedSingleStepAction`
  unfoldable pub parse_ranged_single_step_action : Buffer → Action × Buffer
  parse_ranged_single_step_action b =
      let (range, b₁) = parse_address_range (clear_exception_code b) in
      let (thread_id, b₂) = parse_optional_thread_id b₁ in
      let ranged : Action = record {
        thread_id = thread_id;
        range = range;
        type = action_ranged_single_step;
      } in
      let unthreaded : Action = record {
        thread_id = no_thread;
        range = range;
        type = action_ranged_single_step;
      } in
      if no_throw b₁ then (ranged, b₂) else (unthreaded, b₁)

  -- `parseAction`
  unfoldable pub parse_action : Buffer → Action × Buffer
  parse_action b =
      let (ch, b') = read_char b in
      if ch == b'c'
      then parse_plain_action action_continue b'
      else if ch == b'C'
      then parse_action_with_signal action_continue b'
      else if ch == b'r'
      then parse_ranged_single_step_action b'
      else if ch == b's'
      then parse_plain_action action_single_step b'
      else if ch == b'S'
      then parse_action_with_signal action_single_step b'
      else (plain_action action_none, throw invalid_argument_exception b')
