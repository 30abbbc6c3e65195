-- ===== src/Commands/Arguments.antt =====
-- core/cmd_common.c: the arguments of a command. An exception is left in the state, as its code.
use mri.Prelude.{ℕ, if◌then◌else◌}
use mri.TryCatch.{invalid_argument_exception}
use mri.Buffer.Core.{Buffer, clear_exception_code, no_throw, throw}
use mri.Buffer.Integers.{is_next_char_equal_to, read_uinteger_as_hex}

-- `AddressLength`; what has not been read when an exception is thrown is 0.
pub record AddressLength : Type 0 where
  pub address : ℕ
  pub length : ℕ

-- `ThrowIfNextCharIsNotEqualTo`
unfoldable pub throw_if_next_char_is_not_equal_to : Buffer → ℕ → Buffer
throw_if_next_char_is_not_equal_to b this_char =
    let (equal, b') = is_next_char_equal_to b this_char in
    if equal then b' else throw invalid_argument_exception b'

-- `bytes` is the number of bytes of a `uintmri_t`.
module _ (bytes : ℕ) where
  -- `ReadUIntegerArgument`
  unfoldable pub read_uinteger_argument : Buffer → ℕ × Buffer
  read_uinteger_argument b =
      let (value, b') = read_uinteger_as_hex bytes (clear_exception_code b) in
      if no_throw b' then (value, b') else (0, b')

  -- `ReadAddressAndLengthArguments`
  unfoldable pub read_address_and_length_arguments : Buffer → AddressLength × Buffer
  read_address_and_length_arguments b =
      let (address, b₁) = read_uinteger_argument (clear_exception_code b) in
      let b₂ = throw_if_next_char_is_not_equal_to b₁ b',' in
      let (length, b₃) = read_uinteger_argument b₂ in
      if no_throw b₁
      then (if no_throw b₂
          then (record { address = address; length = length }, b₃)
          else (record { address = address; length = 0 }, b₂))
      else (record { address = 0; length = 0 }, b₁)

  -- `ReadAddressAndLengthArgumentsWithColon`
  unfoldable pub read_address_and_length_arguments_with_colon : Buffer → AddressLength × Buffer
  read_address_and_length_arguments_with_colon b =
      let (arguments, b₁) = read_address_and_length_arguments (clear_exception_code b) in
      if no_throw b₁
      then (arguments, throw_if_next_char_is_not_equal_to b₁ b':')
      else (arguments, b₁)
