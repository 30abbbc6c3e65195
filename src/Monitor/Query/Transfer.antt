-- ===== src/Monitor/Query/Transfer.antt =====
-- core/cmd_query.c: "qXfer", which reads the memory map and the description of the target in pieces.
use mri.Prelude.{
  ℕ, ◌-◌, ◌%◌, ◌^◌, List, Option, none, some, Bool, false, ltb, leb, if◌then◌else◌, drop,
}
use mri.TryCatch.{invalid_argument_exception}
use mri.Libc.{literal, strcmp, is_zero}
use mri.Buffer.Core.{Buffer, clear_exception_code, no_throw, throw, bytes_left}
use mri.Buffer.Bytes.{write_char, write_sized_string}
use mri.Buffer.Integers.{is_next_char_equal_to}
use mri.Buffer.Matching.{matches_string}
use mri.Packet.Link.{data_view}
use mri.Commands.Arguments.{read_address_and_length_arguments}
use mri.Commands.Session.{mri_error_invalid_argument}
use mri.Monitor.State.{Machine, HandlerReturn, nothing}
use mri.Monitor.Monad.{
  Run, ◌>>=◌, ◌>>◌, pure, gets, on_buffer, change_buffer, clear_exception, attempt, branch,
}
use mri.Monitor.Console.{init_buffers, respond_and_stay, empty_response}

-- `AnnexOffsetLength`; `none` is NULL, and all that has not been read when an exception is thrown is 0.
pub record AnnexOffsetLength : Type 0 where
  pub annex : Option (List ℕ)
  pub annex_size : ℕ
  pub offset : ℕ
  pub length : ℕ

abbrev no_arguments : Option (List ℕ) → AnnexOffsetLength
no_arguments annex = record { annex = annex; annex_size = 0; offset = 0; length = 0 }

-- `readQueryTransferAnnexArgument`
unfoldable pub read_query_transfer_annex_argument : Buffer → Option (List ℕ) × Buffer
read_query_transfer_annex_argument b =
    let (is_target, b₁) = matches_string b (literal "target.xml") 10 in
    let (colon, b₂) = is_next_char_equal_to b₁ b':' in
    if colon
    then ((if is_target then some (literal "target.xml") else none), b₂)
    else (none, throw invalid_argument_exception b₂)

-- The condition of `readQueryTransferReadArguments`, which stops at the first test that fails.
unfoldable pub read_operation : Buffer → Bool × Buffer
read_operation b =
    let (colon, b₁) = is_next_char_equal_to b b':' in
    let (read, b₂) = matches_string b₁ (literal "read") 4 in
    let (colon', b₃) = is_next_char_equal_to b₂ b':' in
    if colon then (if read then (colon', b₃) else (false, b₂)) else (false, b₁)

-- `readQueryTransferReadArguments`, with `readQueryTransferOffsetLengthArguments`; the numbers are
-- kept in `uint32_t`s.
unfoldable pub read_query_transfer_read_arguments : ℕ → Buffer → AnnexOffsetLength × Buffer
read_query_transfer_read_arguments bytes b =
    let (is_read, b₁) = read_operation b in
    let (annex, b₂) = read_query_transfer_annex_argument (clear_exception_code b₁) in
    let (offset_length, b₃) = read_address_and_length_arguments bytes b₂ in
    if is_read
    then (if no_throw b₂
        then (
          record {
            annex = annex;
            annex_size = 0;
            offset = offset_length.address % 2 ^ 32;
            length = offset_length.length % 2 ^ 32;
          },
          b₃,
        )
        else (no_arguments annex, b₂))
    else (no_arguments none, throw invalid_argument_exception b₁)

-- `validateAnnexIsNull`
unfoldable pub validate_annex_is_null : Option (List ℕ) → Buffer → Buffer
validate_annex_is_null none b = b
validate_annex_is_null (some annex) b = throw invalid_argument_exception b

-- `validateAnnexIs`
unfoldable pub validate_annex_is : List ℕ → Option (List ℕ) → Buffer → Buffer
validate_annex_is expected none b = throw invalid_argument_exception b
validate_annex_is expected (some annex) b =
    if is_zero (strcmp annex expected) then b else throw invalid_argument_exception b

-- What of the annex is sent, and the prefix: 'l' when the end is reached. `room` is `outputBufferSize`.
unfoldable pub prefix_and_length : ℕ → ℕ → ℕ → ℕ → ℕ × ℕ
prefix_and_length annex_size offset length room =
    let past_end = leb annex_size offset in
    let wanted = if past_end then 0 else length in
    let valid = if past_end then 0 else annex_size - offset in
    let fitting = if ltb room wanted then room else wanted in
    if ltb valid fitting then (b'l', valid) else (if past_end then b'l' else b'm', fitting)

module _ {S : Type 0} (machine : Machine S) where
  -- `handleQueryTransferReadCommand`
  unfoldable pub handle_query_transfer_read_command :
      List ℕ → ℕ → AnnexOffsetLength → Run S (Unit {0})
  handle_query_transfer_read_command annex annex_size arguments = do
    init_buffers machine
    room ← gets (λ m. bytes_left (data_view m.session.packet))
    change_buffer (λ b.
        let (first, length) =
          prefix_and_length annex_size arguments.offset arguments.length (room % 2 ^ 32) in
        write_sized_string (write_char b first) (drop arguments.offset annex) length)

  -- The two handlers, which differ in what they require of the annex and in what they send.
  unfoldable pub read_transfer :
      (Option (List ℕ) → Buffer → Buffer) → List ℕ → ℕ → Run S HandlerReturn
  read_transfer validate annex annex_size =
      clear_exception
      >> attempt (on_buffer (read_query_transfer_read_arguments machine.bytes))
          (respond_and_stay machine mri_error_invalid_argument)
          (λ arguments.
            attempt (change_buffer (validate arguments.annex))
              (respond_and_stay machine mri_error_invalid_argument)
              (λ u.
                handle_query_transfer_read_command annex (annex_size % 2 ^ 32) arguments
                >> pure nothing))

  -- `handleQueryTransferMemoryMapCommand`
  abbrev pub handle_query_transfer_memory_map_command : Run S HandlerReturn
  handle_query_transfer_memory_map_command =
      read_transfer validate_annex_is_null machine.memory_map_xml machine.memory_map_xml_size

  -- `handleQueryTransferFeaturesCommand`
  abbrev pub handle_query_transfer_features_command : Run S HandlerReturn
  handle_query_transfer_features_command =
      read_transfer (validate_annex_is (literal "target.xml")) machine.target_xml
        machine.target_xml_size

  -- `handleQueryTransferCommand`
  unfoldable pub handle_query_transfer_command : Run S HandlerReturn
  handle_query_transfer_command =
      branch (on_buffer (λ b. is_next_char_equal_to b b':'))
        (branch (on_buffer (λ b. matches_string b (literal "memory-map") 10))
          handle_query_transfer_memory_map_command
          (branch (on_buffer (λ b. matches_string b (literal "features") 8))
            handle_query_transfer_features_command (empty_response machine)))
        (respond_and_stay machine mri_error_invalid_argument)
