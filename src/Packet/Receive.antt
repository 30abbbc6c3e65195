-- ===== src/Packet/Receive.antt =====
-- core/packet.c: `Packet_GetFromGDB`. A loop's fuel is the number of characters that gdb still sends,
-- and one or two rounds more: each round but the first takes one.
use mri.Prelude.{
  ℕ, zero, suc, ◌+◌, ◌-◌, ◌*◌, ◌%◌, Bool, not, ◌&&◌, ◌||◌, ltb, ◌==◌, if◌then◌else◌, length, bit_or,
  bit_xor,
}
use mri.TryCatch.{no_exception}
use mri.HexConvert.{hex_char_to_nibble}
use mri.Buffer.Core.{bytes_left, reset, set_end_of_buffer}
use mri.Buffer.Bytes.{write_char}
use mri.Packet.Link.{
  Link, M, ◌>>=◌, ◌>>◌, pure, modify, stuck, data_view, with_data, get_next_char, has_receive_data,
  send_char, init_packet_structure,
}

-- `waitForStartOfNextPacket`
unfoldable pub wait_loop : ℕ → ℕ → M (Unit {0})
wait_loop zero next_char l = stuck
wait_loop (suc fuel) next_char l =
    let rest = (get_next_char >>= λ c. wait_loop fuel c) l in
    if next_char == b'$' then pure tt l else rest

unfoldable pub wait_for_start_of_next_packet : M (Unit {0})
wait_for_start_of_next_packet l = wait_loop (length l.input + 1) l.last_char l

-- `clearChecksum`
abbrev pub clear_checksum : Link → Link
clear_checksum l = record l { calculated_checksum = 0 }

-- `updateChecksum`, modulo the eight bits of `unsigned char`
abbrev pub update_checksum : ℕ → Link → Link
update_checksum c l = record l { calculated_checksum = (l.calculated_checksum + c) % 256 }

-- `unescapeChar`
abbrev pub unescape_char : ℕ → ℕ
unescape_char c = bit_xor c 0x20

abbrev pub ends_data : ℕ → Bool
ends_data c = c == b'$' || c == b'#'

-- `Buffer_WriteChar(&pPacket->dataBuffer, nextChar)`
abbrev pub write_data_char : ℕ → Link → Link
write_data_char c l = with_data l (write_char (data_view l) c)

-- The `while` of `getPacketData`; the result is the last value of `nextChar`.
unfoldable pub data_loop : ℕ → ℕ → M ℕ
data_loop zero next_char l = stuck
data_loop (suc fuel) next_char l =
    let go_on : M ℕ = get_next_char >>= λ c. data_loop fuel c in
    let plain = (modify (write_data_char next_char) >> go_on) (update_checksum next_char l) in
    let escaped =
      (get_next_char >>= λ c. λ l'.
          let rest = (modify (write_data_char (unescape_char c)) >> go_on) (update_checksum c l') in
          if ends_data c then pure c l' else rest)
        (update_checksum next_char l) in
    if ltb 0 (bytes_left (data_view l)) && not (ends_data next_char)
    then (if next_char == b'}' then escaped else plain)
    else pure next_char l

-- `getPacketData`
unfoldable pub get_packet_data : M Bool
get_packet_data = do
  modify (λ l. clear_checksum (with_data l (reset (data_view l))))
  first ← get_next_char
  next_char ← λ l. data_loop (length l.input + 1) first l
  pure (next_char == b'#')

-- The `do` of `getPacketDataAndExpectedChecksum`
unfoldable pub complete_loop : ℕ → M (Unit {0})
complete_loop zero l = stuck
complete_loop (suc fuel) l =
    (wait_for_start_of_next_packet
        >> (get_packet_data >>= λ complete_packet. λ l'.
            let again = complete_loop fuel l' in if complete_packet then pure tt l' else again))
      l

-- `extractExpectedChecksum`: both digits are received before either is looked at. An invalid digit
-- leaves its exception code set, and `~` is taken in `unsigned char`.
unfoldable pub extract_expected_checksum : M (Unit {0})
extract_expected_checksum = do
  modify (λ l. record l { exn = no_exception })
  char1 ← get_next_char
  char2 ← get_next_char
  modify (λ l.
      let (hi, exn₁) = hex_char_to_nibble char1 l.exn in
      let (lo, exn₂) = hex_char_to_nibble char2 exn₁ in
      if exn₁ == 0
      then (if exn₂ == 0
          then record l { exn = exn₂; expected_checksum = bit_or (hi * 16) lo % 256 }
          else record l { exn = exn₂; expected_checksum = 255 - l.calculated_checksum })
      else record l { exn = exn₁; expected_checksum = 255 - l.calculated_checksum })

-- `getPacketDataAndExpectedChecksum`
unfoldable pub get_packet_data_and_expected_checksum : M (Unit {0})
get_packet_data_and_expected_checksum = do
  λ l. complete_loop (length l.input + 1) l
  extract_expected_checksum

abbrev pub is_checksum_valid : Link → Bool
is_checksum_valid l = l.expected_checksum == l.calculated_checksum

-- The `do` of `getMostRecentPacket`
unfoldable pub recent_loop : ℕ → M (Unit {0})
recent_loop zero l = stuck
recent_loop (suc fuel) l =
    (get_packet_data_and_expected_checksum
        >> (has_receive_data >>= λ more.
            λ l'. let again = recent_loop fuel l' in if more then again else pure tt l'))
      l

-- `getMostRecentPacket`
unfoldable pub get_most_recent_packet : M (Unit {0})
get_most_recent_packet = do
  λ l. recent_loop (length l.input + 1) l
  modify (λ l. if is_checksum_valid l then send_char b'+' l else send_char b'-' l)

-- The `do` of `Packet_GetFromGDB`
unfoldable pub get_loop : ℕ → M (Unit {0})
get_loop zero l = stuck
get_loop (suc fuel) l =
    (get_most_recent_packet >> (λ l'.
        let again = get_loop fuel l' in if is_checksum_valid l' then pure tt l' else again))
      l

-- `resetBufferToEnableFutureReadingOfValidPacketData`
abbrev pub rewind_data : Link → Link
rewind_data l = with_data l (reset (set_end_of_buffer (data_view l)))

-- `Packet_GetFromGDB`
unfoldable pub get_from_gdb : M (Unit {0})
get_from_gdb = do
  modify init_packet_structure
  λ l. get_loop (length l.input + 1) l
  modify rewind_data
