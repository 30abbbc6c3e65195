-- ===== src/Packet/Heard.antt =====
-- One packet received: `getPacketDataAndExpectedChecksum` on a packet as gdb sends it.
use mri.Prelude.{
  ℕ, zero, suc, ◌+◌, ◌-◌, ◌*◌, ◌%◌, ◌<◌, ◌≤◌, ◌≡◌, ◌≢◌, ap, ◌∙◌, arith, List, [], ◌∷◌, ◌++◌, All,
  length, true, ◌==◌, ==_false, some, length-append, mod-eq_of_lt,
}
use mri.Libc.{peek, next}
use mri.HexConvert.Laws.{digit_value, digit_value-lt, hex_char_to_nibble-digit, bit_or-nibbles}
use mri.Buffer.Core.{reset}
use mri.Buffer.Cases.{bytes_left-eq}
use mri.Buffer.Emit.{overwrite}
use mri.Packet.Link.{Link, done, pure, data_view, with_data, get_next_char, >>=-done}
use mri.Packet.Receive.{
  wait_loop, wait_for_start_of_next_packet, clear_checksum, get_packet_data, data_loop,
  complete_loop, extract_expected_checksum, get_packet_data_and_expected_checksum,
}
use mri.Packet.Frames.{Item, text_of, encode, item_sum, IsItem, length-encode, frame_with}
use mri.Packet.Data.{taken, received, data_loop-items, encode-cons}

-- A packet on the line: characters before it, its text, and the two digits of its checksum, which
-- stand for `hi` and `lo`.
pub record Sent : Type 0 where
  pub noise : List ℕ
  pub items : List Item
  pub digit1 : ℕ
  pub digit2 : ℕ
  pub hi : ℕ
  pub lo : ℕ

abbrev pub on_line : Sent → List ℕ → List ℕ
on_line s rest = s.noise ++ frame_with (s.digit1 ∷ s.digit2 ∷ []) s.items rest

-- It is well formed, and its text fits a data buffer of `size` characters.
pub record IsSent (size : ℕ) (s : Sent) : Type 0 where
  pub quiet : All (λ c. c ≢ b'$') s.noise
  pub text_ok : All IsItem s.items
  pub fits : length s.items ≤ size
  pub digit1_hi : digit_value s.digit1 ≡ some s.hi
  pub digit2_lo : digit_value s.digit2 ≡ some s.lo

-- Whether the checksum is that of the text.
abbrev pub IsGood : Sent → Type 0
IsGood s = s.hi * 16 + s.lo ≡ item_sum s.items % 256

-- The state once it has been received.
abbrev pub heard : Sent → List ℕ → Link → Link
heard s rest l = record l {
  mem = overwrite l.mem l.data_buffer.start (text_of s.items);
  exn = 0;
  data_buffer = record {
    start = l.data_buffer.start;
    last = l.data_buffer.last;
    current = l.data_buffer.start + length (text_of s.items);
  };
  last_char = s.digit2;
  calculated_checksum = item_sum s.items % 256;
  expected_checksum = s.hi * 16 + s.lo;
  input = rest;
}

wait_loop-noise :
    (noise : List ℕ) (fuel c : ℕ) (chars : List ℕ) (l : Link)
    → c ≢ b'$'
    → All (λ d. d ≢ b'$') noise
    → length noise + 1 < fuel
    → wait_loop fuel c (record l { input = noise ++ (b'$' ∷ chars) })
      ≡ done tt (record l { input = chars; last_char = b'$' })
unfolding wait_loop get_next_char
wait_loop-noise noise zero c chars l h q more = absurd (omega arith)
wait_loop-noise [] (suc zero) c chars l h q more = absurd (omega arith)
wait_loop-noise [] (suc (suc fuel)) c chars l h q more = rw (==_false c b'$' h)
wait_loop-noise (d ∷ noise) (suc fuel) c chars l h q more =
    rw (==_false c b'$' h)
      (wait_loop-noise noise fuel d chars (record l { last_char = d }) q.0 q.1 (omega arith))

-- A digit is not the start of a packet.
pub digit-ne-start : (c n : ℕ) → digit_value c ≡ some n → c ≢ b'$'
unfolding digit_value
digit-ne-start c n h e = ground arith

byte-lt : (hi lo : ℕ) → hi < 16 → lo < 16 → hi * 16 + lo < 256
byte-lt hi lo h k = omega arith

extract-digits :
    (c d hi lo : ℕ) (rest : List ℕ) (l : Link)
    → digit_value c ≡ some hi
    → digit_value d ≡ some lo
    → extract_expected_checksum (record l { input = c ∷ d ∷ rest })
      ≡ done tt
          (record l { exn = 0; expected_checksum = hi * 16 + lo; input = rest; last_char = d })
unfolding extract_expected_checksum get_next_char
extract-digits c d hi lo rest l h k = rw (
  hex_char_to_nibble-digit c 0 h,
  hex_char_to_nibble-digit d 0 k,
  bit_or-nibbles hi lo (digit_value-lt c h) (digit_value-lt d k),
  mod-eq_of_lt (byte-lt hi lo (digit_value-lt c h) (digit_value-lt d k)),
)

data-items :
    (items : List Item) (rest : List ℕ) (l : Link)
    → All IsItem items
    → length items ≤ l.data_buffer.last - l.data_buffer.start
    → (exn : ℕ) × (get_packet_data (record l { input = encode items (b'#' ∷ rest) })
        ≡ done true (
            taken exn
              (text_of items)
              (item_sum items)
              rest
              (clear_checksum (with_data l (reset (data_view l))))))
unfolding get_packet_data get_next_char reset
data-items items rest l ok fits =
    let chars = encode items (b'#' ∷ rest) in
    let l₀ = clear_checksum (with_data l (reset (data_view l))) in
    let loop =
      data_loop-items items (length (next chars) + 1) l₀ rest ok (omega arith)
        (omega (arith, bytes_left-eq (data_view l₀)))
        (omega (arith, length-encode items (b'#' ∷ rest), ap length (encode-cons items rest))) in
    (
      loop.0,
      ap (λ x. get_packet_data (record l { input = x })) (encode-cons items rest)
          ∙ >>=-done (λ k. data_loop (length k.input + 1) (peek chars) k) (λ c. pure (c == b'#'))
              (received chars l₀) loop.1,
    )

module _ (s : Sent) (rest : List ℕ) (l : Link)
    (ok : IsSent (l.data_buffer.last - l.data_buffer.start) s) where
  data_part :
      (exn : ℕ) × (get_packet_data (record l {
        input = encode s.items (b'#' ∷ s.digit1 ∷ s.digit2 ∷ rest);
        last_char = b'$';
      })
        ≡ done true (
            taken exn
              (text_of s.items)
              (item_sum s.items)
              (s.digit1 ∷ s.digit2 ∷ rest)
              (clear_checksum (with_data l (reset (data_view l))))))
  data_part =
      data-items s.items (s.digit1 ∷ s.digit2 ∷ rest) (record l { last_char = b'$' }) ok.text_ok
        ok.fits

  -- The state behind the '#'.
  listened : Link
  listened =
      taken data_part.0 (text_of s.items) (item_sum s.items) (s.digit1 ∷ s.digit2 ∷ rest)
        (clear_checksum (with_data l (reset (data_view l))))

  waits_for_start :
      l.last_char ≢ b'$'
      → wait_for_start_of_next_packet (record l { input = on_line s rest })
        ≡ done tt (record l {
          input = encode s.items (b'#' ∷ s.digit1 ∷ s.digit2 ∷ rest);
          last_char = b'$';
        })
  unfolding wait_for_start_of_next_packet
  waits_for_start quiet = wait_loop-noise s.noise _ l.last_char _ l quiet ok.quiet (
      omega (
        arith,
        length-append s.noise (b'$' ∷ encode s.items (b'#' ∷ s.digit1 ∷ s.digit2 ∷ rest)),
        length-encode s.items (b'#' ∷ s.digit1 ∷ s.digit2 ∷ rest),
      ))

  completes :
      (fuel : ℕ)
      → l.last_char ≢ b'$'
      → complete_loop (suc fuel) (record l { input = on_line s rest }) ≡ done tt listened
  unfolding complete_loop listened
  completes fuel quiet =
      >>=-done wait_for_start_of_next_packet _ (record l { input = on_line s rest })
        (waits_for_start quiet)
      ∙ >>=-done get_packet_data _ _ data_part.1

  -- The code hears a packet out: its text is in the data buffer, its checksum computed, and the one
  -- that was sent decoded.
  pub hears :
      l.last_char ≢ b'$'
      → get_packet_data_and_expected_checksum (record l { input = on_line s rest })
        ≡ done tt (heard s rest l)
  unfolding get_packet_data_and_expected_checksum listened reset
  hears quiet =
      >>=-done (λ k. complete_loop (length k.input + 1) k) (λ _. extract_expected_checksum)
        (record l { input = on_line s rest })
        (ap (λ n. complete_loop n (record l { input = on_line s rest }))
            {x = length (on_line s rest) + 1} {y = suc (length (on_line s rest))} (omega arith)
          ∙ completes (length (on_line s rest)) quiet)
      ∙ extract-digits s.digit1 s.digit2 s.hi s.lo rest listened ok.digit1_hi ok.digit2_lo
      ∙ ap (λ k. done tt (record (heard s rest l) { calculated_checksum = k }))
          {x = (0 + item_sum s.items) % 256} {y = item_sum s.items % 256} (omega arith)
