-- ===== src/Packet/Tests.antt =====
-- Concrete exchanges with gdb.
use mri.Prelude.{ℕ, List, [], ◌∷◌, false, ◌≡◌, refl, replicate, arith, inl}
use mri.TryCatch.{set_exception_code}
use mri.HexConvert.{nibble_to_hex_char, hex_char_to_nibble}
use mri.Buffer.Core.{bytes_left, reset, set_end_of_buffer}
use mri.Buffer.Bytes.{write_char}
use mri.Packet.Link.{
  Link, Outcome, done, init, init_packet_structure, get_next_char, has_receive_data,
}
use mri.Packet.Receive.{
  wait_loop, wait_for_start_of_next_packet, data_loop, get_packet_data, complete_loop,
  extract_expected_checksum, get_packet_data_and_expected_checksum, recent_loop,
  get_most_recent_packet, get_loop, get_from_gdb,
}
use mri.HexConvert.Laws.{digit_value}
use mri.Buffer.Core.{IsValid}
use mri.Buffer.Reading.{pending}
use mri.Packet.Link.{data_view}
use mri.Packet.Frames.{plain, escaped}
use mri.Packet.Heard.{Sent, IsSent}
use mri.Packet.Rounds.{Burst}
use mri.Packet.Get.{IsRefused, IsTaken, bursts_line, bursts_polls, get_from_gdb_lem}
use mri.Packet.Rounds.{burst_line, burst_polls}
use mri.Packet.Answers.{Answer}
use mri.Packet.Resend.{copies}
use mri.Packet.Framing.{IsPrepared, frame_text}
use mri.Packet.SendLaws.{send_to_gdb_lem}
use mri.Packet.Termination.{Ends, get_from_gdb-Ends}
use mri.Buffer.Core.{bytes_left}
use mri.Packet.Link.{packet_view}
use mri.Packet.Send.{send_packet, process_packet_data}
use mri.Packet.Termination.Sending.{send_to_gdb-LoopsEnd}
use mri.Packet.Send.{send_to_gdb}

abbrev idle : List ℕ → Link
unfolding init
idle input = init 0 12 (record {
  mem = replicate 12 0;
  exn = 0;
  packet_buffer = record { start = 0; last = 0; current = 0 };
  data_buffer = record { start = 0; last = 0; current = 0 };
  last_char = 0;
  calculated_checksum = 0;
  expected_checksum = 0;
  control_c = false;
  input = input;
  polls = [];
  output = [];
})

-- What has been sent, and what gdb still sends.
abbrev answer : Outcome (Unit {0}) → List ℕ × List ℕ
answer (done _ l) = (l.output, l.input)
answer _ = ([], [])

-- A packet with a wrong checksum is refused, and the next one taken.
get_after_nak :
    answer (
      get_from_gdb (
        idle
          (b'x' ∷ b'$' ∷ b'm' ∷ b'#' ∷ b'6' ∷ b'e' ∷ b'$' ∷ b'm' ∷ b'#' ∷ b'6' ∷ b'd' ∷ b'!' ∷ [])))
    ≡ (b'-' ∷ b'+' ∷ [], b'!' ∷ [])
unfolding get_from_gdb get_loop get_most_recent_packet recent_loop
    get_packet_data_and_expected_checksum extract_expected_checksum complete_loop get_packet_data
    data_loop wait_for_start_of_next_packet wait_loop get_next_char has_receive_data
    init_packet_structure init reset set_end_of_buffer write_char bytes_left hex_char_to_nibble
    set_exception_code
get_after_nak = refl

-- A packet in a memory of twelve characters.
abbrev ready : List ℕ → Link
ready input = record {
  mem = replicate 12 0;
  exn = 0;
  packet_buffer = record { start = 0; last = 12; current = 0 };
  data_buffer = record { start = 1; last = 9; current = 1 };
  last_char = 0;
  calculated_checksum = 0;
  expected_checksum = 0;
  control_c = false;
  input = input;
  polls = [];
  output = [];
}

-- "x$m#6e", with a wrong checksum, and "$}]#da", the escaped '}', with the right one.
abbrev wrong_m : Sent
wrong_m = record {
  noise = b'x' ∷ [];
  items = plain b'm' ∷ [];
  digit1 = b'6';
  digit2 = b'e';
  hi = 6;
  lo = 14;
}

abbrev right_brace : Sent
right_brace = record {
  noise = [];
  items = escaped b']' ∷ [];
  digit1 = b'd';
  digit2 = b'a';
  hi = 13;
  lo = 10;
}

wrong_m-IsSent : IsSent 8 wrong_m
unfolding digit_value
wrong_m-IsSent = record {
  quiet = (λ e. omega arith, tt);
  text_ok = ((λ e. omega arith, λ e. omega arith, λ e. omega arith), tt);
  fits = omega arith;
  digit1_hi = refl;
  digit2_lo = refl;
}

right_brace-IsSent : IsSent 8 right_brace
unfolding digit_value
right_brace-IsSent = record {
  quiet = tt;
  text_ok = ((λ e. omega arith, λ e. omega arith), tt);
  fits = omega arith;
  digit1_hi = refl;
  digit2_lo = refl;
}

abbrev refused_burst : Burst
refused_burst = record { overtaken = []; latest = wrong_m }

abbrev taken_burst : Burst
taken_burst = record { overtaken = wrong_m ∷ []; latest = right_brace }

refused_burst-IsRefused : IsRefused 8 refused_burst
refused_burst-IsRefused = record {
  burst_ok = record { overtaken_ok = tt; latest_ok = wrong_m-IsSent };
  wrong = λ e. omega arith;
}

taken_burst-IsTaken : IsTaken 8 taken_burst
taken_burst-IsTaken = record {
  burst_ok = record { overtaken_ok = (wrong_m-IsSent, tt); latest_ok = right_brace-IsSent };
  right = refl;
}

ready-IsValid : IsValid (data_view (ready []))
ready-IsValid = record {
  ordered = omega arith;
  inside = omega arith;
  after_start = omega arith;
  before_end = omega arith;
}

get_from_gdb_example :
    (l' : Link) × (get_from_gdb (record (ready []) {
      input = bursts_line (refused_burst ∷ []) (burst_line taken_burst (b'!' ∷ []));
      polls = bursts_polls (refused_burst ∷ []) (burst_polls taken_burst []);
    })
      ≡ done tt l')
    × (pending (data_view l') ≡ b'}' ∷ [])
    × (l'.output ≡ b'-' ∷ b'+' ∷ [])
    × (l'.input ≡ b'!' ∷ [])
    × (l'.polls ≡ [])
get_from_gdb_example =
    get_from_gdb_lem (refused_burst ∷ []) taken_burst (b'!' ∷ []) [] (ready []) ready-IsValid
      (refused_burst-IsRefused, tt) taken_burst-IsTaken

get_from_gdb-Ends_example : Ends 2 (get_from_gdb (ready (b'$' ∷ b'm' ∷ [])))
get_from_gdb-Ends_example = get_from_gdb-Ends (ready (b'$' ∷ b'm' ∷ []))

-- "OK" in the data buffer, and the answers control-C '-' and '+'.
abbrev ok_text : List ℕ
ok_text = b'O' ∷ b'K' ∷ []

abbrev ok_ready : Link
ok_ready = record (ready (3 ∷ b'-' ∷ b'+' ∷ b'!' ∷ [])) {
  mem = 0 ∷ b'O' ∷ b'K' ∷ replicate 9 0;
  data_buffer = record { start = 1; last = 3; current = 3 };
}

send_to_gdb-LoopsEnd_example :
    Ends 2 (send_to_gdb (ready (b'-' ∷ b'+' ∷ [])))
    × (bytes_left (packet_view (send_packet ok_ready)) ≡ 0)
    × (bytes_left (data_view (process_packet_data ok_ready)) ≡ 0)
send_to_gdb-LoopsEnd_example = send_to_gdb-LoopsEnd (ready (b'-' ∷ b'+' ∷ [])) ok_ready ok_ready

ok_ready-IsPrepared : IsPrepared ok_text ok_ready
ok_ready-IsPrepared = record {
  data_start = refl;
  data_last = refl;
  room = omega arith;
  inside = omega arith;
  held = refl;
}

abbrev minus : Answer
minus = record { interrupts = 1; char = b'-' }

abbrev plus : Answer
plus = record { interrupts = 0; char = b'+' }

send_to_gdb_example :
    (l' : Link) × (send_to_gdb ok_ready ≡ done tt l')
    × (l'.output ≡ copies 2 (frame_text ok_text))
    × (l'.input ≡ b'!' ∷ [])
send_to_gdb_example =
    send_to_gdb_lem ok_text (minus ∷ []) plus (b'!' ∷ []) ok_ready ok_ready-IsPrepared
      (
        record {
          no_interrupt = λ e. omega arith;
          no_plus = λ e. omega arith;
          no_start = λ e. omega arith;
        },
        tt,
      )
      (inl refl) refl

-- "$OK#9a", twice.
frame_example : frame_text ok_text ≡ b'$' ∷ b'O' ∷ b'K' ∷ b'#' ∷ b'9' ∷ b'a' ∷ []
unfolding nibble_to_hex_char
frame_example = refl
