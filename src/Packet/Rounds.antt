-- ===== src/Packet/Rounds.antt =====
-- `Packet_GetFromGDB` on all that gdb sends for one command: packets that are overtaken by a newer one
-- before they are answered, packets with a wrong checksum, and the packet that is taken.
use mri.Prelude.{
  ℕ, zero, suc, ◌+◌, ◌-◌, ◌*◌, ◌%◌, ◌<◌, ◌≤◌, ◌≡◌, ◌≢◌, refl, sym, ap, ◌∙◌, arith, List, [], ◌∷◌,
  ◌++◌, All, length, length-append, Bool, true, false, ◌==◌, if◌then◌else◌, replicate, slice, ap₂,
}
use mri.Buffer.Emit.{overwrite, length-overwrite, slice-overwrite}
use mri.Packet.Link.{Link, done, has_receive_data, >>=-done, send_char}
use mri.Packet.Receive.{
  recent_loop, get_most_recent_packet, is_checksum_valid, get_packet_data_and_expected_checksum,
}
use mri.Packet.Frames.{text_of, length-text_of, item_sum, encode, length-encode}
use mri.Packet.Heard.{Sent, IsSent, on_line, heard, hears, digit-ne-start}

-- What gdb sends until it is answered: packets behind each of which more has already arrived, and the
-- latest one.
pub record Burst : Type 0 where
  pub overtaken : List Sent
  pub latest : Sent

abbrev sent_all : List Sent → List ℕ → List ℕ
sent_all [] rest = rest
sent_all (s ∷ more) rest = on_line s (sent_all more rest)

abbrev pub burst_line : Burst → List ℕ → List ℕ
burst_line b rest = sent_all b.overtaken (on_line b.latest rest)

-- The answers of `Platform_CommHasReceiveData` meanwhile.
abbrev pub burst_polls : Burst → List Bool → List Bool
burst_polls b polls = replicate (length b.overtaken) true ++ (false ∷ polls)

pub record IsBurst (size : ℕ) (b : Burst) : Type 0 where
  pub overtaken_ok : All (IsSent size) b.overtaken
  pub latest_ok : IsSent size b.latest

-- The state once a burst has been received, and before it is answered.
abbrev overtake : List Sent → List ℕ → Link → Link
overtake [] rest l = l
overtake (s ∷ more) rest l = overtake more rest (heard s (sent_all more rest) l)

abbrev pub burst_heard : Burst → List ℕ → List Bool → Link → Link
burst_heard b rest polls l =
    record (heard b.latest rest (overtake b.overtaken (on_line b.latest rest) l)) { polls = polls }

on_line-length : (s : Sent) (rest : List ℕ) → length rest < length (on_line s rest)
on_line-length s rest =
    let chars : List ℕ = b'#' ∷ s.digit1 ∷ s.digit2 ∷ rest in
    omega (arith, length-append s.noise (b'$' ∷ encode s.items chars), length-encode s.items chars)

sent_all-length :
    (sents : List Sent) (rest : List ℕ) → length sents + length rest ≤ length (sent_all sents rest)
sent_all-length [] rest = omega arith
sent_all-length (s ∷ more) rest =
    omega (arith, sent_all-length more rest, on_line-length s (sent_all more rest))

-- The rounds of the loop that ends when nothing more has arrived.
recent_loop-burst :
    (overtaken : List Sent) (latest : Sent) (fuel : ℕ) (rest : List ℕ) (polls : List Bool)
    (l : Link)
    → All (IsSent (l.data_buffer.last - l.data_buffer.start)) overtaken
    → IsSent (l.data_buffer.last - l.data_buffer.start) latest
    → l.last_char ≢ b'$'
    → length overtaken < fuel
    → recent_loop fuel (record l {
      input = sent_all overtaken (on_line latest rest);
      polls = replicate (length overtaken) true ++ (false ∷ polls);
    })
      ≡ done tt (burst_heard (record { overtaken = overtaken; latest = latest }) rest polls l)
unfolding recent_loop has_receive_data
recent_loop-burst overtaken latest zero rest polls l oks ok quiet more = absurd (omega arith)
recent_loop-burst [] latest (suc fuel) rest polls l oks ok quiet more =
    >>=-done get_packet_data_and_expected_checksum _ _
      (hears latest rest (record l { polls = false ∷ polls }) ok quiet)
recent_loop-burst (s ∷ overtaken) latest (suc fuel) rest polls l oks ok quiet more =
    >>=-done get_packet_data_and_expected_checksum _ _ (
      hears s (sent_all overtaken (on_line latest rest))
        (record l { polls = true ∷ (replicate (length overtaken) true ++ (false ∷ polls)) }) oks.0
        quiet)
    ∙ recent_loop-burst overtaken latest fuel rest polls
        (heard s (sent_all overtaken (on_line latest rest)) l) oks.1 ok
        (digit-ne-start s.digit2 s.lo oks.0.digit2_lo) (omega arith)

-- The answer to a burst.
abbrev pub answer_char : Burst → ℕ
answer_char b =
    if b.latest.hi * 16 + b.latest.lo == item_sum b.latest.items % 256 then b'+' else b'-'

abbrev pub size : Link → ℕ
size l = l.data_buffer.last - l.data_buffer.start

abbrev pub answered : Burst → List ℕ → List Bool → Link → Link
answered b rest polls l = send_char (answer_char b) (burst_heard b rest polls l)

answer_lem :
    (valid : Bool) (l : Link)
    → (if valid then send_char b'+' l else send_char b'-' l)
      ≡ send_char (if valid then b'+' else b'-') l
answer_lem true l = refl
answer_lem false l = refl

pub most_recent-burst :
    (b : Burst) (rest : List ℕ) (polls : List Bool) (l : Link)
    → IsBurst (size l) b
    → l.last_char ≢ b'$'
    → get_most_recent_packet (record l { input = burst_line b rest; polls = burst_polls b polls })
      ≡ done tt (answered b rest polls l)
unfolding get_most_recent_packet
most_recent-burst b rest polls l ok quiet =
    let l₀ = record l { input = burst_line b rest; polls = burst_polls b polls } in
    >>=-done (λ k. recent_loop (length k.input + 1) k) _ l₀
      (recent_loop-burst b.overtaken b.latest (length (burst_line b rest) + 1) rest polls l
        ok.overtaken_ok ok.latest_ok quiet
        (omega (arith, sent_all-length b.overtaken (on_line b.latest rest))))
    ∙ ap (done tt)
        (answer_lem (is_checksum_valid (burst_heard b rest polls l)) (burst_heard b rest polls l))

-- What the packets that are received leave alone.
pub record SameFrame (l l' : Link) : Type 0 where
  pub same_start : l'.data_buffer.start ≡ l.data_buffer.start
  pub same_last : l'.data_buffer.last ≡ l.data_buffer.last
  pub same_length : length l'.mem ≡ length l.mem
  pub same_output : l'.output ≡ l.output

overtake-SameFrame :
    (sents : List Sent) (rest : List ℕ) (l : Link) → SameFrame l (overtake sents rest l)
overtake-SameFrame [] rest l = record {
  same_start = refl;
  same_last = refl;
  same_length = refl;
  same_output = refl;
}
overtake-SameFrame (s ∷ more) rest l =
    let l₁ = heard s (sent_all more rest) l in
    let same = overtake-SameFrame more rest l₁ in
    record {
      same_start = same.same_start;
      same_last = same.same_last;
      same_length = same.same_length ∙ length-overwrite l.mem l.data_buffer.start (text_of s.items);
      same_output = same.same_output;
    }

pub burst-SameFrame :
    (b : Burst) (rest : List ℕ) (polls : List Bool) (l : Link)
    → SameFrame l (burst_heard b rest polls l)
burst-SameFrame b rest polls l =
    let l₁ = overtake b.overtaken (on_line b.latest rest) l in
    let same = overtake-SameFrame b.overtaken (on_line b.latest rest) l in
    record {
      same_start = same.same_start;
      same_last = same.same_last;
      same_length =
          length-overwrite l₁.mem l₁.data_buffer.start (text_of b.latest.items) ∙ same.same_length;
      same_output = same.same_output;
    }

pub burst_line-length : (b : Burst) (rest : List ℕ) → length rest < length (burst_line b rest)
burst_line-length b rest =
    omega (arith, sent_all-length b.overtaken (on_line b.latest rest), on_line-length b.latest rest)

pub burst-at_end :
    (b : Burst) (rest : List ℕ) (polls : List Bool) (l : Link)
    → (burst_heard b rest polls l).data_buffer.current ≡ l.data_buffer.start + length b.latest.items
burst-at_end b rest polls l =
    let same = overtake-SameFrame b.overtaken (on_line b.latest rest) l in
    omega (arith, same.same_start, length-text_of b.latest.items)

pub burst-text_there :
    (b : Burst) (rest : List ℕ) (polls : List Bool) (l : Link)
    → l.data_buffer.start + length b.latest.items ≤ length l.mem
    → slice (burst_heard b rest polls l).mem l.data_buffer.start (length b.latest.items)
      ≡ text_of b.latest.items
burst-text_there b rest polls l fits =
    let l₁ = overtake b.overtaken (on_line b.latest rest) l in
    let same = overtake-SameFrame b.overtaken (on_line b.latest rest) l in
    let text = text_of b.latest.items in
    let out = overwrite l₁.mem l₁.data_buffer.start text in
    ap₂ (slice out) (sym same.same_start) (sym (length-text_of b.latest.items))
    ∙ slice-overwrite l₁.mem l₁.data_buffer.start text
        (omega (arith, same.same_start, same.same_length, length-text_of b.latest.items))
