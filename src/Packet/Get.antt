-- ===== src/Packet/Get.antt =====
-- `Packet_GetFromGDB`, whole.
use mri.Prelude.{
  ℕ, zero, suc, ◌+◌, ◌-◌, ◌<◌, ◌≤◌, ◌≡◌, ◌≢◌, refl, sym, ap, ◌∙◌, arith, List, [], ◌∷◌, ◌++◌, All,
  length, Bool, ==_iff, ==_false, replicate, append_assoc, if-true, if-false, ap₂, subst, slice,
}
use mri.Buffer.Core.{IsValid, reset}
use mri.Buffer.Reading.{pending}
use mri.Buffer.RoundTrip.{pending-rewind}
use mri.Packet.Link.{Link, done, data_view, modify, >>=-done, init_packet_structure}
use mri.Packet.Receive.{get_most_recent_packet, get_loop, get_from_gdb, rewind_data}
use mri.Packet.Frames.{text_of}
use mri.Packet.Heard.{IsGood, digit-ne-start}
use mri.Packet.Rounds.{
  Burst, IsBurst, burst_line, burst_polls, answered, size, burst-SameFrame, most_recent-burst,
  burst-at_end, burst-text_there, burst_line-length,
}

abbrev pub bursts_line : List Burst → List ℕ → List ℕ
bursts_line [] rest = rest
bursts_line (b ∷ more) rest = burst_line b (bursts_line more rest)

abbrev pub bursts_polls : List Burst → List Bool → List Bool
bursts_polls [] polls = polls
bursts_polls (b ∷ more) polls = burst_polls b (bursts_polls more polls)

-- A burst whose latest packet has a wrong checksum, and one whose latest packet has a right one.
pub record IsRefused (size : ℕ) (b : Burst) : Type 0 where
  pub burst_ok : IsBurst size b
  pub wrong : ¬ IsGood b.latest

pub record IsTaken (size : ℕ) (b : Burst) : Type 0 where
  pub burst_ok : IsBurst size b
  pub right : IsGood b.latest

-- The state in which `Packet_GetFromGDB` leaves its loop.
abbrev loop_end : List Burst → Burst → List ℕ → List Bool → Link → Link
loop_end [] last rest polls l = answered last rest polls l
loop_end (b ∷ refused) last rest polls l = loop_end refused last rest polls (
    answered b (bursts_line refused (burst_line last rest))
      (bursts_polls refused (burst_polls last polls)) l)

bursts-length :
    (bursts : List Burst) (rest : List ℕ)
    → length bursts + length rest ≤ length (bursts_line bursts rest)
bursts-length [] rest = omega arith
bursts-length (b ∷ more) rest =
    omega (arith, bursts-length more rest, burst_line-length b (bursts_line more rest))

size-answered :
    (b : Burst) (rest : List ℕ) (polls : List Bool) (l : Link)
    → size (answered b rest polls l) ≡ size l
size-answered b rest polls l =
    let same = burst-SameFrame b rest polls l in omega (arith, same.same_start, same.same_last)

get_loop-bursts :
    (refused : List Burst) (last : Burst) (n fuel : ℕ) (rest : List ℕ) (polls : List Bool)
    (l : Link)
    → size l ≡ n
    → All (IsRefused n) refused
    → IsTaken n last
    → l.last_char ≢ b'$'
    → length refused < fuel
    → get_loop fuel (record l {
      input = bursts_line refused (burst_line last rest);
      polls = bursts_polls refused (burst_polls last polls);
    })
      ≡ done tt (loop_end refused last rest polls l)
unfolding get_loop
get_loop-bursts refused last n zero rest polls l sz oks ok quiet more = absurd (omega arith)
get_loop-bursts [] last n (suc fuel) rest polls l sz oks ok quiet more =
    >>=-done get_most_recent_packet _ _
      (most_recent-burst last rest polls l (subst (λ k. IsBurst k last) (sym sz) ok.burst_ok) quiet)
    ∙ rw ((==_iff _ _).1 ok.right)
get_loop-bursts (b ∷ refused) last n (suc fuel) rest polls l sz oks ok quiet more =
    let rest₁ = bursts_line refused (burst_line last rest) in
    let polls₁ = bursts_polls refused (burst_polls last polls) in
    >>=-done get_most_recent_packet _ _
      (most_recent-burst b rest₁ polls₁ l (subst (λ k. IsBurst k b) (sym sz) oks.0.burst_ok) quiet)
    ∙ if-false _ _ (==_false _ _ oks.0.wrong)
    ∙ get_loop-bursts refused last n fuel rest polls (answered b rest₁ polls₁ l)
        (size-answered b rest₁ polls₁ l ∙ sz) oks.1 ok
        (digit-ne-start b.latest.digit2 b.latest.lo oks.0.burst_ok.latest_ok.digit2_lo)
        (omega arith)

-- What has been sent when the loop ends.
output-loop_end :
    (refused : List Burst) (last : Burst) (n : ℕ) (rest : List ℕ) (polls : List Bool) (l : Link)
    → All (IsRefused n) refused
    → IsTaken n last
    → (loop_end refused last rest polls l).output
      ≡ l.output ++ (replicate (length refused) b'-' ++ (b'+' ∷ []))
output-loop_end [] last n rest polls l oks ok =
    ap₂ (λ o c. o ++ (c ∷ [])) (burst-SameFrame last rest polls l).same_output
      (if-true _ _ ((==_iff _ _).1 ok.right))
output-loop_end (b ∷ refused) last n rest polls l oks ok =
    let rest₁ = bursts_line refused (burst_line last rest) in
    let polls₁ = bursts_polls refused (burst_polls last polls) in
    output-loop_end refused last n rest polls (answered b rest₁ polls₁ l) oks.1 ok
    ∙ ap₂ (λ o c. (o ++ (c ∷ [])) ++ (replicate (length refused) b'-' ++ (b'+' ∷ [])))
        (burst-SameFrame b rest₁ polls₁ l).same_output (if-false _ _ (==_false _ _ oks.0.wrong))
    ∙ append_assoc l.output (b'-' ∷ []) (replicate (length refused) b'-' ++ (b'+' ∷ []))

-- The memory, and the place of the data in it, when the loop ends.
record LoopEnd (last : Burst) (rest : List ℕ) (polls : List Bool) (l l' : Link) : Type 0 where
  same_start : l'.data_buffer.start ≡ l.data_buffer.start
  same_last : l'.data_buffer.last ≡ l.data_buffer.last
  same_length : length l'.mem ≡ length l.mem
  at_end : l'.data_buffer.current ≡ l.data_buffer.start + length last.latest.items
  input_left : l'.input ≡ rest
  polls_left : l'.polls ≡ polls
  text_there :
      slice l'.mem l.data_buffer.start (length last.latest.items) ≡ text_of last.latest.items

loop_end-LoopEnd :
    (refused : List Burst) (last : Burst) (rest : List ℕ) (polls : List Bool) (l : Link)
    → l.data_buffer.start + length last.latest.items ≤ length l.mem
    → LoopEnd last rest polls l (loop_end refused last rest polls l)
loop_end-LoopEnd [] last rest polls l fits =
    let same = burst-SameFrame last rest polls l in
    record {
      same_start = same.same_start;
      same_last = same.same_last;
      same_length = same.same_length;
      at_end = burst-at_end last rest polls l;
      input_left = refl;
      polls_left = refl;
      text_there = burst-text_there last rest polls l fits;
    }
loop_end-LoopEnd (b ∷ refused) last rest polls l fits =
    let rest₁ = bursts_line refused (burst_line last rest) in
    let polls₁ = bursts_polls refused (burst_polls last polls) in
    let same = burst-SameFrame b rest₁ polls₁ l in
    let ih =
      loop_end-LoopEnd refused last rest polls (answered b rest₁ polls₁ l)
        (omega (arith, same.same_start, same.same_length)) in
    record {
      same_start = ih.same_start ∙ same.same_start;
      same_last = ih.same_last ∙ same.same_last;
      same_length = ih.same_length ∙ same.same_length;
      at_end = ih.at_end ∙ ap (λ k. k + length last.latest.items) same.same_start;
      input_left = ih.input_left;
      polls_left = ih.polls_left;
      text_there =
          ap
            (λ k.
              slice (loop_end refused last rest polls (answered b rest₁ polls₁ l)).mem k
                (length last.latest.items))
            (sym same.same_start)
          ∙ ih.text_there;
    }

-- On all that gdb sends for a command, to a packet in a valid buffer: the text of the first packet
-- that is the latest on the line and has a right checksum is what is left to read in the data buffer;
-- a '-' has been sent for each burst that ended in a wrong checksum and then one '+', nothing for a
-- packet that was overtaken; and what follows that packet has not been touched.
pub get_from_gdb_lem :
    (refused : List Burst) (last : Burst) (rest : List ℕ) (polls : List Bool) (l : Link)
    → IsValid (data_view l)
    → All (IsRefused (size l)) refused
    → IsTaken (size l) last
    → (l' : Link) × (get_from_gdb (record l {
      input = bursts_line refused (burst_line last rest);
      polls = bursts_polls refused (burst_polls last polls);
    })
        ≡ done tt l')
      × (pending (data_view l') ≡ text_of last.latest.items)
      × (l'.output ≡ l.output ++ (replicate (length refused) b'-' ++ (b'+' ∷ [])))
      × (l'.input ≡ rest)
      × (l'.polls ≡ polls)
unfolding get_from_gdb init_packet_structure reset
get_from_gdb_lem refused last rest polls l v oks ok =
    let l₀ = init_packet_structure l in
    let l₁ = loop_end refused last rest polls l₀ in
    let fits = ok.burst_ok.latest_ok.fits in
    let end =
      loop_end-LoopEnd refused last rest polls l₀ (omega (arith, v.inside, v.ordered, fits)) in
    let count : l₁.data_buffer.current - l₁.data_buffer.start ≡ length last.latest.items =
      omega (arith, end.at_end, end.same_start) in
    (
      rewind_data l₁,
      >>=-done (λ k. get_loop (length k.input + 1) k) (λ _. modify rewind_data) _
          (get_loop-bursts refused last (size l) _ rest polls l₀ refl oks ok (omega arith)
            (omega (arith, bursts-length refused (burst_line last rest)))),
      pending-rewind (data_view l₁) (omega (arith, end.at_end, end.same_last, v.ordered, fits))
          ∙ ap₂ (slice l₁.mem) end.same_start count
          ∙ end.text_there,
      output-loop_end refused last (size l) rest polls l₀ oks ok,
      end.input_left,
      end.polls_left,
    )
