-- ===== src/Packet/Termination.antt =====
-- core/packet.c: `Packet_GetFromGDB`, its loops and their fuel.
pub mod Sending
pub mod Exits
use mri.Prelude.{
  ℕ, zero, suc, ◌+◌, ◌<◌, ◌≤◌, ◌≡◌, refl, arith, List, [], ◌∷◌, length, Bool, true, false, ◌==◌,
  ◌&&◌, ◌||◌, not, ltb, if◌then◌else◌,
}
use mri.Buffer.Core.{bytes_left, reset}
use mri.Buffer.Bytes.{read_char}
use mri.HexConvert.{hex_char_to_nibble}
use mri.Packet.Link.{
  Link, Outcome, M, done, waits, stuck, pure, ◌>>=◌, get_next_char, has_receive_data, send_char,
  init_packet_structure, with_packet, packet_view, data_view,
}
use mri.Packet.Receive.{
  wait_loop, wait_for_start_of_next_packet, data_loop, get_packet_data, complete_loop,
  extract_expected_checksum, get_packet_data_and_expected_checksum, recent_loop,
  get_most_recent_packet, get_loop, is_checksum_valid, get_from_gdb, ends_data, update_checksum,
  write_data_char, unescape_char,
}

-- The routine returns with fewer than `n` characters to come, or waits for gdb.
abbrev pub Ends {ℓ} : {A : Type ℓ} → ℕ → Outcome A → Type 0
Ends n (done a l) = length l.input < n
Ends n (waits l) = Unit {0}
Ends n stuck = ⊥

pub Ends-mono {ℓ} : {A : Type ℓ} (m n : ℕ) (o : Outcome A) → m ≤ n → Ends m o → Ends n o
Ends-mono m n (done a l) h e = omega arith
Ends-mono m n (waits l) h e = tt
Ends-mono m n stuck h e = e

pub Ends-bind {ℓ κ} :
    {A : Type ℓ} {B : Type κ} (m : M A) (f : A → M B) (n k : ℕ) (l : Link)
    → Ends n (m l)
    → ((a : A) (l' : Link) → length l'.input < n → Ends k (f a l'))
    → Ends k ((m >>= f) l)
Ends-bind m f n k l e h = go (m l) e
  where
    go :
        (o : Outcome _)
        → Ends n o
        → Ends k (elim o [ done a l' ↦ f a l' | waits l' ↦ waits l' | stuck ↦ stuck ])
    go (done a l') e' = h a l' e'
    go (waits l') e' = tt
    go stuck e' = absurd e'

pub Ends-if {ℓ} :
    {A : Type ℓ} (t : Bool) (n : ℕ) (o p : Outcome A)
    → Ends n o
    → Ends n p
    → Ends n (if t then o else p)
Ends-if true n o p h k = h
Ends-if false n o p h k = k

if-lt :
    (t : Bool) (n : ℕ) (a b : Link)
    → length a.input < n
    → length b.input < n
    → length (if◌then◌else◌ {A = Link} t a b).input < n
if-lt true n a b h k = h
if-lt false n a b h k = k

-- A character is taken.
pub get_next_char-Ends : (l : Link) → Ends (length l.input) (get_next_char l)
unfolding get_next_char
get_next_char-Ends l = go l.input
  where
    go :
        (chars : List ℕ)
        → Ends (length chars) (elim chars [
          | [] ↦ waits l
          | c ∷ rest ↦ done c (record l { input = rest; last_char = c })
        ])
    go [] = tt
    go (c ∷ rest) = omega arith

wait_loop-Ends :
    (fuel c n : ℕ) (l : Link)
    → length l.input < fuel
    → length l.input < n
    → Ends n (wait_loop fuel c l)
unfolding wait_loop
wait_loop-Ends zero c n l h k = absurd (omega arith)
wait_loop-Ends (suc fuel) c n l h k = Ends-if (c == b'$') n _ _ k (
    Ends-bind get_next_char _ (length l.input) n l (get_next_char-Ends l)
      (λ d l' less. wait_loop-Ends fuel d n l' (omega arith) (omega arith)))

data_loop-Ends :
    (fuel c n : ℕ) (l : Link)
    → length l.input < fuel
    → length l.input < n
    → Ends n (data_loop fuel c l)
unfolding data_loop
data_loop-Ends zero c n l h k = absurd (omega arith)
data_loop-Ends (suc fuel) c n l h k =
    Ends-if (ltb 0 (bytes_left (data_view l)) && not (ends_data c)) n _ (pure c l)
      (Ends-if (c == b'}') n _ _
        (Ends-bind get_next_char _ (length l.input) n (update_checksum c l)
          (get_next_char-Ends (update_checksum c l))
          (λ d l' less. Ends-if (ends_data d) n (pure d l') _ (omega arith) (
            Ends-bind get_next_char _ (length l'.input) n
              (write_data_char (unescape_char d) (update_checksum d l'))
              (get_next_char-Ends (write_data_char (unescape_char d) (update_checksum d l')))
              (λ e l'' fewer. data_loop-Ends fuel e n l'' (omega arith) (omega arith)))))
        (Ends-bind get_next_char _ (length l.input) n (write_data_char c (update_checksum c l))
          (get_next_char-Ends (write_data_char c (update_checksum c l)))
          (λ d l' less. data_loop-Ends fuel d n l' (omega arith) (omega arith))))
      k

get_packet_data-Ends : (l : Link) → Ends (length l.input) (get_packet_data l)
unfolding get_packet_data
get_packet_data-Ends l =
    Ends-bind get_next_char _ (length l.input) (length l.input) _ (get_next_char-Ends _)
      (λ c l' less.
        Ends-bind (λ k. data_loop (length k.input + 1) c k) _ (length l.input) (length l.input) l'
          (data_loop-Ends (length l'.input + 1) c (length l.input) l' (omega arith) less)
          (λ d l'' fewer. fewer))

complete_loop-Ends :
    (fuel : ℕ) (l : Link) → length l.input < fuel → Ends (length l.input) (complete_loop fuel l)
unfolding complete_loop wait_for_start_of_next_packet
complete_loop-Ends zero l h = absurd (omega arith)
complete_loop-Ends (suc fuel) l h =
    Ends-bind wait_for_start_of_next_packet _ (suc (length l.input)) (length l.input) l
      (wait_loop-Ends (length l.input + 1) l.last_char (suc (length l.input)) l (omega arith)
        (omega arith))
      (λ _ l₁ less.
        Ends-bind get_packet_data _ (length l₁.input) (length l.input) l₁ (get_packet_data-Ends l₁)
          (λ complete l₂ fewer. Ends-if complete (length l.input) _ _ (omega arith) (
            Ends-mono (length l₂.input) (length l.input) (complete_loop fuel l₂) (omega arith)
              (complete_loop-Ends fuel l₂ (omega arith)))))

extract-Ends : (n : ℕ) (l : Link) → length l.input < n → Ends n (extract_expected_checksum l)
unfolding extract_expected_checksum
extract-Ends n l h =
    Ends-bind get_next_char _ (length l.input) n (record l { exn = 0 }) (get_next_char-Ends _)
      (λ c l₁ less.
        Ends-bind get_next_char _ (length l₁.input) n l₁ (get_next_char-Ends l₁) (λ d l₂ fewer.
          let (hi, exn₁) = hex_char_to_nibble c l₂.exn in
          let (lo, exn₂) = hex_char_to_nibble d exn₁ in
          if-lt (exn₁ == 0) n _ _ (if-lt (exn₂ == 0) n _ _ (omega arith) (omega arith))
            (omega arith)))

get_packet_data_and_expected_checksum-Ends :
    (l : Link) → Ends (length l.input) (get_packet_data_and_expected_checksum l)
unfolding get_packet_data_and_expected_checksum
get_packet_data_and_expected_checksum-Ends l =
    Ends-bind (λ k. complete_loop (length k.input + 1) k) _ (length l.input) (length l.input) l
      (complete_loop-Ends (length l.input + 1) l (omega arith))
      (λ _ l₁ less. extract-Ends (length l.input) l₁ less)

has_receive_data-Ends : (n : ℕ) (l : Link) → length l.input < n → Ends n (has_receive_data l)
unfolding has_receive_data
has_receive_data-Ends n l h = go l.polls
  where
    go :
        (polls : List Bool)
        → Ends n
            (elim polls [ [] ↦ done false l | more ∷ rest ↦ done more (record l { polls = rest }) ])
    go [] = h
    go (more ∷ rest) = h

recent_loop-Ends :
    (fuel : ℕ) (l : Link) → length l.input < fuel → Ends (length l.input) (recent_loop fuel l)
unfolding recent_loop
recent_loop-Ends zero l h = absurd (omega arith)
recent_loop-Ends (suc fuel) l h =
    Ends-bind get_packet_data_and_expected_checksum _ (length l.input) (length l.input) l
      (get_packet_data_and_expected_checksum-Ends l)
      (λ _ l₁ less.
        Ends-bind has_receive_data _ (length l.input) (length l.input) l₁
          (has_receive_data-Ends (length l.input) l₁ less)
          (λ more l₂ fewer.
            Ends-if more (length l.input) _ _
              (Ends-mono (length l₂.input) (length l.input) (recent_loop fuel l₂) (omega arith)
                (recent_loop-Ends fuel l₂ (omega arith)))
              fewer))

get_most_recent_packet-Ends : (l : Link) → Ends (length l.input) (get_most_recent_packet l)
unfolding get_most_recent_packet
get_most_recent_packet-Ends l =
    Ends-bind (λ k. recent_loop (length k.input + 1) k) _ (length l.input) (length l.input) l
      (recent_loop-Ends (length l.input + 1) l (omega arith))
      (λ _ l' less. if-lt (is_checksum_valid l') (length l.input) _ _ less less)

get_loop-Ends :
    (fuel n : ℕ) (l : Link) → length l.input < fuel → length l.input ≤ n → Ends n (get_loop fuel l)
unfolding get_loop
get_loop-Ends zero n l h k = absurd (omega arith)
get_loop-Ends (suc fuel) n l h k =
    Ends-bind get_most_recent_packet _ (length l.input) n l (get_most_recent_packet-Ends l)
      (λ _ l' less.
        Ends-if (is_checksum_valid l') n (pure tt l') (get_loop fuel l') (omega arith)
          (get_loop-Ends fuel n l' (omega arith) (omega arith)))

-- `Packet_GetFromGDB` in any state of the packet, on any characters from gdb: it returns and has
-- taken a character, or waits for a character that gdb does not send; no loop of it runs on.
pub get_from_gdb-Ends : (l : Link) → Ends (length l.input) (get_from_gdb l)
unfolding get_from_gdb init_packet_structure
get_from_gdb-Ends l =
    Ends-bind (λ k. get_loop (length k.input + 1) k) _ (length l.input) (length l.input)
      (init_packet_structure l)
      (get_loop-Ends (length l.input + 1) (length l.input) (init_packet_structure l) (omega arith)
        (omega arith))
      (λ _ l' less. less)
