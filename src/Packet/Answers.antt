-- ===== src/Packet/Answers.antt =====
-- The answers of gdb to a packet that `Packet_SendToGDB` sends.
use mri.Prelude.{
  ℕ, zero, suc, ◌+◌, ◌<◌, ◌≡◌, ◌≢◌, refl, ap, ◌∙◌, arith, List, [], ◌∷◌, ◌++◌, length, true,
  ==_false, replicate, ◌⊎◌, if-false,
}
use mri.Packet.Link.{Link, done, ◌>>=◌, >>=-done, get_next_char}
use mri.Packet.Send.{skip_control_c_loop, receive_char_after_skipping_control_c}

-- An answer: so many control-C characters, which are noted and skipped, and the character itself.
pub record Answer : Type 0 where
  pub interrupts : ℕ
  pub char : ℕ

abbrev pub answer_line : Answer → List ℕ → List ℕ
answer_line a rest = replicate a.interrupts 3 ++ (a.char ∷ rest)

abbrev pub answers_line : List Answer → List ℕ → List ℕ
answers_line [] rest = rest
answers_line (a ∷ answers) rest = answer_line a (answers_line answers rest)

-- It asks for the packet again, or ends the sending.
pub record IsRefusal (a : Answer) : Type 0 where
  pub no_interrupt : a.char ≢ 3
  pub no_plus : a.char ≢ b'+'
  pub no_start : a.char ≢ b'$'

abbrev pub IsEnd : Answer → Type 0
IsEnd a = (a.char ≡ b'+') ⊎ (a.char ≡ b'$')

-- What receiving an answer leaves alone.
pub record SamePacket (l l' : Link) : Type 0 where
  pub same_mem : l'.mem ≡ l.mem
  pub same_packet : l'.packet_buffer ≡ l.packet_buffer
  pub same_output : l'.output ≡ l.output

get_next_char-cons :
    (l : Link) (c : ℕ) (rest : List ℕ)
    → l.input ≡ c ∷ rest
    → get_next_char l ≡ done c (record l { input = rest; last_char = c })
unfolding get_next_char
get_next_char-cons l c rest h = rw h

skip_control_c-answer :
    (n fuel c : ℕ) (rest : List ℕ) (l : Link)
    → c ≢ 3
    → l.input ≡ replicate n 3 ++ (c ∷ rest)
    → n < fuel
    → (l' : Link) × ((get_next_char >>= λ d. skip_control_c_loop fuel d) l ≡ done c l')
      × (l'.input ≡ rest)
      × SamePacket l l'
unfolding skip_control_c_loop
skip_control_c-answer n zero c rest l ne h more = absurd (omega arith)
skip_control_c-answer zero (suc fuel) c rest l ne h more = (
  record l { input = rest; last_char = c },
  >>=-done get_next_char (λ d. skip_control_c_loop (suc fuel) d) l (get_next_char-cons l c rest h)
      ∙ if-false _ _ (==_false c 3 ne),
  refl,
  record { same_mem = refl; same_packet = refl; same_output = refl },
)
skip_control_c-answer (suc n) (suc fuel) c rest l ne h more =
    let chars = replicate n 3 ++ (c ∷ rest) in
    let l₁ = record l { input = chars; last_char = 3; control_c = true } in
    let (l', e, left, same) = skip_control_c-answer n fuel c rest l₁ ne refl (omega arith) in
    (
      l',
      >>=-done get_next_char (λ d. skip_control_c_loop (suc fuel) d) l
            (get_next_char-cons l 3 chars h)
          ∙ e,
      left,
      record {
        same_mem = same.same_mem;
        same_packet = same.same_packet;
        same_output = same.same_output;
      },
    )

pub interrupts-length : (n c : ℕ) (rest : List ℕ) → n < length (replicate n 3 ++ (c ∷ rest))
interrupts-length zero c rest = omega arith
interrupts-length (suc n) c rest = omega (arith, interrupts-length n c rest)

pub receive_char-answer :
    (a : Answer) (rest : List ℕ) (l : Link)
    → a.char ≢ 3
    → l.input ≡ answer_line a rest
    → (l' : Link) × (receive_char_after_skipping_control_c l ≡ done a.char l')
      × (l'.input ≡ rest)
      × SamePacket l l'
unfolding receive_char_after_skipping_control_c skip_control_c_loop
receive_char-answer a rest l ne h = go a.interrupts h
  where
    go :
        (n : ℕ)
        → l.input ≡ replicate n 3 ++ (a.char ∷ rest)
        → (l' : Link) × ((get_next_char >>= λ d. λ k. skip_control_c_loop (length k.input + 1) d k)
              l
            ≡ done a.char l')
          × (l'.input ≡ rest)
          × SamePacket l l'
    go zero h =
        let l₁ = record l { input = rest; last_char = a.char } in
        (
          l₁,
          >>=-done get_next_char (λ d. λ k. skip_control_c_loop (length k.input + 1) d k) l
                (get_next_char-cons l a.char rest h)
              ∙ ap (λ fuel. skip_control_c_loop fuel a.char l₁) {x = length rest + 1}
                  {y = suc (length rest)} (omega arith)
              ∙ if-false _ _ (==_false a.char 3 ne),
          refl,
          record { same_mem = refl; same_packet = refl; same_output = refl },
        )
    go (suc n) h =
        let chars = replicate n 3 ++ (a.char ∷ rest) in
        let l₁ = record l { input = chars; last_char = 3 } in
        let (l', e, left, same) =
          skip_control_c-answer n (length chars) a.char rest (record l₁ { control_c = true }) ne
            refl (interrupts-length n a.char rest) in
        (
          l',
          >>=-done get_next_char (λ d. λ k. skip_control_c_loop (length k.input + 1) d k) l
                (get_next_char-cons l 3 chars h)
              ∙ ap (λ fuel. skip_control_c_loop fuel 3 l₁) {x = length chars + 1}
                  {y = suc (length chars)} (omega arith)
              ∙ e,
          left,
          record {
            same_mem = same.same_mem;
            same_packet = same.same_packet;
            same_output = same.same_output;
          },
        )
