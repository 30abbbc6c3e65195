-- ===== src/Packet/Data.antt =====
-- `getPacketData` on the text of a packet.
use mri.Prelude.{
  ℕ, zero, suc, ◌+◌, ◌%◌, ◌<◌, ◌≤◌, ◌≡◌, ◌≢◌, refl, ap, ◌∙◌, arith, List, [], ◌∷◌, ◌++◌, All,
  length, true, false, lt→ltb, ==_iff, ==_false, length-append,
}
use mri.Libc.{peek, next}
use mri.Buffer.Core.{bytes_left}
use mri.Buffer.Cases.{bytes_left-eq}
use mri.Buffer.Emit.{overwrite, emit, write_char-emit, overwrite-append}
use mri.Packet.Link.{Link, done, data_view, with_data, get_next_char}
use mri.Packet.Receive.{data_loop, update_checksum, ends_data, unescape_char}
use mri.Packet.Frames.{Item, plain, escaped, text_of, encode, item_sum, IsItem}

-- One character stored in the data buffer.
abbrev store : ℕ → Link → Link
store c l = with_data l (emit (data_view l) (c ∷ []))

-- The rounds of the loop.
module _ (fuel c : ℕ) (l : Link) where
  data_loop-stop : ends_data c ≡ true → data_loop (suc fuel) c l ≡ done c l
  unfolding data_loop
  data_loop-stop h = ground arith

  module _ (d : ℕ) (rest : List ℕ) (room : 0 < bytes_left (data_view l))
      (inside : ends_data c ≡ false) where
    data_loop-plain :
        c ≢ b'}'
        → data_loop (suc fuel) c (record l { input = d ∷ rest })
          ≡ data_loop fuel d
              (record (store c (update_checksum c l)) { input = rest; last_char = d })
    unfolding data_loop get_next_char
    data_loop-plain h =
        rw (lt→ltb _ _ room, inside, ==_false c b'}' h, write_char-emit (data_view l) c room)

    -- Behind the escape: `c` is '}', and `e` the character that it hides.
    data_loop-escaped :
        (e : ℕ)
        → c ≡ b'}'
        → ends_data e ≡ false
        → data_loop (suc fuel) c (record l { input = e ∷ d ∷ rest })
          ≡ data_loop fuel d
              (record (store (unescape_char e) (update_checksum e (update_checksum c l))) {
                input = rest;
                last_char = d;
              })
    unfolding data_loop get_next_char
    data_loop-escaped e h other = rw (
      lt→ltb _ _ room,
      inside,
      (==_iff c b'}').1 h,
      other,
      write_char-emit (data_view l) (unescape_char e) room,
    )

-- The state of a packet whose data buffer has taken `text`, sent as characters of the sum `sum`, up
-- to the '#'.
abbrev pub taken : ℕ → List ℕ → ℕ → List ℕ → Link → Link
taken exn text sum rest l = record l {
  mem = overwrite l.mem l.data_buffer.current text;
  exn = exn;
  data_buffer = record {
    start = l.data_buffer.start;
    last = l.data_buffer.last;
    current = l.data_buffer.current + length text;
  };
  last_char = b'#';
  calculated_checksum = (l.calculated_checksum + sum) % 256;
  input = rest;
}

-- A link on which the first character of `chars` has just been received.
abbrev pub received : List ℕ → Link → Link
received chars l = record l { input = next chars; last_char = peek chars }

taken-taken :
    (exn₁ exn₂ s t : ℕ) (xs ys rest rest' : List ℕ) (l : Link)
    → taken exn₂ ys t rest (taken exn₁ xs s rest' l) ≡ taken exn₂ (xs ++ ys) (s + t) rest l
taken-taken exn₁ exn₂ s t xs ys rest rest' l = λ i. record l {
  mem = overwrite-append l.mem l.data_buffer.current xs ys i;
  exn = exn₂;
  data_buffer = record {
    start = l.data_buffer.start;
    last = l.data_buffer.last;
    current = place i;
  };
  last_char = b'#';
  calculated_checksum = total i;
  input = rest;
}
  where
    place :
        l.data_buffer.current + length xs + length ys ≡ l.data_buffer.current + length (xs ++ ys)
    place = omega (arith, length-append xs ys)

    total : ((l.calculated_checksum + s) % 256 + t) % 256 ≡ (l.calculated_checksum + (s + t)) % 256
    total = omega arith

taken-nil :
    (rest : List ℕ) (l : Link)
    → l.calculated_checksum < 256
    → received (b'#' ∷ rest) l ≡ taken l.exn [] 0 rest l
unfolding overwrite
taken-nil rest l h = ground arith

pub encode-cons :
    (items : List Item) (rest : List ℕ)
    → encode items (b'#' ∷ rest)
      ≡ peek (encode items (b'#' ∷ rest)) ∷ next (encode items (b'#' ∷ rest))
encode-cons [] rest = refl
encode-cons (plain c ∷ items) rest = refl
encode-cons (escaped c ∷ items) rest = refl

not_end : (c : ℕ) → c ≢ b'$' → c ≢ b'#' → ends_data c ≡ false
not_end c h k = ground arith

left_in :
    (c n : ℕ) (l : Link) → suc n ≤ bytes_left (data_view l) → n ≤ bytes_left (data_view (store c l))
left_in c n l h = omega (arith, bytes_left-eq (data_view l), bytes_left-eq (data_view (store c l)))

-- The loop takes the whole text, where there is room for it, and stops at its '#'.
pub data_loop-items :
    (items : List Item) (fuel : ℕ) (l : Link) (rest : List ℕ)
    → All IsItem items
    → l.calculated_checksum < 256
    → length items ≤ bytes_left (data_view l)
    → length items < fuel
    → (exn : ℕ) × (data_loop fuel
          (peek (encode items (b'#' ∷ rest)))
          (received (encode items (b'#' ∷ rest)) l)
        ≡ done b'#' (taken exn (text_of items) (item_sum items) rest l))
data_loop-items items zero l rest ok sum room more = absurd (omega arith)
data_loop-items [] (suc fuel) l rest ok sum room more = (
  l.exn,
  data_loop-stop fuel b'#' (received (b'#' ∷ rest) l) refl ∙ ap (done b'#') (taken-nil rest l sum),
)
data_loop-items (plain c ∷ items) (suc fuel) l rest (item, ok) sum room more =
    let chars = encode items (b'#' ∷ rest) in
    let l₁ = store c (update_checksum c l) in
    let ih =
      data_loop-items items fuel l₁ rest ok (omega arith)
        (left_in c (length items) (update_checksum c l) room) (omega arith) in
    (
      ih.0,
      ap (λ x. data_loop (suc fuel) c (record l { input = x; last_char = c }))
            (encode-cons items rest)
          ∙ data_loop-plain fuel c (record l { last_char = c }) (peek chars) (next chars)
              (omega arith) (not_end c item.0 item.1) item.2
          ∙ ih.1
          ∙ ap (done b'#')
              (taken-taken 0 ih.0 c (item_sum items) (c ∷ []) (text_of items) rest [] l),
    )
data_loop-items (escaped c ∷ items) (suc fuel) l rest (item, ok) sum room more =
    let chars = encode items (b'#' ∷ rest) in
    let l₁ = store (unescape_char c) (update_checksum c (update_checksum b'}' l)) in
    let ih =
      data_loop-items items fuel l₁ rest ok (omega arith)
        (left_in (unescape_char c) (length items) (update_checksum c (update_checksum b'}' l)) room)
        (omega arith) in
    (
      ih.0,
      ap (λ x. data_loop (suc fuel) b'}' (record l { input = c ∷ x; last_char = b'}' }))
            (encode-cons items rest)
          ∙ data_loop-escaped fuel b'}' (record l { last_char = b'}' }) (peek chars) (next chars)
              (omega arith) refl c refl (not_end c item.0 item.1)
          ∙ ih.1
          ∙ ap
              (λ k. done b'#' (
                taken ih.0 (text_of items) (item_sum items) rest
                  (record l₁ { calculated_checksum = k })))
              {x = ((l.calculated_checksum + b'}') % 256 + c) % 256}
              {y = (l.calculated_checksum + (b'}' + c)) % 256} (omega arith)
          ∙ ap (done b'#') (
              taken-taken 0 ih.0 (b'}' + c) (item_sum items) (unescape_char c ∷ []) (text_of items)
                rest [] l)
          ∙ ap (λ k. done b'#' (taken ih.0 (unescape_char c ∷ text_of items) k rest l))
              {x = b'}' + c + item_sum items} {y = b'}' + (c + item_sum items)} (omega arith),
    )
