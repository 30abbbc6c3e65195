-- ===== src/Buffer/Emit.antt =====
-- What the routines of core/buffer.c write, as one text laid over the memory.
use mri.Prelude.{
  ℕ, suc, ◌+◌, ◌<◌, ◌≤◌, ◌≡◌, refl, ap, ◌∙◌, arith, List, [], ◌∷◌, ◌++◌, length, length-append,
  length-set, set, slice, slice-step, sym, ap₂, slice-set_above, slice-append_slice,
  get_or-set_self,
}
use mri.HexConvert.{extract_hi_nibble, extract_lo_nibble, nibble_to_hex_char}
use mri.Buffer.Core.{Buffer, clear_exception_code, put, bytes_left}
use mri.Buffer.Bytes.{write_char, write_byte_as_hex, copy_string, write_sized_string}
use mri.Buffer.Cases.{write_char-room, write_byte_as_hex-room, write_sized_string-room}

-- `text` stored from index `i` on.
unfoldable pub overwrite : List ℕ → ℕ → List ℕ → List ℕ
overwrite mem i [] = mem
overwrite mem i (c ∷ text) = overwrite (set mem i c) (i + 1) text

-- The buffer after `text` has been written and nothing was thrown.
abbrev pub emit : Buffer → List ℕ → Buffer
emit b text = record b {
  mem = overwrite b.mem b.current text;
  exn = 0;
  current = b.current + length text;
}

pub length-overwrite :
    (mem : List ℕ) (i : ℕ) (text : List ℕ) → length (overwrite mem i text) ≡ length mem
unfolding overwrite
length-overwrite mem i [] = refl
length-overwrite mem i (c ∷ text) = length-overwrite (set mem i c) (i + 1) text ∙ length-set mem i c

pub overwrite-append :
    (mem : List ℕ) (i : ℕ) (s t : List ℕ)
    → overwrite (overwrite mem i s) (i + length s) t ≡ overwrite mem i (s ++ t)
unfolding overwrite
overwrite-append mem i [] t = ap (λ k. overwrite mem k t) {x = i + 0} {y = i} (omega arith)
overwrite-append mem i (c ∷ s) t =
    ap (λ k. overwrite (overwrite (set mem i c) (i + 1) s) k t) {x = i + suc (length s)}
      {y = (i + 1) + length s} (omega arith)
    ∙ overwrite-append (set mem i c) (i + 1) s t

-- Two writes, one after the other, are one.
pub emit-emit : (b : Buffer) (s t : List ℕ) → emit (emit b s) t ≡ emit b (s ++ t)
emit-emit b s t = λ i. record {
  mem = overwrite-append b.mem b.current s t i;
  exn = 0;
  start = b.start;
  last = b.last;
  current = place i;
}
  where
    place : (b.current + length s) + length t ≡ b.current + length (s ++ t)
    place = omega (arith, length-append s t)

-- Nothing below the text changes, and the text is there afterwards.
overwrite_below :
    (mem : List ℕ) (i : ℕ) (text : List ℕ) (j n : ℕ)
    → j + n ≤ i
    → slice (overwrite mem i text) j n ≡ slice mem j n
unfolding overwrite
overwrite_below mem i [] j n h = refl
overwrite_below mem i (c ∷ text) j n h =
    overwrite_below (set mem i c) (i + 1) text j n (omega arith) ∙ slice-set_above mem j n i c h

pub slice-overwrite_below :
    (mem : List ℕ) (i : ℕ) (text : List ℕ) (j n : ℕ)
    → j + n ≤ i
    → slice (overwrite mem i text) j n ≡ slice mem j n
slice-overwrite_below = overwrite_below

pub slice-overwrite :
    (mem : List ℕ) (i : ℕ) (text : List ℕ)
    → i + length text ≤ length mem
    → slice (overwrite mem i text) i (length text) ≡ text
unfolding overwrite
slice-overwrite mem i [] h = refl
slice-overwrite mem i (c ∷ text) h =
    ap (λ k. slice (overwrite (set mem i c) (i + 1) text) i k) {x = suc (length text)}
      {y = 1 + length text} (omega arith)
    ∙ sym (slice-append_slice out i 1 (length text) (omega (arith, size)))
    ∙ ap₂ ◌++◌ first
        (slice-overwrite (set mem i c) (i + 1) text (omega (arith, length-set mem i c)))
  where
    out : List ℕ
    out = overwrite (set mem i c) (i + 1) text

    size : length out ≡ length mem
    size = length-overwrite (set mem i c) (i + 1) text ∙ length-set mem i c

    first : slice out i 1 ≡ c ∷ []
    first =
        overwrite_below (set mem i c) (i + 1) text i 1 (omega arith)
        ∙ slice-step (set mem i c) i 0 0 (omega (arith, length-set mem i c))
        ∙ ap (λ k. k ∷ []) (get_or-set_self mem i c 0 (omega arith))

-- The two digits of a byte.
abbrev pub hex_byte : ℕ → List ℕ
hex_byte byte =
    nibble_to_hex_char (extract_hi_nibble byte) ∷ nibble_to_hex_char (extract_lo_nibble byte) ∷ []

pub write_char-emit : (b : Buffer) (c : ℕ) → 0 < bytes_left b → write_char b c ≡ emit b (c ∷ [])
unfolding put overwrite
write_char-emit b c h = write_char-room b c h

pub write_byte_as_hex-emit :
    (b : Buffer) (byte : ℕ) → 2 ≤ bytes_left b → write_byte_as_hex b byte ≡ emit b (hex_byte byte)
unfolding put overwrite
write_byte_as_hex-emit b byte h = rw (write_byte_as_hex-room b byte h) (ground arith)

copy_string-emit :
    (b : Buffer) (text rest : List ℕ)
    → b.exn ≡ 0
    → copy_string b (text ++ rest) (length text) ≡ emit b text
unfolding copy_string put overwrite
copy_string-emit b [] rest e = ground arith
copy_string-emit b (c ∷ text) rest e = copy_string-emit (put b c) text rest e ∙ ground arith

-- The characters of a string that fits are written, whatever follows them in the source.
pub write_sized_string-emit :
    (b : Buffer) (text rest : List ℕ)
    → length text ≤ bytes_left b
    → write_sized_string b (text ++ rest) (length text) ≡ emit b text
write_sized_string-emit b text rest h =
    write_sized_string-room b (text ++ rest) (length text) h
    ∙ copy_string-emit (clear_exception_code b) text rest refl
