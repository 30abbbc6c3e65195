-- ===== src/Buffer/Safety/Matches.antt =====
-- The routines of core/buffer.c that compare the text that comes next.
use mri.Prelude.{
  ℕ, zero, suc, ◌+◌, ◌*◌, ◌≤◌, ◌≡◌, refl, arith, List, inl, inr, Bool-cases, Bool, true, false, ltb,
  lt→ltb, le→ltb_false, if◌then◌else◌,
}
use mri.Libc.{peek, next}
use mri.Buffer.Core.{
  Buffer, IsValid, clear_exception_code, bytes_left, throw_if_left_lt, throw_and_flag_if_left_lt,
}
use mri.Buffer.Bytes.{read_byte_as_hex}
use mri.Buffer.Matching.{
  to_lower, does_buffer_contain_this_string, hex_string_compare_loop, hex_string_compare,
  does_buffer_contain_this_hex_string, matches_with, matches_string, matches_hex_string,
}
use mri.Buffer.Cases.{room-cases, bytes_left-eq}
use mri.Buffer.Safety.Reads.{read_byte_as_hex-Keeps}
use mri.Buffer.Safety.{Keeps, Keeps-refl, Keeps-trans, Keeps-move, clear-Keeps, throw-Keeps}

hex_string_compare_loop-Keeps :
    (b : Buffer) (desired : List ℕ) (rounds : ℕ)
    → IsValid b
    → Keeps b (hex_string_compare_loop b desired rounds).1
unfolding hex_string_compare_loop
hex_string_compare_loop-Keeps b desired zero v = Keeps-refl v
hex_string_compare_loop-Keeps b desired (suc rounds) v =
    let k : Keeps b (read_byte_as_hex b).1 = read_byte_as_hex-Keeps v in
    let byte = to_lower (read_byte_as_hex b).0 in
    elim (Bool-cases (ltb byte (to_lower (peek desired)))) [
      | inl less ↦ rw less k
      | inr not_less ↦ rw not_less (elim (Bool-cases (ltb (to_lower (peek desired)) byte)) [
        | inl greater ↦ rw greater k
        | inr same ↦ rw same (
            Keeps-trans k
              (hex_string_compare_loop-Keeps (read_byte_as_hex b).1 (next desired) rounds k.valid))
      ])
    ]

read_byte_as_hex-last : (b : Buffer) → (read_byte_as_hex b).1.last ≡ b.last
unfolding read_byte_as_hex throw_and_flag_if_left_lt
read_byte_as_hex-last b = ground arith

hex_string_compare_loop-last :
    (b : Buffer) (desired : List ℕ) (rounds : ℕ)
    → (hex_string_compare_loop b desired rounds).1.last ≡ b.last
unfolding hex_string_compare_loop
hex_string_compare_loop-last b desired zero = refl
hex_string_compare_loop-last b desired (suc rounds) = ground (
  arith,
  read_byte_as_hex-last b,
  hex_string_compare_loop-last (read_byte_as_hex b).1 (next desired) rounds,
)

-- The comparison moves the pointer back to where it was.
hex_string_compare-Keeps :
    {b : Buffer} (desired : List ℕ) (n : ℕ) → IsValid b → Keeps b (hex_string_compare b desired n).1
unfolding hex_string_compare
hex_string_compare-Keeps {b} desired n v =
    let k = hex_string_compare_loop-Keeps b desired n v in
    let loop = (hex_string_compare_loop b desired n).1 in
    record {
      valid = record {
        ordered = k.valid.ordered;
        inside = k.valid.inside;
        after_start = omega (arith, v.after_start, k.same_start);
        before_end = omega (arith, v.before_end, hex_string_compare_loop-last b desired n);
      };
      same_start = k.same_start;
      last_le = k.last_le;
      same_length = k.same_length;
      frame = k.frame;
    }

-- `b'` is `b` up to the exception code.
record SamePlace (b b' : Buffer) : Type 0 where
  keeps : Keeps b b'
  same_last : b'.last ≡ b.last
  same_current : b'.current ≡ b.current

module _ (compare_func : Buffer → List ℕ → ℕ → Bool × Buffer) where
  matches_with-Keeps :
      ((b : Buffer) (string : List ℕ) (n : ℕ) → IsValid b → SamePlace b (compare_func b string n).1)
      → (b : Buffer) (char_length : ℕ) (string : List ℕ) (n : ℕ) → IsValid b
      → Keeps b (matches_with compare_func char_length b string n).1
  unfolding matches_with throw_if_left_lt
  matches_with-Keeps comp b char_length string n v =
      elim (room-cases (clear_exception_code b) (n * char_length)) [
        | inr short ↦ rw (lt→ltb _ _ short) (throw-Keeps 1 v)
        | inl room ↦ rw (le→ltb_false _ _ room) (matched room)
      ]
    where
      b₀ : Buffer
      b₀ = clear_exception_code b

      k : SamePlace b₀ (compare_func b₀ string n).1
      k = comp b₀ string n (clear-Keeps v).valid

      b₁ : Buffer
      b₁ = (compare_func b₀ string n).1

      found :
          n * char_length ≤ bytes_left b₀
          → Keeps b₁ (record b₁ { current = b₁.current + n * char_length })
      found room =
          Keeps-move b₁.exn (b₁.current + n * char_length) k.keeps.valid
            (omega (arith, k.keeps.valid.after_start))
            (omega (arith, bytes_left-eq b₀, k.same_last, k.same_current, k.keeps.valid.before_end))

      matched :
          n * char_length ≤ bytes_left b₀
          → Keeps b
              (if◌then◌else◌ {A = Bool × Buffer}
                (compare_func b₀ string n).0
                (true, record b₁ { current = b₁.current + n * char_length })
                (false, b₁)).1
      matched room = elim (Bool-cases (compare_func b₀ string n).0) [
        | inl same ↦ rw same (Keeps-trans (clear-Keeps v) (Keeps-trans k.keeps (found room)))
        | inr other ↦ rw other (Keeps-trans (clear-Keeps v) k.keeps)
      ]

pub matches_string-Keeps :
    {b : Buffer} (string : List ℕ) (n : ℕ) → IsValid b → Keeps b (matches_string b string n).1
unfolding matches_string does_buffer_contain_this_string
matches_string-Keeps {b} string n v =
    matches_with-Keeps does_buffer_contain_this_string
      (λ b string n v. record { keeps = Keeps-refl v; same_last = refl; same_current = refl }) b 1
      string n v

pub matches_hex_string-Keeps :
    {b : Buffer} (string : List ℕ) (n : ℕ) → IsValid b → Keeps b (matches_hex_string b string n).1
unfolding matches_hex_string does_buffer_contain_this_hex_string hex_string_compare
matches_hex_string-Keeps {b} string n v =
    matches_with-Keeps does_buffer_contain_this_hex_string
      (λ b string n v. record {
        keeps = hex_string_compare-Keeps string n v;
        same_last = hex_string_compare_loop-last b string n;
        same_current = refl;
      })
      b 2 string n v
