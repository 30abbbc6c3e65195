-- ===== src/Buffer/Safety.antt =====
-- The memory that a routine of core/buffer.c may touch.
pub mod Calls
pub mod Matches
pub mod Reads
pub mod Writes
use mri.Prelude.{
  ℕ, zero, suc, ◌+◌, ◌-◌, ◌<◌, ◌≤◌, ◌≡◌, ◌≢◌, refl, ◌∙◌, arith, ltb, ltb→lt, length, length-set,
  get_elem?, get_elem?-set_ne, List, ◌⊎◌, inl, inr, Bool, true, false, Bool-cases, ◌==◌,
  if◌then◌else◌,
}
use mri.Buffer.Core.{
  Buffer, IsValid, clear_exception_code, put, reset, advance, set_end_of_buffer, bytes_left,
}
use mri.Buffer.Cases.{overrun}

-- `b'` is a later state of the same buffer: valid, with an end that has at most moved down, and with
-- the memory outside of the bounds of `b` as it was.
pub record Keeps (b b' : Buffer) : Type 0 where
  pub valid : IsValid b'
  pub same_start : b'.start ≡ b.start
  pub last_le : b'.last ≤ b.last
  pub same_length : length b'.mem ≡ length b.mem
  pub frame : (i : ℕ) → (i < b.start) ⊎ (b.last ≤ i) → get_elem? b'.mem i ≡ get_elem? b.mem i

pub Keeps-refl : {b : Buffer} → IsValid b → Keeps b b
Keeps-refl v = record {
  valid = v;
  same_start = refl;
  last_le = omega arith;
  same_length = refl;
  frame = λ i h. refl;
}

pub Keeps-trans : {a b c : Buffer} → Keeps a b → Keeps b c → Keeps a c
Keeps-trans {a} {b} {c} k l = record {
  valid = l.valid;
  same_start = l.same_start ∙ k.same_start;
  last_le = omega arith;
  same_length = l.same_length ∙ k.same_length;
  frame = λ i h. l.frame i (outside i h) ∙ k.frame i h;
}
  where
    outside : (i : ℕ) → (i < a.start) ⊎ (a.last ≤ i) → (i < b.start) ⊎ (b.last ≤ i)
    outside i (inl h) = inl (omega (arith, k.same_start))
    outside i (inr h) = inr (omega (arith, k.last_le))

-- A change of the pointer and the exception code alone.
pub Keeps-move :
    {b : Buffer} (exn current : ℕ)
    → IsValid b
    → b.start ≤ current
    → current ≤ b.last + 1
    → Keeps b (record b { exn = exn; current = current })
Keeps-move exn current v lo hi = record {
  valid = record { ordered = v.ordered; inside = v.inside; after_start = lo; before_end = hi };
  same_start = refl;
  last_le = omega arith;
  same_length = refl;
  frame = λ i h. refl;
}

-- One character stored, where there is room.
pub put-Keeps : {b : Buffer} (c : ℕ) → IsValid b → b.current < b.last → Keeps b (put b c)
unfolding put
put-Keeps {b} c v room = record {
  valid = ground (arith, length-set b.mem b.current c);
  same_start = refl;
  last_le = omega arith;
  same_length = length-set b.mem b.current c;
  frame = λ i h. get_elem?-set_ne b.mem b.current i c (apart i h);
}
  where
    apart : (i : ℕ) → (i < b.start) ⊎ (b.last ≤ i) → b.current ≢ i
    apart i (inl h) = omega arith
    apart i (inr h) = omega arith

-- `throwExceptionAndFlagBufferOverrun…` flags at most one past the end.
pub overrun-Keeps : {b : Buffer} → IsValid b → Keeps b (overrun b)
overrun-Keeps {b} v = Keeps-move 1 (b.last + 1) v (omega (arith, v.ordered)) (omega arith)

pub clear-Keeps : {b : Buffer} → IsValid b → Keeps b (clear_exception_code b)
clear-Keeps {b} v = Keeps-move 0 b.current v v.after_start v.before_end

-- A change of the exception code alone.
pub throw-Keeps : {b : Buffer} (exn : ℕ) → IsValid b → Keeps b (record b { exn = exn })
throw-Keeps {b} exn v = Keeps-move exn b.current v v.after_start v.before_end

pub reset-Keeps : {b : Buffer} → IsValid b → Keeps b (reset b)
unfolding reset
reset-Keeps {b} v = Keeps-move b.exn b.start v (omega arith) (omega (arith, v.ordered))

pub advance-Keeps : {b : Buffer} (amount : ℕ) → IsValid b → Keeps b (advance b amount)
unfolding advance
advance-Keeps {b} amount v = Keeps-move b.exn _ v (ground arith) (ground arith)

pub set_end_of_buffer-Keeps : {b : Buffer} → IsValid b → Keeps b (set_end_of_buffer b)
unfolding set_end_of_buffer
set_end_of_buffer-Keeps {b} v = elim (Bool-cases (ltb b.current b.last)) [
  | inl less ↦ rw less (shrunk (ltb→lt _ _ less))
  | inr not_less ↦ rw not_less (Keeps-refl v)
]
  where
    shrunk : b.current < b.last → Keeps b (record b { last = b.current })
    shrunk h = record {
      valid = record {
        ordered = v.after_start;
        inside = omega (arith, v.inside);
        after_start = v.after_start;
        before_end = omega arith;
      };
      same_start = refl;
      last_le = omega arith;
      same_length = refl;
      frame = λ i o. refl;
    }

-- Both branches of a test.
pub if-Keeps : {b c d : Buffer} (t : Bool) → Keeps b c → Keeps b d → Keeps b (if t then c else d)
if-Keeps true k l = k
if-Keeps false k l = l
