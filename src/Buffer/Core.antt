-- ===== src/Buffer/Core.antt =====
-- core/buffer.c: the structure, and the routines that move its pointers or throw.
use mri.Prelude.{ℕ, ◌+◌, ◌-◌, ◌≤◌, List, Bool, ltb, ◌==◌, if◌then◌else◌, get_or, set, length}
use mri.TryCatch.{no_exception, set_exception_code, buffer_overrun_exception}

-- `Buffer`, with what its pointers point into: `mem` is the char array, and `start`, `last` (pEnd)
-- and `current` are indices of it. `exn` is `mriExceptionCode`. A char is its code, 0 to 255.
pub record Buffer : Type 0 where
  pub mem : List ℕ
  pub exn : ℕ
  pub start : ℕ
  pub last : ℕ
  pub current : ℕ

abbrev pub clear_exception_code : Buffer → Buffer
clear_exception_code b = record b { exn = no_exception }

abbrev pub throw : ℕ → Buffer → Buffer
throw exception_code b = record b { exn = set_exception_code exception_code b.exn }

-- The test of `__catch`, negated.
abbrev pub no_throw : Buffer → Bool
no_throw b = b.exn == 0

unfoldable pub reset : Buffer → Buffer
reset b = record b { current = b.start }

-- `Buffer_Init`: the pointers are set anew, over the same memory.
unfoldable pub init : Buffer → ℕ → ℕ → Buffer
unfolding reset
init b buffer_start buffer_size =
    reset (record b { start = buffer_start; last = buffer_start + buffer_size })

unfoldable pub set_end_of_buffer : Buffer → Buffer
set_end_of_buffer b = if ltb b.current b.last then record b { last = b.current } else b

unfoldable pub overrun_detected : Buffer → Bool
overrun_detected b = ltb b.last b.current

unfoldable pub bytes_left : Buffer → ℕ
unfolding overrun_detected
bytes_left b = if overrun_detected b then 0 else b.last - b.current

unfoldable pub advance : Buffer → ℕ → Buffer
unfolding bytes_left
advance b amount =
    let left = bytes_left b in
    let amount' = if ltb left amount then left else amount in
    record b { current = b.current + amount' }

unfoldable pub get_length : Buffer → ℕ
get_length b = if ltb b.last b.start then 0 else b.last - b.start

unfoldable pub get_array : Buffer → ℕ
get_array b = b.start

-- `recordThatBufferOverrunHasOccurred`
abbrev pub record_overrun : Buffer → Buffer
record_overrun b = record b { current = b.last + 1 }

-- `throwExceptionAndFlagBufferOverrunIfBufferLeftIsSmallerThan`
unfoldable pub throw_and_flag_if_left_lt : Buffer → ℕ → Buffer
unfolding bytes_left set_exception_code
throw_and_flag_if_left_lt b size =
    if ltb (bytes_left b) size then throw buffer_overrun_exception (record_overrun b) else b

-- `throwExceptionIfBufferLeftIsSmallerThan`
unfoldable pub throw_if_left_lt : Buffer → ℕ → Buffer
unfolding bytes_left set_exception_code
throw_if_left_lt b size = if ltb (bytes_left b) size then throw buffer_overrun_exception b else b

-- `*(pCurrent++) = c`
unfoldable pub put : Buffer → ℕ → Buffer
put b c = record b { mem = set b.mem b.current c; current = b.current + 1 }

-- `pCurrent[i]`
unfoldable pub peek_at : Buffer → ℕ → ℕ
peek_at b i = get_or b.mem (b.current + i) 0

-- The pointers are in order, in the memory. `current` is one past `last` once an overrun has been
-- flagged, and only then.
pub record IsValid (b : Buffer) : Type 0 where
  pub ordered : b.start ≤ b.last
  pub inside : b.last ≤ length b.mem
  pub after_start : b.start ≤ b.current
  pub before_end : b.current ≤ b.last + 1
