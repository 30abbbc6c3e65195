-- ===== src/Buffer/Signed.antt =====
-- `convertToIntegerAndThrowIfOutOfRange` with a 32-bit and with a 64-bit `uintmri_t`.
use mri.Prelude.{ℕ, ◌-◌, ◌%◌, ◌^◌, ◌<◌, ◌≤◌, ◌≡◌, ◌≢◌, arith, true, false}
use mri.Buffer.Core.{Buffer}
use mri.Buffer.Integers.{convert_to_integer}

-- With 64 bits, a number from 2 ^ 31 up to the greatest of `intmri_t` is not returned as itself,
-- though no exception is thrown: its low 32 bits are returned with their sign extended.
pub convert_to_integer_cut :
    (value : ℕ) (b : Buffer)
    → 2 ^ 31 ≤ value
    → value < 2 ^ 63
    → ((convert_to_integer 8 false value b).0 ≢ value)
      × ((convert_to_integer 8 false value b).1 ≡ b)
unfolding convert_to_integer
convert_to_integer_cut value b h k = ground arith

-- With 32 bits, a number below 2 ^ 31 is returned as itself, or as its negation in a word of 32 bits when
-- there was a '-', and nothing is thrown.
pub convert_to_integer_in_range :
    (value : ℕ) (b : Buffer)
    → value < 2 ^ 31
    → (convert_to_integer 4 false value b ≡ (value, b))
      × (convert_to_integer 4 true value b ≡ ((2 ^ 32 - value) % 2 ^ 32, b))
unfolding convert_to_integer
convert_to_integer_in_range value b h = (ground arith, ground arith)
