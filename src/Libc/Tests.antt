-- ===== src/Libc/Tests.antt =====
-- Blocks that overlap.
use mri.Prelude.{ℕ, ◌≡◌, arith, List, [], ◌∷◌, get_or}
use mri.Libc.Blocks.{memmove, memmove_lem}

abbrev five : List ℕ
five = 1 ∷ 2 ∷ 3 ∷ 4 ∷ 5 ∷ []

memmove_example : get_or (memmove five 1 0 3) 2 0 ≡ 2
memmove_example = memmove_lem five 1 0 3 2 (omega arith)
