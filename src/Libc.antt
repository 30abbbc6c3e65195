-- ===== src/Libc.antt =====
-- core/libc.c: the string functions; the functions on blocks of memory are in `Blocks`.
-- A `const char*` is the list of the bytes from the pointer to
-- the end of the array that it points into; past that end the model reads 0.
use mri.Prelude.{
  ℕ, zero, suc, List, [], ◌∷◌, ◌++◌, Bool, true, false, Option, none, some, ◌==◌, if◌then◌else◌,
  ◌+◌, length, code, String,
}
pub mod Blocks
mod Tests
use mri.Prelude.Int.{ℤ, pos, sub_ℕ}

-- `*p`
abbrev pub peek : List ℕ → ℕ
peek [] = 0
peek (c ∷ p) = c

-- `p + 1`
abbrev pub next : List ℕ → List ℕ
next [] = []
next (c ∷ p) = p

-- A string literal, with its terminator.
abbrev pub c_string : List ℕ → List ℕ
c_string s = s ++ (0 ∷ [])

-- The characters of a literal, and the literal with its terminator.
abbrev pub codes : String → List ℕ
codes String.[] = []
codes (String.◌∷◌ c s) = code c ∷ codes s

abbrev pub literal : String → List ℕ
literal s = c_string (codes s)

unfoldable pub strlen : List ℕ → ℕ
strlen [] = 0
strlen (c ∷ p) = if c == 0 then 0 else suc (strlen p)

-- The `do` loop of `mri_strncmp`, entered with `len` at least 1: the argument is `len - 1`.
unfoldable pub strncmp_loop : List ℕ → List ℕ → ℕ → ℤ
strncmp_loop p1 p2 zero = sub_ℕ (peek p1) (peek p2)
strncmp_loop p1 p2 (suc len) =
    let rest = strncmp_loop (next p1) (next p2) len in
    if peek p1 == peek p2 then (if peek p1 == 0 then pos 0 else rest) else sub_ℕ (peek p1) (peek p2)

unfoldable pub strncmp : List ℕ → List ℕ → ℕ → ℤ
unfolding strncmp_loop
strncmp pc1 pc2 zero = pos 0
strncmp pc1 pc2 (suc len) = strncmp_loop pc1 pc2 len

-- `== 0`
abbrev pub is_zero : ℤ → Bool
is_zero (pos n) = n == 0
is_zero n = false

-- `mri_strcmp`: a round for each character of the first string, and past its end the comparison with 0.
unfoldable pub strcmp : List ℕ → List ℕ → ℤ
strcmp [] p2 = sub_ℕ 0 (peek p2)
strcmp (c ∷ p1) p2 =
    let rest = strcmp p1 (next p2) in
    if c == peek p2 then (if c == 0 then pos 0 else rest) else sub_ℕ c (peek p2)

-- `mri_strstr`: what the pointer returned points to.
unfoldable pub strstr : List ℕ → List ℕ → Option (List ℕ)
strstr [] needle = none
strstr (c ∷ haystack) needle =
    let rest = strstr haystack needle in
    if c == 0
    then none
    else (if is_zero (strncmp (c ∷ haystack) needle (strlen needle))
        then some (c ∷ haystack)
        else rest)
