-- ===== src/Libc/Blocks.antt =====
-- core/libc.c: the functions on blocks of memory. A pointer is an index of the memory.
use mri.Prelude.{
  leb, ℕ, zero, suc, ◌+◌, ◌-◌, ◌%◌, ◌<◌, ◌≤◌, ◌≡◌, ◌≢◌, refl, sym, ap, ◌∙◌, arith, List, get_or,
  set, length, length-set, Bool, true, false, ltb, ◌&&◌, if◌then◌else◌, ◌⊎◌, inl, inr,
  get_or-set_self, get_or-set_ne, ap₂, dec_lt, lt→ltb, le→ltb_false,
}

-- `mri_memcpy`
unfoldable pub memcpy : List ℕ → ℕ → ℕ → ℕ → List ℕ
memcpy mem dest src zero = mem
memcpy mem dest src (suc len) = memcpy (set mem dest (get_or mem src 0)) (dest + 1) (src + 1) len

-- `mri_memset`
unfoldable pub memset : List ℕ → ℕ → ℕ → ℕ → List ℕ
memset mem dest val zero = mem
memset mem dest val (suc len) = memset (set mem dest (val % 256)) (dest + 1) val len

-- The loop of `mri_memmove`; `forward` is `dir == 1`. A pointer is moved below the block only after the
-- last access.
unfoldable pub memmove_loop : Bool → List ℕ → ℕ → ℕ → ℕ → List ℕ
memmove_loop forward mem dest_curr src_curr zero = mem
memmove_loop forward mem dest_curr src_curr (suc len) =
    memmove_loop forward (set mem dest_curr (get_or mem src_curr 0))
      (if forward then dest_curr + 1 else dest_curr - 1)
      (if forward then src_curr + 1 else src_curr - 1) len

-- `mri_memmove`
unfoldable pub memmove : List ℕ → ℕ → ℕ → ℕ → List ℕ
memmove mem dest src len =
    if ltb src dest && ltb dest (src + len)
    then memmove_loop false mem (dest + len - 1) (src + len - 1) len
    else memmove_loop true mem dest src len

-- Upwards, what is outside of the destination stays.
forward_outside :
    (mem : List ℕ) (dest src len j : ℕ)
    → (j < dest) ⊎ (dest + len ≤ j)
    → get_or (memmove_loop true mem dest src len) j 0 ≡ get_or mem j 0
unfolding memmove_loop
forward_outside mem dest src zero j h = refl
forward_outside mem dest src (suc len) j h =
    forward_outside (set mem dest (get_or mem src 0)) (dest + 1) (src + 1) len j (shift h)
    ∙ get_or-set_ne mem dest j (get_or mem src 0) 0 (differs h)
  where
    shift : (j < dest) ⊎ (dest + suc len ≤ j) → (j < dest + 1) ⊎ (dest + 1 + len ≤ j)
    shift (inl h) = inl (omega arith)
    shift (inr h) = inr (omega arith)

    differs : (j < dest) ⊎ (dest + suc len ≤ j) → dest ≢ j
    differs (inl h) e = omega arith
    differs (inr h) e = omega arith

forward_inside :
    (mem : List ℕ) (dest src len k : ℕ)
    → (dest ≤ src) ⊎ (src + len ≤ dest)
    → dest + len ≤ length mem
    → k < len
    → get_or (memmove_loop true mem dest src len) (dest + k) 0 ≡ get_or mem (src + k) 0
unfolding memmove_loop
forward_inside mem dest src zero k apart fits h = absurd (omega arith)
forward_inside mem dest src (suc len) zero apart fits h =
    let v = get_or mem src 0 in
    forward_outside (set mem dest v) (dest + 1) (src + 1) len (dest + 0) (inl (omega arith))
    ∙ ap (λ k. get_or (set mem dest v) k 0) {x = dest + 0} {y = dest} (omega arith)
    ∙ get_or-set_self mem dest v 0 (omega arith)
    ∙ ap (λ k. get_or mem k 0) {x = src} {y = src + 0} (omega arith)
forward_inside mem dest src (suc len) (suc k) apart fits h =
    let v = get_or mem src 0 in
    ap (λ j. get_or (memmove_loop true (set mem dest v) (dest + 1) (src + 1) len) j 0)
      {x = dest + suc k} {y = dest + 1 + k} (omega arith)
    ∙ forward_inside (set mem dest v) (dest + 1) (src + 1) len k (shift apart)
        (omega (arith, length-set mem dest v)) (omega arith)
    ∙ get_or-set_ne mem dest (src + 1 + k) v 0 (differs apart)
    ∙ ap (λ j. get_or mem j 0) {x = src + 1 + k} {y = src + suc k} (omega arith)
  where
    shift :
        (dest ≤ src) ⊎ (src + suc len ≤ dest) → (dest + 1 ≤ src + 1) ⊎ (src + 1 + len ≤ dest + 1)
    shift (inl h) = inl (omega arith)
    shift (inr h) = inr (omega arith)

    differs : (dest ≤ src) ⊎ (src + suc len ≤ dest) → dest ≢ src + 1 + k
    differs (inl below) e = omega arith
    differs (inr above) e = omega arith

-- Downwards, from the pointers to the last places of the blocks.
abbrev downwards : List ℕ → ℕ → ℕ → ℕ → List ℕ
downwards mem dest src len = memmove_loop false mem (dest + len - 1) (src + len - 1) len

downwards-suc :
    (mem : List ℕ) (dest src len : ℕ)
    → downwards mem dest src (suc len)
      ≡ downwards (set mem (dest + len) (get_or mem (src + len) 0)) dest src len
unfolding memmove_loop
downwards-suc mem dest src len =
    let dest_last : dest + suc len - 1 ≡ dest + len = omega arith in
    let src_last : src + suc len - 1 ≡ src + len = omega arith in
    ap₂ (λ d s. memmove_loop false (set mem d (get_or mem s 0)) (d - 1) (s - 1) len) dest_last
      src_last

backward_outside :
    (mem : List ℕ) (dest src len j : ℕ)
    → (j < dest) ⊎ (dest + len ≤ j)
    → get_or (downwards mem dest src len) j 0 ≡ get_or mem j 0
backward_outside mem dest src zero j h = unfold memmove_loop in refl
backward_outside mem dest src (suc len) j h =
    let v = get_or mem (src + len) 0 in
    ap (λ m. get_or m j 0) (downwards-suc mem dest src len)
    ∙ backward_outside (set mem (dest + len) v) dest src len j (shift h)
    ∙ get_or-set_ne mem (dest + len) j v 0 (differs h)
  where
    shift : (j < dest) ⊎ (dest + suc len ≤ j) → (j < dest) ⊎ (dest + len ≤ j)
    shift (inl h) = inl (omega arith)
    shift (inr h) = inr (omega arith)

    differs : (j < dest) ⊎ (dest + suc len ≤ j) → dest + len ≢ j
    differs (inl h) e = omega arith
    differs (inr h) e = omega arith

backward_inside :
    (mem : List ℕ) (dest src len k : ℕ)
    → src < dest
    → dest + len ≤ length mem
    → k < len
    → get_or (downwards mem dest src len) (dest + k) 0 ≡ get_or mem (src + k) 0
backward_inside mem dest src zero k apart fits h = absurd (omega arith)
backward_inside mem dest src (suc len) k apart fits h =
    let v = get_or mem (src + len) 0 in
    let m = set mem (dest + len) v in
    ap (λ r. get_or r (dest + k) 0) (downwards-suc mem dest src len) ∙ elim (dec_lt k len) [
      | yes below ↦
          backward_inside m dest src len k apart (omega (arith, length-set mem (dest + len) v))
            below
          ∙ get_or-set_ne mem (dest + len) (src + k) v 0 (λ e. omega arith)
      | no last ↦
          let e : k ≡ len = omega arith in
          backward_outside m dest src len (dest + k) (inr (omega arith))
          ∙ ap (λ i. get_or m (dest + i) 0) e
          ∙ get_or-set_self mem (dest + len) v 0 (omega arith)
          ∙ ap (λ i. get_or mem (src + i) 0) (sym e)
    ]

le→leb : (a b : ℕ) → a ≤ b → leb a b ≡ true
le→leb a b h = ground arith

lt→leb_false : (a b : ℕ) → a < b → leb b a ≡ false
lt→leb_false a b h = ground arith

memmove-parts :
    (mem : List ℕ) (dest src len : ℕ)
    → dest + len ≤ length mem
    → ((k : ℕ) → k < len → get_or (memmove mem dest src len) (dest + k) 0 ≡ get_or mem (src + k) 0)
      × ((j : ℕ)
          → (j < dest) ⊎ (dest + len ≤ j)
          → get_or (memmove mem dest src len) j 0 ≡ get_or mem j 0)
unfolding memmove
memmove-parts mem dest src len fits = elim (dec_lt src dest) [
  | no above ↦ rw (le→ltb_false src dest (omega arith)) (
    λ k h. forward_inside mem dest src len k (inl (omega arith)) fits h,
    λ j h. forward_outside mem dest src len j h,
  )
  | yes below ↦ elim (dec_lt dest (src + len)) [
    | yes overlap ↦
        rw (lt→ltb _ _ below, lt→ltb _ _ overlap)
          (
            λ k h. backward_inside mem dest src len k below fits h,
            λ j h. backward_outside mem dest src len j h,
          )
    | no apart ↦
        rw (lt→ltb _ _ below, le→ltb_false dest (src + len) (omega arith))
          (
            λ k h. forward_inside mem dest src len k (inr (omega arith)) fits h,
            λ j h. forward_outside mem dest src len j h,
          )
  ]
]

-- `mri_memmove`, whether the blocks overlap or not: every byte of the destination is the one that the
-- source held before, and every other byte is as it was.
pub memmove_lem :
    (mem : List ℕ) (dest src len i : ℕ)
    → dest + len ≤ length mem
    → get_or (memmove mem dest src len) i 0 ≡ (
        if leb dest i && ltb i (dest + len)
        then get_or mem (src + (i - dest)) 0
        else get_or mem i 0)
memmove_lem mem dest src len i fits =
    let parts = memmove-parts mem dest src len fits in
    elim (dec_lt i dest) [
      | yes below ↦ rw (lt→leb_false i dest below) (parts.1 i (inl below))
      | no above ↦
          let from : dest ≤ i = omega arith in
          elim (dec_lt i (dest + len)) [
            | yes inside ↦
                rw (le→leb dest i from, lt→ltb _ _ inside)
                  (ap (λ k. get_or (memmove mem dest src len) k 0) {x = i} {y = dest + (i - dest)}
                      (omega arith)
                    ∙ parts.0 (i - dest) (omega arith))
            | no past ↦
                rw (le→leb dest i from, le→ltb_false i (dest + len) (omega arith))
                  (parts.1 i (inr (omega arith)))
          ]
    ]
