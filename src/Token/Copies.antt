-- ===== src/Token/Copies.antt =====
-- core/token.c: `Token_Copy`, and the tokens of the copy.
use mri.Prelude.{
  ℕ, zero, suc, ◌+◌, ◌-◌, ◌<◌, ◌≤◌, ◌≡◌, ◌≢◌, refl, ap, subst, ◌∙◌, arith, List, ◌⊎◌, inl, inr,
  get_or, set, drop, length, length-set, get_or-set_self, get_or-set_ne, lt→ltb,
}
use mri.Token.Core.{Token, string_at, get_token, adjust_token_pointers, copy_token}

adjust_outside :
    (address original i n : ℕ) (pointers : List ℕ) (j : ℕ)
    → (j < i) ⊎ (i + n ≤ j)
    → get_or (adjust_token_pointers address original i n pointers) j 0 ≡ get_or pointers j 0
unfolding adjust_token_pointers
adjust_outside address original i zero pointers j h = refl
adjust_outside address original i (suc n) pointers j h =
    let p = address + (get_or pointers i 0 - original) in
    adjust_outside address original (i + 1) n (set pointers i p) j (shift h)
    ∙ get_or-set_ne pointers i j p 0 (differs h)
  where
    shift : (j < i) ⊎ (i + suc n ≤ j) → (j < i + 1) ⊎ (i + 1 + n ≤ j)
    shift (inl h) = inl (omega arith)
    shift (inr h) = inr (omega arith)

    differs : (j < i) ⊎ (i + suc n ≤ j) → i ≢ j
    differs (inl h) e = omega arith
    differs (inr h) e = omega arith

adjust_inside :
    (address original i n : ℕ) (pointers : List ℕ) (k : ℕ)
    → k < n
    → i + n ≤ length pointers
    → get_or (adjust_token_pointers address original i n pointers) (i + k) 0
      ≡ address + (get_or pointers (i + k) 0 - original)
unfolding adjust_token_pointers
adjust_inside address original i zero pointers k h fits = absurd (omega arith)
adjust_inside address original i (suc n) pointers zero h fits =
    let p = address + (get_or pointers i 0 - original) in
    adjust_outside address original (i + 1) n (set pointers i p) (i + 0) (inl (omega arith))
    ∙ ap (λ k. get_or (set pointers i p) k 0) {x = i + 0} {y = i} (omega arith)
    ∙ get_or-set_self pointers i p 0 (omega arith)
    ∙ ap (λ k. address + (get_or pointers k 0 - original)) {x = i} {y = i + 0} (omega arith)
adjust_inside address original i (suc n) pointers (suc k) h fits =
    let p = address + (get_or pointers i 0 - original) in
    ap (λ j. get_or (adjust_token_pointers address original (i + 1) n (set pointers i p)) j 0)
      {x = i + suc k} {y = i + 1 + k} (omega arith)
    ∙ adjust_inside address original (i + 1) n (set pointers i p) k (omega arith)
        (omega (arith, length-set pointers i p))
    ∙ ap (λ q. address + (q - original))
        (get_or-set_ne pointers i (i + 1 + k) p 0 (λ e. omega arith))
    ∙ ap (λ k. address + (get_or pointers k 0 - original)) {x = i + 1 + k} {y = i + suc k}
        (omega arith)

-- Every token of a copy made by `Token_Copy` is the same text as the original's token of that index,
-- in the copy's own array: the pointer is as far from the start of the one array as from the other.
pub copy_token-get_token :
    (token_copy token_original : Token) (i : ℕ)
    → token_original.token_count ≤ length token_original.token_pointers
    → i < token_original.token_count
    → let copied = copy_token token_copy token_original in
      let p = (get_token copied i).0 in
      let original = (get_token token_original i).0 in
      (p ≡ token_copy.address + (original - token_original.address))
      × (string_at copied p ≡ string_at token_original original)
unfolding copy_token get_token
copy_token-get_token token_copy token_original i fits h =
    let pointers = token_original.token_pointers in
    let n = token_original.token_count in
    let to = token_copy.address in
    let from = token_original.address in
    let moved : get_or (adjust_token_pointers to from 0 n pointers) i 0
        ≡ to + (get_or pointers i 0 - from) =
      subst
        (λ k.
          get_or (adjust_token_pointers to from 0 n pointers) k 0
          ≡ to + (get_or pointers k 0 - from))
        {x = 0 + i} {y = i} (omega arith) (adjust_inside to from 0 n pointers i h (omega arith)) in
    rw (lt→ltb _ _ h) (
      moved,
      ap (λ k. drop k token_original.copy_of_string)
          {x = get_or (adjust_token_pointers to from 0 n pointers) i 0 - to}
          {y = get_or pointers i 0 - from} (omega (arith, moved)),
    )
