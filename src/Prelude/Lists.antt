-- ===== src/Prelude/Lists.antt =====
-- Lists measured and indexed by native numbers, under the library's names: the char arrays of the C
-- code, and the parts of them that a pair of pointers delimits.
use Prim.Native.Nat.{ℕ, zero, suc, ◌+◌, ◌-◌, ◌≤◌, ◌<◌, min}
use mathlib.Core.Path.{◌≡◌, refl, ap, ◌∙◌}
use mathlib.Core.Logic.{◌≢◌}
use mathlib.Core.List.{List, [], ◌∷◌, ◌++◌}
use mathlib.Core.Option.{Option, none, some}
use native.Mathlib.Omega.{arith}

module _ {ℓ} {A : Type ℓ} where
  abbrev pub length : List A → ℕ
  length [] = 0
  length (x ∷ xs) = suc (length xs)

  abbrev pub get_elem? : List A → ℕ → Option A
  get_elem? [] i = none
  get_elem? (x ∷ xs) zero = some x
  get_elem? (x ∷ xs) (suc i) = get_elem? xs i

  abbrev pub get_or : List A → ℕ → A → A
  get_or [] i d = d
  get_or (x ∷ xs) zero d = x
  get_or (x ∷ xs) (suc i) d = get_or xs i d

  -- A write out of bounds changes nothing.
  abbrev pub set : List A → ℕ → A → List A
  set [] i v = []
  set (x ∷ xs) zero v = v ∷ xs
  set (x ∷ xs) (suc i) v = x ∷ set xs i v

  abbrev pub take : ℕ → List A → List A
  take zero xs = []
  take (suc n) [] = []
  take (suc n) (x ∷ xs) = x ∷ take n xs

  abbrev pub drop : ℕ → List A → List A
  drop zero xs = xs
  drop (suc n) [] = []
  drop (suc n) (x ∷ xs) = drop n xs

  abbrev pub replicate : ℕ → A → List A
  replicate zero a = []
  replicate (suc n) a = a ∷ replicate n a

  -- The `n` elements from index `i` on.
  abbrev pub slice : List A → ℕ → ℕ → List A
  slice xs i n = take n (drop i xs)

  abbrev pub All {κ} : (A → Type κ) → List A → Type κ
  All P [] = Unit {κ}
  All P (x ∷ xs) = P x × All P xs

module _ {ℓ} {A : Type ℓ} where
  pub length-append : (xs ys : List A) → length (xs ++ ys) ≡ length xs + length ys
  length-append [] ys = omega arith
  length-append (x ∷ xs) ys = omega (arith, length-append xs ys)

  pub length-set : (xs : List A) (i : ℕ) (v : A) → length (set xs i v) ≡ length xs
  length-set [] i v = refl
  length-set (x ∷ xs) zero v = refl
  length-set (x ∷ xs) (suc i) v = ap suc (length-set xs i v)

  pub get_elem?-set_ne :
      (xs : List A) (i j : ℕ) (v : A) → i ≢ j → get_elem? (set xs i v) j ≡ get_elem? xs j
  get_elem?-set_ne [] i j v h = refl
  get_elem?-set_ne (x ∷ xs) zero zero v h = absurd (h refl)
  get_elem?-set_ne (x ∷ xs) zero (suc j) v h = refl
  get_elem?-set_ne (x ∷ xs) (suc i) zero v h = refl
  get_elem?-set_ne (x ∷ xs) (suc i) (suc j) v h = get_elem?-set_ne xs i j v (λ e. h (ap suc e))

  pub length-take : (n : ℕ) (xs : List A) → length (take n xs) ≡ min n (length xs)
  length-take zero xs = omega arith
  length-take (suc n) [] = omega arith
  length-take (suc n) (x ∷ xs) = omega (arith, length-take n xs)

  pub length-drop : (n : ℕ) (xs : List A) → length (drop n xs) ≡ length xs - n
  length-drop zero xs = omega arith
  length-drop (suc n) [] = omega arith
  length-drop (suc n) (x ∷ xs) = omega (arith, length-drop n xs)

  pub take-length_append : (xs ys : List A) → take (length xs) (xs ++ ys) ≡ xs
  take-length_append [] ys = refl
  take-length_append (x ∷ xs) ys = ap (λ l. x ∷ l) (take-length_append xs ys)

-- What a slice is at its first element, and what a write does to it.
module _ {ℓ} {A : Type ℓ} where
  pub slice-step :
      (xs : List A) (i n : ℕ) (d : A)
      → i < length xs
      → slice xs i (suc n) ≡ get_or xs i d ∷ slice xs (i + 1) n
  slice-step [] i n d h = absurd (omega arith)
  slice-step (x ∷ xs) zero n d h = refl
  slice-step (x ∷ xs) (suc i) n d h =
      slice-step xs i n d (omega arith)
      ∙ ap (λ k. get_or xs i d ∷ slice (x ∷ xs) k n) {x = suc (i + 1)} {y = suc i + 1} (omega arith)

  -- A write at `k` leaves a slice that ends at or before `k`.
  pub slice-set_above :
      (xs : List A) (i n k : ℕ) (v : A) → i + n ≤ k → slice (set xs k v) i n ≡ slice xs i n
  slice-set_above [] i n k v h = refl
  slice-set_above (x ∷ xs) zero zero k v h = refl
  slice-set_above (x ∷ xs) zero (suc n) zero v h = absurd (omega arith)
  slice-set_above (x ∷ xs) zero (suc n) (suc k) v h =
      ap (λ l. x ∷ l) (slice-set_above xs zero n k v (omega arith))
  slice-set_above (x ∷ xs) (suc i) n zero v h = absurd (omega arith)
  slice-set_above (x ∷ xs) (suc i) n (suc k) v h = slice-set_above xs i n k v (omega arith)

  -- A write at `k` leaves a slice that begins behind `k`.
  pub slice-set_below :
      (xs : List A) (i n k : ℕ) (v : A) → k < i → slice (set xs k v) i n ≡ slice xs i n
  slice-set_below [] i n k v h = refl
  slice-set_below (x ∷ xs) zero n k v h = absurd (omega arith)
  slice-set_below (x ∷ xs) (suc i) n zero v h = refl
  slice-set_below (x ∷ xs) (suc i) n (suc k) v h = slice-set_below xs i n k v (omega arith)

  -- A write just past a slice extends it.
  pub slice-set_end :
      (xs : List A) (i n : ℕ) (v : A)
      → i + n < length xs
      → slice (set xs (i + n) v) i (n + 1) ≡ slice xs i n ++ (v ∷ [])
  slice-set_end [] i n v h = absurd (omega arith)
  slice-set_end (x ∷ xs) zero zero v h = refl
  slice-set_end (x ∷ xs) zero (suc n) v h =
      ap (λ k. take (suc n + 1) (set (x ∷ xs) k v)) {x = 0 + suc n} {y = suc (0 + n)} (omega arith)
      ∙ ap (λ k. take k (x ∷ set xs (0 + n) v)) {x = suc n + 1} {y = suc (n + 1)} (omega arith)
      ∙ ap (λ l. x ∷ l) (slice-set_end xs zero n v (omega arith))
  slice-set_end (x ∷ xs) (suc i) n v h =
      ap (λ k. slice (set (x ∷ xs) k v) (suc i) (n + 1)) {x = suc i + n} {y = suc (i + n)}
        (omega arith)
      ∙ slice-set_end xs i n v (omega arith)

  pub length-slice : (xs : List A) (i n : ℕ) → i + n ≤ length xs → length (slice xs i n) ≡ n
  length-slice xs i n h = omega (arith, length-take n (drop i xs), length-drop i xs)

  -- Two adjacent slices are one.
  pub slice-append_slice :
      (xs : List A) (i m n : ℕ)
      → i + m ≤ length xs
      → slice xs i m ++ slice xs (i + m) n ≡ slice xs i (m + n)
  slice-append_slice xs i zero n h =
      ap (λ k. slice xs k n) {x = i + 0} {y = i} (omega arith)
      ∙ ap (λ k. slice xs i k) {x = n} {y = 0 + n} (omega arith)
  slice-append_slice [] i (suc m) n h = absurd (omega arith)
  slice-append_slice (x ∷ xs) zero (suc m) n h =
      ap (λ k. x ∷ (take m xs ++ slice (x ∷ xs) k n)) {x = 0 + suc m} {y = suc (0 + m)}
        (omega arith)
      ∙ ap (λ l. x ∷ l) (slice-append_slice xs zero m n (omega arith))
      ∙ ap (λ k. take k (x ∷ xs)) {x = suc (m + n)} {y = suc m + n} (omega arith)
  slice-append_slice (x ∷ xs) (suc i) (suc m) n h =
      ap (λ k. slice xs i (suc m) ++ slice (x ∷ xs) k n) {x = suc i + suc m} {y = suc (i + suc m)}
        (omega arith)
      ∙ slice-append_slice xs i (suc m) n (omega arith)

  pub get_or-set_self :
      (xs : List A) (i : ℕ) (v d : A) → i < length xs → get_or (set xs i v) i d ≡ v
  get_or-set_self [] i v d h = absurd (omega arith)
  get_or-set_self (x ∷ xs) zero v d h = refl
  get_or-set_self (x ∷ xs) (suc i) v d h = get_or-set_self xs i v d (omega arith)

  pub get_or-set_ne :
      (xs : List A) (i j : ℕ) (v d : A) → i ≢ j → get_or (set xs i v) j d ≡ get_or xs j d
  get_or-set_ne [] i j v d h = refl
  get_or-set_ne (x ∷ xs) zero zero v d h = absurd (h refl)
  get_or-set_ne (x ∷ xs) zero (suc j) v d h = refl
  get_or-set_ne (x ∷ xs) (suc i) zero v d h = refl
  get_or-set_ne (x ∷ xs) (suc i) (suc j) v d h = get_or-set_ne xs i j v d (λ e. h (ap suc e))
