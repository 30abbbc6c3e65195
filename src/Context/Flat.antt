-- ===== src/Context/Flat.antt =====
-- The registers of a context as one list of places.
use mri.Prelude.{
  ℕ, zero, suc, ◌+◌, ◌-◌, ◌<◌, ◌≤◌, ◌≡◌, refl, sym, ap, ◌∙◌, arith, ltb, List, [], ◌∷◌, ◌++◌,
  get_or, set, get_elem?, length, Option, none, some, Bool-cases, inl, inr, ltb→lt, ltb_false→le,
}
use mri.TryCatch.{set_exception_code, buffer_overrun_exception}
use mri.Context.Core.{ContextSection, get_loop, set_loop}

-- `count` places from `first` on.
unfoldable pub places_from : ℕ → ℕ → List ℕ
places_from first zero = []
places_from first (suc count) = first ∷ places_from (first + 1) count

-- Where the registers are, in the order of their numbers.
unfoldable pub places : List ContextSection → List ℕ
places [] = []
places (s ∷ sections) = places_from s.values s.count ++ places sections

pub length-places_from : (first count : ℕ) → length (places_from first count) ≡ count
unfolding places_from
length-places_from first zero = refl
length-places_from first (suc count) = omega (arith, length-places_from (first + 1) count)

places_from-below :
    (first count : ℕ) (rest : List ℕ) (i : ℕ)
    → i < count
    → get_elem? (places_from first count ++ rest) i ≡ some (first + i)
unfolding places_from
places_from-below first zero rest i h = absurd (omega arith)
places_from-below first (suc count) rest zero h = ap some {x = first} {y = first + 0} (omega arith)
places_from-below first (suc count) rest (suc i) h =
    places_from-below (first + 1) count rest i (omega arith)
    ∙ ap some {x = first + 1 + i} {y = first + suc i} (omega arith)

places_from-above :
    (first count : ℕ) (rest : List ℕ) (i : ℕ)
    → count ≤ i
    → get_elem? (places_from first count ++ rest) i ≡ get_elem? rest (i - count)
unfolding places_from
places_from-above first zero rest i h = ap (get_elem? rest) {x = i} {y = i - 0} (omega arith)
places_from-above first (suc count) rest zero h = absurd (omega arith)
places_from-above first (suc count) rest (suc i) h =
    places_from-above (first + 1) count rest i (omega arith)
    ∙ ap (get_elem? rest) {x = i - count} {y = suc i - suc count} (omega arith)

-- The access to a place, or the exception when there is none.
abbrev pub read_place : List ℕ → ℕ → Option ℕ → ℕ × ℕ
read_place words exn none = (0, set_exception_code buffer_overrun_exception exn)
read_place words exn (some place) = (get_or words place 0, exn)

abbrev pub write_place : List ℕ → ℕ → ℕ → Option ℕ → List ℕ × ℕ
write_place words new_value exn none = (words, set_exception_code buffer_overrun_exception exn)
write_place words new_value exn (some place) = (set words place new_value, exn)

-- The place that the loops find for a register.
found :
    (s : ContextSection) (sections : List ContextSection) (index count : ℕ)
    → count ≤ index
    → index < count + s.count
    → get_elem? (places (s ∷ sections)) (index - count) ≡ some (s.values + (index - count))
unfolding places
found s sections index count h k =
    places_from-below s.values s.count (places sections) (index - count) (omega arith)

passed :
    (s : ContextSection) (sections : List ContextSection) (index count : ℕ)
    → count + s.count ≤ index
    → get_elem? (places (s ∷ sections)) (index - count)
      ≡ get_elem? (places sections) (index - (count + s.count))
unfolding places
passed s sections index count h =
    places_from-above s.values s.count (places sections) (index - count) (omega arith)
    ∙ ap (get_elem? (places sections)) {x = index - count - s.count} {y = index - (count + s.count)}
        (omega arith)

pub get_loop-places :
    (words : List ℕ) (index : ℕ) (sections : List ContextSection) (count exn : ℕ)
    → count ≤ index
    → get_loop words index sections count exn
      ≡ read_place words exn (get_elem? (places sections) (index - count))
unfolding get_loop places
get_loop-places words index [] count exn h = refl
get_loop-places words index (s ∷ sections) count exn h =
    elim (Bool-cases (ltb index (count + s.count))) [
      | inl here ↦
          rw here
            (ap (read_place words exn) (sym (found s sections index count h (ltb→lt _ _ here))))
      | inr further ↦
          let above : count + s.count ≤ index = ltb_false→le _ _ further in
          rw further (
            get_loop-places words index sections (count + s.count) exn above
            ∙ ap (read_place words exn) (sym (passed s sections index count above)))
    ]

pub set_loop-places :
    (words : List ℕ) (index new_value : ℕ) (sections : List ContextSection) (count exn : ℕ)
    → count ≤ index
    → set_loop words index new_value sections count exn
      ≡ write_place words new_value exn (get_elem? (places sections) (index - count))
unfolding set_loop places
set_loop-places words index new_value [] count exn h = refl
set_loop-places words index new_value (s ∷ sections) count exn h =
    elim (Bool-cases (ltb index (count + s.count))) [
      | inl here ↦ rw here (
          ap (write_place words new_value exn)
            (sym (found s sections index count h (ltb→lt _ _ here))))
      | inr further ↦
          let above : count + s.count ≤ index = ltb_false→le _ _ further in
          rw further (
            set_loop-places words index new_value sections (count + s.count) exn above
            ∙ ap (write_place words new_value exn) (sym (passed s sections index count above)))
    ]
