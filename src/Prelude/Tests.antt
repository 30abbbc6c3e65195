-- ===== src/Prelude/Tests.antt =====
-- Boolean tests on the native numbers, the conditional, and tables over small ranges.
use Prim.Native.Nat.{ℕ, zero, suc, ◌≤◌, ◌<◌, compare, Ordering}
use mathlib.Core.Path.{◌≡◌, refl, ap, ◌∙◌}
use mathlib.Core.Logic.{◌↔◌, ◌⊎◌, ◌≢◌, inl, inr}
use mathlib.Core.Bool.{Bool, true, false, ◌&&◌}
use mathlib.Core.Option.{Option, none, some}
use native.Mathlib.Omega.{arith}
use native.Mathlib.Decide.{ℕ_discrete}

abbrev pub ltb : ℕ → ℕ → Bool
ltb a b = elim (compare a b) [ Ordering.lt ↦ true | _ ↦ false ]

abbrev pub leb : ℕ → ℕ → Bool
leb a b = elim (compare a b) [ Ordering.gt ↦ false | _ ↦ true ]

infix 50 ◌==◌
abbrev pub ◌==◌ : ℕ → ℕ → Bool
a == b = elim (compare a b) [ Ordering.eq ↦ true | _ ↦ false ]

infix 1 if◌then◌else◌
abbrev pub if◌then◌else◌ {ℓ} : {A : Type ℓ} → Bool → A → A → A
if true then x else y = x
if false then x else y = y

pub if-true {ℓ} : {A : Type ℓ} {t : Bool} (x y : A) → t ≡ true → (if t then x else y) ≡ x
if-true x y h = rw h

pub if-false {ℓ} : {A : Type ℓ} {t : Bool} (x y : A) → t ≡ false → (if t then x else y) ≡ y
if-false x y h = rw h

pub ltb→lt : (a b : ℕ) → ltb a b ≡ true → a < b
ltb→lt a b h = ground arith

pub lt→ltb : (a b : ℕ) → a < b → ltb a b ≡ true
lt→ltb a b h = ground arith

pub ltb_false→le : (a b : ℕ) → ltb a b ≡ false → b ≤ a
ltb_false→le a b h = ground arith

pub le→ltb_false : (a b : ℕ) → b ≤ a → ltb a b ≡ false
le→ltb_false a b h = ground arith

pub ==_iff : (a b : ℕ) → ((a == b) ≡ true) ↔ (a ≡ b)
==_iff a b = ground arith

pub ==_false : (a b : ℕ) → a ≢ b → (a == b) ≡ false
==_false a b h = ground arith

pub ruleset tests = (arith, ltb→lt, lt→ltb, ltb_false→le, le→ltb_false)

-- To split on a computed value and keep the equation.
pub Bool-cases : (b : Bool) → (b ≡ true) ⊎ (b ≡ false)
Bool-cases true = inl refl
Bool-cases false = inr refl

-- Whether a test answers true on every number below a bound.
unfoldable pub holds_below : (test : ℕ → Bool) (bound : ℕ) → Bool
holds_below test zero = true
holds_below test (suc last) = holds_below test last && test last

-- What the table says of one of the numbers.
pub holds_below-at :
    (test : ℕ → Bool) (bound : ℕ) {i : ℕ}
    → i < bound
    → holds_below test bound ≡ true
    → test i ≡ true
unfolding holds_below
holds_below-at test zero inside table = absurd (omega arith)
holds_below-at test (suc last) {i} inside table = elim (ℕ_discrete i last) [
  | yes e ↦ ap test e ∙ last_of (holds_below test last) (test last) table
  | no ne ↦
      holds_below-at test last (omega (arith, inside, ne))
        (first_of (holds_below test last) (test last) table)
]
  where
    first_of : (x y : Bool) → (x && y) ≡ true → x ≡ true
    first_of x y h = ground arith

    last_of : (x y : Bool) → (x && y) ≡ true → y ≡ true
    last_of x y h = ground arith

pub Option-cases {ℓ} : {A : Type ℓ} (o : Option A) → (o ≡ none) ⊎ ((a : A) × (o ≡ some a))
Option-cases none = inl refl
Option-cases (some a) = inr (a, refl)
