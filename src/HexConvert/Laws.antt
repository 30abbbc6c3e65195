-- ===== src/HexConvert/Laws.antt =====
-- The two conversions of core/hex_convert.h, one after the other.
use mri.Prelude.{
  ℕ, ◌+◌, ◌-◌, ◌*◌, ◌/◌, ◌%◌, ◌<◌, ◌≡◌, refl, ap₂, ◌∙◌, Option, some, none, true, false, bit_or,
  arith, ◌==◌, ◌&&◌, ==_iff, leb, holds_below, holds_below-at, if◌then◌else◌,
}
use mri.TryCatch.{set_exception_code}
use mri.HexConvert.{nibble_to_hex_char, hex_char_to_nibble}

-- What a hexadecimal digit stands for, in either case; `none` for any other character.
unfoldable pub digit_value : ℕ → Option ℕ
digit_value c =
    if leb b'0' c && leb c b'9'
    then some (c - b'0')
    else if leb b'A' c && leb c b'F'
    then some (c - b'A' + 10)
    else if leb b'a' c && leb c b'f'
    then some (c - b'a' + 10)
    else none

pub digit_value-lt : (c : ℕ) {n : ℕ} → digit_value c ≡ some n → n < 16
unfolding digit_value
digit_value-lt c h = ground arith

-- On a digit the code returns its value and throws nothing.
pub hex_char_to_nibble-digit :
    (c exn : ℕ) {n : ℕ} → digit_value c ≡ some n → hex_char_to_nibble c exn ≡ (n, exn)
unfolding digit_value hex_char_to_nibble
hex_char_to_nibble-digit c exn h = ground arith

-- On any other character it throws.
pub hex_char_to_nibble-invalid : (c : ℕ) → digit_value c ≡ none → (hex_char_to_nibble c 0).1 ≡ 2
unfolding digit_value hex_char_to_nibble set_exception_code
hex_char_to_nibble-invalid c h = ground arith

digit_table :
    holds_below
      (λ n. elim (digit_value (nibble_to_hex_char n)) [ some m ↦ m == n | none ↦ false ])
      16
    ≡ true
unfolding holds_below digit_value nibble_to_hex_char
digit_table = refl

some_of_table :
    (o : Option ℕ) (n : ℕ) → (elim o [ some m ↦ m == n | none ↦ false ]) ≡ true → o ≡ some n
some_of_table o n h = ground arith

-- The digit that is written for a nibble stands for that nibble.
pub digit_value-nibble_to_hex_char : (n : ℕ) → n < 16 → digit_value (nibble_to_hex_char n) ≡ some n
digit_value-nibble_to_hex_char n h = some_of_table _ n (holds_below-at _ 16 h digit_table)

-- The two nibbles of a byte, put together by `|`.
join_table : holds_below (λ x. bit_or (x / 16 * 16) (x % 16) == x) 256 ≡ true
unfolding holds_below
join_table = refl

bit_or-split : (x : ℕ) → x < 256 → bit_or (x / 16 * 16) (x % 16) ≡ x
bit_or-split x h = (==_iff _ x).0 (holds_below-at _ 256 h join_table)

pub bit_or-nibbles : (hi lo : ℕ) → hi < 16 → lo < 16 → bit_or (hi * 16) lo ≡ hi * 16 + lo
bit_or-nibbles hi lo h l =
    let x : ℕ = hi * 16 + lo in
    let p : hi * 16 ≡ x / 16 * 16 = omega arith in
    let q : lo ≡ x % 16 = omega arith in ap₂ bit_or p q ∙ bit_or-split x (omega arith)

-- The digit that `NibbleToHexChar` has for a nibble is converted back to that nibble by
-- `HexCharToNibble`, and no exception is thrown.
pub hex_char_to_nibble-nibble_to_hex_char :
    (n exn : ℕ) → n < 16 → hex_char_to_nibble (nibble_to_hex_char n) exn ≡ (n, exn)
hex_char_to_nibble-nibble_to_hex_char n exn h =
    hex_char_to_nibble-digit (nibble_to_hex_char n) exn (digit_value-nibble_to_hex_char n h)
