-- ===== src/Packet/Frames.antt =====
-- The text that a packet carries, as gdb sends it: escaped, framed, and with its checksum.
use mri.Prelude.{
  ℕ, suc, ◌+◌, ◌%◌, ◌<◌, ◌≡◌, ◌≢◌, refl, arith, List, [], ◌∷◌, ◌++◌, length, bit_xor, ap,
}
use mri.Buffer.Emit.{hex_byte}

-- A character of the text: as it is, or behind the escape '}' with bit 5 inverted.
pub data Item : Type 0 where
  plain escaped : ℕ → Item

abbrev pub item_text : Item → ℕ
item_text (plain c) = c
item_text (escaped c) = bit_xor c 0x20

abbrev pub text_of : List Item → List ℕ
text_of [] = []
text_of (i ∷ items) = item_text i ∷ text_of items

-- What is sent for it, in front of what follows.
abbrev pub encode : List Item → List ℕ → List ℕ
encode [] rest = rest
encode (plain c ∷ items) rest = c ∷ encode items rest
encode (escaped c ∷ items) rest = b'}' ∷ c ∷ encode items rest

-- The sum of the characters that are sent.
abbrev pub item_sum : List Item → ℕ
item_sum [] = 0
item_sum (plain c ∷ items) = c + item_sum items
item_sum (escaped c ∷ items) = b'}' + (c + item_sum items)

-- A character that is no delimiter; a plain one is not the escape either.
abbrev pub IsItem : Item → Type 0
IsItem (plain c) = (c ≢ b'$') × (c ≢ b'#') × (c ≢ b'}')
IsItem (escaped c) = (c ≢ b'$') × (c ≢ b'#')

-- '$', the text, '#' and the two characters of a checksum.
abbrev pub frame_with : List ℕ → List Item → List ℕ → List ℕ
frame_with checksum items rest = b'$' ∷ encode items (b'#' ∷ checksum ++ rest)

abbrev pub frame : List Item → List ℕ → List ℕ
frame items rest = frame_with (hex_byte (item_sum items % 256)) items rest

pub length-text_of : (items : List Item) → length (text_of items) ≡ length items
length-text_of [] = refl
length-text_of (i ∷ items) = ap suc (length-text_of items)

pub length-encode :
    (items : List Item) (rest : List ℕ)
    → length items + length rest < suc (length (encode items rest))
length-encode [] rest = omega arith
length-encode (plain c ∷ items) rest = omega (arith, length-encode items rest)
length-encode (escaped c ∷ items) rest = omega (arith, length-encode items rest)
