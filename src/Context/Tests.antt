-- ===== src/Context/Tests.antt =====
-- A context of two sections, the second of which lies before the first.
use mri.Prelude.{ℕ, zero, suc, ◌<◌, ◌≡◌, refl, arith, List, [], ◌∷◌, get_elem?, some, replicate}
use mri.Buffer.Core.{Buffer, bytes_left, overrun_detected}
use mri.Buffer.Emit.{emit}
use mri.Context.Core.{MriContext, get, set_register, count_registers, count_loop}
use mri.Context.Copy.{copy_to_buffer}
use mri.Context.Flat.{places, places_from, read_place}
use mri.Context.Registers.{IsLaidOut, get_lem, get-set_register, text_at, copy_to_buffer_lem}

abbrev three : MriContext
three = record {
  sections = record { values = 3; count = 2 } ∷ record { values = 0; count = 1 } ∷ [];
  words = 10 ∷ 20 ∷ 30 ∷ 40 ∷ 50 ∷ [];
}

abbrev three_places : List ℕ
three_places = 3 ∷ 4 ∷ 0 ∷ []

three-IsLaidOut : IsLaidOut three
unfolding places places_from
three-IsLaidOut = record { separate = apart; inside = in_words }
  where
    in_words : (i place : ℕ) → get_elem? three_places i ≡ some place → place < 5
    in_words zero place h = ground arith
    in_words (suc zero) place h = ground arith
    in_words (suc (suc zero)) place h = ground arith
    in_words (suc (suc (suc i))) place h = ground arith

    apart :
        (i j place : ℕ)
        → get_elem? three_places i ≡ some place
        → get_elem? three_places j ≡ some place
        → i ≡ j
    apart zero zero place h k = refl
    apart zero (suc zero) place h k = ground arith
    apart zero (suc (suc zero)) place h k = ground arith
    apart zero (suc (suc (suc j))) place h k = ground arith
    apart (suc zero) zero place h k = ground arith
    apart (suc zero) (suc zero) place h k = refl
    apart (suc zero) (suc (suc zero)) place h k = ground arith
    apart (suc zero) (suc (suc (suc j))) place h k = ground arith
    apart (suc (suc zero)) zero place h k = ground arith
    apart (suc (suc zero)) (suc zero) place h k = ground arith
    apart (suc (suc zero)) (suc (suc zero)) place h k = refl
    apart (suc (suc zero)) (suc (suc (suc j))) place h k = ground arith
    apart (suc (suc (suc i))) j place h k = ground arith

get_example : get three 2 0 ≡ read_place three.words 0 (get_elem? (places three.sections) 2)
get_example = get_lem three 2 0

get-set_example : get (set_register three 1 7 0).0 1 0 ≡ (7, 0)
unfolding places places_from
get-set_example = get-set_register three 1 1 7 0 three-IsLaidOut (omega arith)

abbrev room_for_six : Buffer
room_for_six = record { mem = replicate 6 0; exn = 0; start = 0; last = 6; current = 0 }

copy_to_buffer_example :
    copy_to_buffer 1 three room_for_six
    ≡ emit room_for_six (text_at 1 three.words (places three.sections))
unfolding count_registers count_loop bytes_left overrun_detected
copy_to_buffer_example = copy_to_buffer_lem 1 three room_for_six refl (omega arith)
