-- ===== src/Context/Registers.antt =====
-- What a client of core/context.c sees: registers and their text.
use mri.Prelude.{
  ℕ, zero, suc, ◌+◌, ◌-◌, ◌*◌, ◌/◌, ℕ_discrete, ◌<◌, ◌≤◌, ◌≡◌, refl, sym, ap, ◌∙◌, arith, ◌==◌,
  if◌then◌else◌, List, [], ◌∷◌, ◌++◌, get_or, set, get_elem?, length, length-append, some, inl, inr,
  ==_iff, ==_false, Option-cases, subst, get_or-set_self, get_or-set_ne, append_assoc,
}
use native.Mathlib.Nat.{mul-suc}
use mri.Buffer.Core.{Buffer, bytes_left}
use mri.Buffer.Emit.{emit, emit-emit, overwrite}
use mri.Objects.{
  bytes_of, hex_of, length-hex_of, room-emit, write_bytes-emit, write_bytes_to_buffer_as_hex,
}
use mri.Context.Core.{
  ContextSection, MriContext, count_loop, count_registers, get, set_loop, set_register,
}
use mri.Context.Copy.{copy_to_loop, copy_to_buffer}
use mri.Context.Flat.{
  places, places_from, read_place, write_place, get_loop-places, set_loop-places,
  length-places_from,
}

-- `Context_Get` on all indices: the register's word, or the exception when there is no such register.
pub get_lem :
    (c : MriContext) (index exn : ℕ)
    → get c index exn ≡ read_place c.words exn (get_elem? (places c.sections) index)
unfolding get
get_lem c index exn =
    get_loop-places c.words index c.sections 0 exn (omega arith)
    ∙ ap (λ k. read_place c.words exn (get_elem? (places c.sections) k)) {x = index - 0} {y = index}
        (omega arith)

set_register_lem :
    (c : MriContext) (index new_value exn : ℕ)
    → set_loop c.words index new_value c.sections 0 exn
      ≡ write_place c.words new_value exn (get_elem? (places c.sections) index)
set_register_lem c index new_value exn =
    set_loop-places c.words index new_value c.sections 0 exn (omega arith)
    ∙ ap (λ k. write_place c.words new_value exn (get_elem? (places c.sections) k)) {x = index - 0}
        {y = index} (omega arith)

-- The sections do not overlap, and lie in the memory.
pub record IsLaidOut (c : MriContext) : Type 0 where
  pub separate :
      (i j place : ℕ)
      → get_elem? (places c.sections) i ≡ some place
      → get_elem? (places c.sections) j ≡ some place
      → i ≡ j
  pub inside : (i place : ℕ) → get_elem? (places c.sections) i ≡ some place → place < length c.words

get_elem?-lt : (ps : List ℕ) (i : ℕ) → i < length ps → (p : ℕ) × (get_elem? ps i ≡ some p)
get_elem?-lt [] i h = absurd (omega arith)
get_elem?-lt (p ∷ ps) zero h = (p, refl)
get_elem?-lt (p ∷ ps) (suc i) h = get_elem?-lt ps i (omega arith)

-- A register that exists has the value that is stored in it, and every other one, and an index that
-- is no register's, reads as before.
pub get-set_register :
    (c : MriContext) (i j v exn : ℕ)
    → IsLaidOut c
    → i < length (places c.sections)
    → get (set_register c i v exn).0 j exn ≡ (if i == j then (v, exn) else get c j exn)
unfolding set_register
get-set_register c i j v exn ok h =
    let ps = places c.sections in
    let (p, here) = get_elem?-lt ps i h in
    let stored : (set_loop c.words i v c.sections 0 exn).0 ≡ set c.words p v =
      ap (λ r. r.0) (set_register_lem c i v exn ∙ ap (write_place c.words v exn) here) in
    let read = read_place (set c.words p v) exn in
    ap (λ words. get (record c { words = words }) j exn) stored
    ∙ get_lem (record c { words = set c.words p v }) j exn
    ∙ elim (ℕ_discrete i j) [
      | yes e ↦ rw ((==_iff i j).1 e) (
          ap read (ap (get_elem? ps) (sym e) ∙ here)
          ∙ ap (λ w. (w, exn)) (get_or-set_self c.words p v 0 (ok.inside i p here)))
      | no ne ↦ rw (==_false i j ne) (elim (Option-cases (get_elem? ps j)) [
        | inl missing ↦
            ap read missing ∙ sym (get_lem c j exn ∙ ap (read_place c.words exn) missing)
        | inr (q, there) ↦
            ap read there
            ∙ ap (λ w. (w, exn))
                (get_or-set_ne c.words p q v 0
                  (λ e. ne (ok.separate i j p here (there ∙ ap some (sym e)))))
            ∙ sym (get_lem c j exn ∙ ap (read_place c.words exn) there)
      ])
    ]

count_loop-places :
    (sections : List ContextSection) (count : ℕ)
    → count_loop sections count ≡ count + length (places sections)
unfolding count_loop places
count_loop-places [] count = omega arith
count_loop-places (s ∷ sections) count = omega (
  arith,
  count_loop-places sections (count + s.count),
  length-places_from s.values s.count,
  length-append (places_from s.values s.count) (places sections),
)

-- The digits of the words at some places.
unfoldable pub text_at : ℕ → List ℕ → List ℕ → List ℕ
text_at bytes words [] = []
text_at bytes words (place ∷ places) =
    hex_of (bytes_of bytes (get_or words place 0)) ++ text_at bytes words places

length-bytes_of : (size value : ℕ) → length (bytes_of size value) ≡ size
unfolding bytes_of
length-bytes_of zero value = refl
length-bytes_of (suc size) value = omega (arith, length-bytes_of size (value / 256))

length-text_at :
    (bytes : ℕ) (words todo : List ℕ) → length (text_at bytes words todo) ≡ 2 * bytes * length todo
unfolding text_at
length-text_at bytes words [] = omega arith
length-text_at bytes words (place ∷ todo) =
    let object = bytes_of bytes (get_or words place 0) in
    omega (
      arith,
      length-append (hex_of object) (text_at bytes words todo),
      length-hex_of object,
      length-bytes_of bytes (get_or words place 0),
      length-text_at bytes words todo,
      mul-suc (2 * bytes) (length todo),
    )

-- The digits of all registers take two characters for each byte.
pub length-text :
    (bytes : ℕ) (c : MriContext)
    → length (text_at bytes c.words (places c.sections)) ≡ 2 * bytes * count_registers c
unfolding count_registers
length-text bytes c =
    length-text_at bytes c.words (places c.sections)
    ∙ ap (λ n. 2 * bytes * n) (sym (count_loop-places c.sections 0 ∙ start))
  where
    start : 0 + length (places c.sections) ≡ length (places c.sections)
    start = omega arith

get_elem?-at :
    (seen : List ℕ) (place : ℕ) (rest : List ℕ)
    → get_elem? (seen ++ (place ∷ rest)) (length seen) ≡ some place
get_elem?-at [] place rest = refl
get_elem?-at (x ∷ seen) place rest = get_elem?-at seen place rest

module _ (bytes : ℕ) where
  copy_to_loop-emit :
      (c : MriContext) (seen todo : List ℕ) (b : Buffer)
      → places c.sections ≡ seen ++ todo
      → b.exn ≡ 0
      → 2 * bytes * length todo ≤ bytes_left b
      → copy_to_loop bytes c (length todo) (length seen) b ≡ emit b (text_at bytes c.words todo)
  unfolding copy_to_loop text_at
  copy_to_loop-emit c seen [] b h e k = unfold overwrite in ground arith
  copy_to_loop-emit c seen (place ∷ todo) b h e k =
      let object = bytes_of bytes (get_or c.words place 0) in
      let got =
        get_lem c (length seen) b.exn
        ∙ ap (read_place c.words b.exn)
            (ap (λ ps. get_elem? ps (length seen)) h ∙ get_elem?-at seen place todo) in
      let text = hex_of object in
      let size : length text ≡ 2 * bytes =
        omega (arith, length-hex_of object, length-bytes_of bytes (get_or c.words place 0)) in
      let room : length text + 2 * bytes * length todo ≤ bytes_left b =
        omega (arith, size, k, mul-suc (2 * bytes) (length todo)) in
      let rest = copy_to_loop bytes c (length todo) in
      ap
        (λ (r : ℕ × ℕ).
          rest (length seen + 1)
            (write_bytes_to_buffer_as_hex (record b { exn = r.1 }) (bytes_of bytes r.0)))
        got
      ∙ ap (rest (length seen + 1))
          (write_bytes-emit b object e (omega (arith, length-hex_of object, room)))
      ∙ ap (λ k. rest k (emit b text)) {x = length seen + 1} {y = length (seen ++ (place ∷ []))}
          (omega (arith, length-append seen (place ∷ [])))
      ∙ copy_to_loop-emit c (seen ++ (place ∷ [])) todo (emit b text)
          (h ∙ sym (append_assoc seen (place ∷ []) todo)) refl
          (room-emit b text (2 * bytes * length todo) room)
      ∙ emit-emit b text (text_at bytes c.words todo)

  -- `Context_CopyToBuffer` with room for all registers: their words are written in the order of
  -- their numbers, each as the digits of its bytes, lowest byte first.
  pub copy_to_buffer_lem :
      (c : MriContext) (b : Buffer)
      → b.exn ≡ 0
      → 2 * bytes * count_registers c ≤ bytes_left b
      → copy_to_buffer bytes c b ≡ emit b (text_at bytes c.words (places c.sections))
  unfolding copy_to_buffer count_registers
  copy_to_buffer_lem c b e h =
      let zero_add : 0 + length (places c.sections) ≡ length (places c.sections) = omega arith in
      let all : count_loop c.sections 0 ≡ length (places c.sections) =
        count_loop-places c.sections 0 ∙ zero_add in
      ap (λ n. copy_to_loop bytes c n 0 b) all
      ∙ copy_to_loop-emit c [] (places c.sections) b refl e
          (subst (λ n. 2 * bytes * n ≤ bytes_left b) all h)
