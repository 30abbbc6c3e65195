-- ===== src/Memory/ReadLaws.antt =====
-- core/memory.c: what `ReadMemoryIntoHexBuffer` writes.
use mri.Prelude.{
  ℕ, zero, suc, ◌+◌, ◌*◌, ◌%◌, ◌^◌, ◌<◌, ◌≤◌, ◌≡◌, refl, sym, ap, ap₂, ◌∙◌, arith, List, [], ◌∷◌,
  All, length, false, ltb, ◌==◌, mod-eq_of_lt, Bool-cases, subst, inl, inr, ==_iff,
}
use mri.Buffer.Core.{Buffer, bytes_left}
use mri.Buffer.Emit.{emit, emit-emit, hex_byte, write_byte_as_hex-emit, overwrite}
use mri.Objects.{
  bytes_of, value_of, bytes_of-value_of, hex_of, room-emit, write_bytes-emit,
  write_bytes_to_buffer_as_hex,
}
use mri.Buffer.Bytes.{write_byte_as_hex}
use mri.Memory.Platform.{Platform, Target}
use mri.Memory.Read.{
  read_bytes_loop, read_memory_bytes, read_memory_unit, read_memory_double_word,
  read_memory_into_hex_buffer,
}

-- The bytes at `n` addresses.
unfoldable pub bytes_at : (ℕ → ℕ) → ℕ → ℕ → List ℕ
bytes_at byte_at address zero = []
bytes_at byte_at address (suc n) = byte_at address ∷ bytes_at byte_at (address + 1) n

pub length-bytes_at : (byte_at : ℕ → ℕ) (address n : ℕ) → length (bytes_at byte_at address n) ≡ n
unfolding bytes_at
length-bytes_at byte_at address zero = refl
length-bytes_at byte_at address (suc n) = omega (arith, length-bytes_at byte_at (address + 1) n)

-- A platform that reads little-endian bytes at aligned addresses without a fault and without another effect.
pub record IsReadable {S : Type 0} (platform : Platform S) (byte_at : S → ℕ → ℕ) : Type 0 where
  pub is_byte : (s : S) (address : ℕ) → byte_at s address < 256
  pub reads :
      (size address : ℕ) (s : S)
      → address % size ≡ 0
      → platform.mem_read size address s ≡ (value_of (bytes_at (byte_at s) address size), s)
  pub no_fault : (s : S) → platform.was_memory_fault_encountered s ≡ (false, s)

bytes_at-All :
    (byte_at : ℕ → ℕ) (address n : ℕ)
    → ((a : ℕ) → byte_at a < 256)
    → All (λ byte. byte < 256) (bytes_at byte_at address n)
unfolding bytes_at
bytes_at-All byte_at address zero h = tt
bytes_at-All byte_at address (suc n) h = (h address, bytes_at-All byte_at (address + 1) n h)

module _ {S : Type 0} (platform : Platform S) (bytes : ℕ) (byte_at : S → ℕ → ℕ)
    (ok : IsReadable platform byte_at) where
  -- The target once `n` bytes have been read.
  abbrev pub after_reading : Target S → ℕ → ℕ → Target S
  after_reading t address n = record t {
    buffer = emit t.buffer (hex_of (bytes_at (byte_at t.state) address n));
  }

  byte_read : (address : ℕ) (s : S) → platform.mem_read 1 address s ≡ (byte_at s address, s)
  byte_read address s =
      ok.reads 1 address s (omega arith)
      ∙ unfold bytes_at in
        unfold value_of in
        ap (λ k. (k, s)) {x = byte_at s address + 256 * 0} {y = byte_at s address} (omega arith)

  read_bytes_loop-emit :
      (n address byte_count : ℕ) (t : Target S)
      → t.buffer.exn ≡ 0
      → 2 * n ≤ bytes_left t.buffer
      → address + n < 256 ^ bytes
      → read_bytes_loop platform bytes n address byte_count t
        ≡ (byte_count + n, after_reading t address n)
  unfolding read_bytes_loop bytes_at hex_of
  read_bytes_loop-emit zero address byte_count t e h k = unfold overwrite in ground arith
  read_bytes_loop-emit (suc n) address byte_count t e h k =
      let byte = byte_at t.state address in
      let b = write_byte_as_hex t.buffer byte in
      let inside : address + 1 < 256 ^ bytes = omega arith in
      let shown = write_byte_as_hex-emit t.buffer byte (omega arith) in
      let t₁ : Target S = record t { buffer = emit t.buffer (hex_byte byte) } in
      rw (byte_read address t.state, ok.no_fault t.state, shown, mod-eq_of_lt inside)
        (read_bytes_loop-emit n (address + 1) (byte_count + 1) t₁ refl
            (room-emit t.buffer (hex_byte byte) (2 * n) (omega arith)) (omega arith)
          ∙ ap₂ (λ (count : ℕ) (b : Buffer). (count, record t { buffer = b }))
              {x = byte_count + 1 + n} {y = byte_count + suc n} (omega arith)
              (emit-emit t.buffer (hex_byte byte)
                (hex_of (bytes_at (byte_at t.state) (address + 1) n))))

  object_read :
      (s : S) (address size : ℕ)
      → bytes_of size (value_of (bytes_at (byte_at s) address size))
        ≡ bytes_at (byte_at s) address size
  object_read s address size =
      ap (λ k. bytes_of k (value_of (bytes_at (byte_at s) address size)))
        (sym (length-bytes_at (byte_at s) address size))
      ∙ bytes_of-value_of (bytes_at (byte_at s) address size)
          (bytes_at-All (byte_at s) address size (ok.is_byte s))

  unit-emit :
      (n address : ℕ) (t : Target S)
      → t.buffer.exn ≡ 0
      → 2 * suc n ≤ bytes_left t.buffer
      → address + suc n < 256 ^ bytes
      → read_memory_unit platform bytes (suc n) t address ≡ (suc n, after_reading t address (suc n))
  unfolding read_memory_unit read_memory_bytes
  unit-emit n address t e h k = elim (Bool-cases (address % suc n == 0)) [
    | inl aligned ↦
        let object = bytes_at (byte_at t.state) address (suc n) in
        rw (ok.reads (suc n) address t.state ((==_iff _ 0).0 aligned), ok.no_fault t.state, aligned)
          (ap (λ b. (suc n, record t { buffer = b }))
            (ap (write_bytes_to_buffer_as_hex t.buffer) (object_read t.state address (suc n))
              ∙ write_bytes-emit t.buffer object e
                  (omega (arith, length-bytes_at (byte_at t.state) address (suc n)))))
    | inr other ↦ rw other (
        read_bytes_loop-emit (suc n) address 0 t e h k
        ∙ ap (λ (count : ℕ). (count, after_reading t address (suc n))) {x = 0 + suc n} {y = suc n}
            (omega arith))
  ]

  -- So many bytes are shown, in one access or in several.
  abbrev Shown : Target S → ℕ → ℕ → Type 0
  Shown t address n =
      2 * n ≤ bytes_left t.buffer
      → address + n < 256 ^ bytes
      → read_memory_into_hex_buffer platform bytes t address n ≡ (n, after_reading t address n)

  by_bytes :
      (n address : ℕ) (t : Target S)
      → t.buffer.exn ≡ 0
      → 2 * n ≤ bytes_left t.buffer
      → address + n < 256 ^ bytes
      → read_memory_bytes platform bytes t address n ≡ (n, after_reading t address n)
  unfolding read_memory_bytes
  by_bytes n address t e h k =
      read_bytes_loop-emit n address 0 t e h k
      ∙ ap (λ (count : ℕ). (count, after_reading t address n)) {x = 0 + n} {y = n} (omega arith)

  eight-Shown : (address : ℕ) (t : Target S) → t.buffer.exn ≡ 0 → Shown t address 8
  unfolding read_memory_into_hex_buffer read_memory_double_word
  eight-Shown address t e h k = elim (Bool-cases (ltb bytes 8)) [
    | inl small ↦ rw small (by_bytes 8 address t e h k)
    | inr large ↦ rw large (unit-emit 7 address t e h k)
  ]

  -- `ReadMemoryIntoHexBuffer` on readable memory, with room for the digits: they are those of the
  -- bytes from `address` on, lowest address first, for a count that is read in one access as for one
  -- that is read byte by byte, and at an aligned address as at another; all bytes are counted.
  pub read_memory_into_hex_buffer_lem :
      (n address : ℕ) (t : Target S)
      → t.buffer.exn ≡ 0
      → 2 * n ≤ bytes_left t.buffer
      → address + n < 256 ^ bytes
      → read_memory_into_hex_buffer platform bytes t address n ≡ (n, after_reading t address n)
  unfolding read_memory_into_hex_buffer
  read_memory_into_hex_buffer_lem n address t e h k = elim (Bool-cases (n == 2)) [
    | inl two ↦ subst (Shown t address) (sym ((==_iff n 2).0 two)) (unit-emit 1 address t e) h k
    | inr n2 ↦ elim (Bool-cases (n == 4)) [
      | inl four ↦ subst (Shown t address) (sym ((==_iff n 4).0 four)) (unit-emit 3 address t e) h k
      | inr n4 ↦ elim (Bool-cases (n == 8)) [
        | inl eight ↦
            subst (Shown t address) (sym ((==_iff n 8).0 eight)) (eight-Shown address t e) h k
        | inr n8 ↦ rw (n2, n4, n8) (by_bytes n address t e h k)
      ]
    ]
  ]
