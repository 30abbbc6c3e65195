-- ===== src/Context/Core.antt =====
-- core/context.c: the structure, and the access to one register.
use mri.Prelude.{ℕ, ◌+◌, ◌-◌, ltb, if◌then◌else◌, List, [], ◌∷◌, get_or, set}
use mri.TryCatch.{set_exception_code, buffer_overrun_exception}

-- `ContextSection`: `values` is the index in the memory of the word that `pValues` points to.
pub record ContextSection : Type 0 where
  pub values : ℕ
  pub count : ℕ

-- `MriContext`, with the memory that the sections point into, a list of `uintmri_t`s.
pub record MriContext : Type 0 where
  pub sections : List ContextSection
  pub words : List ℕ

-- `Context_Init`
abbrev pub init : MriContext → List ContextSection → MriContext
init c sections = record c { sections = sections }

-- The loop of `Context_Count`
unfoldable pub count_loop : List ContextSection → ℕ → ℕ
count_loop [] count = count
count_loop (s ∷ sections) count = count_loop sections (count + s.count)

-- `Context_Count`
unfoldable pub count_registers : MriContext → ℕ
count_registers c = count_loop c.sections 0

-- The loop of `Context_Get`; the result is the value beside `mriExceptionCode`.
unfoldable pub get_loop : List ℕ → ℕ → List ContextSection → ℕ → ℕ → ℕ × ℕ
get_loop words index [] count exn = (0, set_exception_code buffer_overrun_exception exn)
get_loop words index (s ∷ sections) count exn =
    let rest = get_loop words index sections (count + s.count) exn in
    if ltb index (count + s.count) then (get_or words (s.values + (index - count)) 0, exn) else rest

-- `Context_Get`
unfoldable pub get : MriContext → ℕ → ℕ → ℕ × ℕ
get c index exn = get_loop c.words index c.sections 0 exn

-- The loop of `Context_Set`; the result is the memory beside `mriExceptionCode`.
unfoldable pub set_loop : List ℕ → ℕ → ℕ → List ContextSection → ℕ → ℕ → List ℕ × ℕ
set_loop words index new_value [] count exn =
    (words, set_exception_code buffer_overrun_exception exn)
set_loop words index new_value (s ∷ sections) count exn =
    let rest = set_loop words index new_value sections (count + s.count) exn in
    if ltb index (count + s.count)
    then (set words (s.values + (index - count)) new_value, exn)
    else rest

-- `Context_Set`
unfoldable pub set_register : MriContext → ℕ → ℕ → ℕ → MriContext × ℕ
set_register c index new_value exn =
    let (words, exn') = set_loop c.words index new_value c.sections 0 exn in
    (record c { words = words }, exn')
