-- ===== src/TryCatch.antt =====
-- core/try_catch.h: the exception codes, and the rule by which the greatest code thrown is kept.
-- The code itself, `mriExceptionCode`, is the field `exn` of the state that each component keeps.
-- `__try` clears it, `__catch` tests it, and the `__throwing_func`s between them stop at the first
-- that sets it.
use mri.Prelude.{ℕ, ltb, if◌then◌else◌}

abbrev pub no_exception : ℕ
no_exception = 0

abbrev pub buffer_overrun_exception : ℕ
buffer_overrun_exception = 1

abbrev pub invalid_hex_digit_exception : ℕ
invalid_hex_digit_exception = 2

abbrev pub invalid_value_exception : ℕ
invalid_value_exception = 3

abbrev pub invalid_argument_exception : ℕ
invalid_argument_exception = 4

abbrev pub timeout_exception : ℕ
timeout_exception = 5

abbrev pub invalid_index_exception : ℕ
invalid_index_exception = 6

abbrev pub not_found_exception : ℕ
not_found_exception = 7

abbrev pub exceeded_hardware_resources_exception : ℕ
exceeded_hardware_resources_exception = 8

abbrev pub mem_fault_exception : ℕ
mem_fault_exception = 10

-- `setExceptionCode`: the new value of `mriExceptionCode`.
unfoldable pub set_exception_code : ℕ → ℕ → ℕ
set_exception_code exception_code current =
    if ltb current exception_code then exception_code else current
