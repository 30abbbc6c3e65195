-- ===== src/Monitor/Signal.antt =====
-- The signals of core/signal.h and of the C library, and `EINTR`.
use mri.Prelude.{ℕ}

abbrev pub sigint : ℕ
sigint = 2

abbrev pub sigill : ℕ
sigill = 4

abbrev pub sigtrap : ℕ
sigtrap = 5

abbrev pub sigbus : ℕ
sigbus = 10

abbrev pub sigsegv : ℕ
sigsegv = 11

abbrev pub eintr : ℕ
eintr = 4
