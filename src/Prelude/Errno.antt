-- ===== src/Prelude/Errno.antt =====
-- <errno.h> on Linux, where EWOULDBLOCK is EAGAIN.
use Prim.Native.Nat.{ℕ}

abbrev pub eintr : ℕ
eintr = 4

abbrev pub eagain : ℕ
eagain = 11

abbrev pub enfile : ℕ
enfile = 23

abbrev pub emfile : ℕ
emfile = 24
