-- ===== src/Prelude/Words.antt =====
-- Machine words as native numbers: `size_t` and `uint32_t` with their wrap-around, and `int32_t` as
-- a bit pattern below 2 ^ 32.
use Prim.Native.Nat.{ℕ, ◌+◌, ◌-◌, ◌*◌, ◌%◌, ◌^◌}
use mathlib.Core.Bool.{Bool, ◌&&◌}
use reactor_network_library.Prelude.Tests.{ltb, leb, if◌then◌else◌}

abbrev pub size_max : ℕ
size_max = 2 ^ 64

abbrev pub add_size : ℕ → ℕ → ℕ
add_size a b = (a + b) % size_max

abbrev pub sub_size : ℕ → ℕ → ℕ
sub_size a b = (a + size_max - b) % size_max

abbrev pub add32 : ℕ → ℕ → ℕ
add32 a b = (a + b) % 2 ^ 32

-- The conversion of an `int` to `size_t`: the sign is extended.
abbrev pub int_to_size : ℕ → ℕ
int_to_size w = if ltb w (2 ^ 31) then w else w + (size_max - 2 ^ 32)

-- a >= b on `int`, for a literal b that is not negative.
abbrev pub int_ge : ℕ → ℕ → Bool
int_ge w b = ltb w (2 ^ 31) && leb b w

-- The value of four bytes in network order.
abbrev pub big_endian : ℕ → ℕ → ℕ → ℕ → ℕ
big_endian a b c d = a * 2 ^ 24 + b * 2 ^ 16 + c * 2 ^ 8 + d
