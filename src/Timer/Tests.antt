-- ===== src/Timer/Tests.antt =====
-- One second and a half.
use reactor_network_library.Prelude.{◌≡◌, refl}
use reactor_network_library.Timer.{to_timespec}

one_and_a_half : to_timespec 1500000000 ≡ record { tv_sec = 1; tv_nsec = 500000000 }
unfolding to_timespec
one_and_a_half = refl
