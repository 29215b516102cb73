-- ===== src/Timer.antt =====
-- src/Timer.cpp: a duration as the `timespec` of the system calls. Durations are not negative here.
mod Tests
use reactor_network_library.Prelude.{ℕ, ◌+◌, ◌-◌, ◌*◌, ◌/◌, ◌^◌, ◌<◌, ◌≡◌, arith}

pub record Timespec : Type 0 where
  pub tv_sec : ℕ
  pub tv_nsec : ℕ

-- `to_timespec`
unfoldable pub to_timespec : ℕ → Timespec
to_timespec ns =
    let sec = ns / 1000000000 in record { tv_sec = sec; tv_nsec = ns - sec * 1000000000 }

-- The `timespec` is the duration, and its nanoseconds are below one second, as timerfd_settime(2)
-- wants them.
to_timespec_lem :
    (ns : ℕ)
    → ((to_timespec ns).tv_sec * 1000000000 + (to_timespec ns).tv_nsec ≡ ns)
      × ((to_timespec ns).tv_nsec < 1000000000)
unfolding to_timespec
to_timespec_lem ns = omega arith
