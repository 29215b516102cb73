-- ===== src/TimesTamp/Tests.antt =====
-- A run on a small input, and the instances of the theorems.
use reactor_network_library.Prelude.{ℕ, ◌+◌, ◌/◌, ◌%◌, ◌≡◌, refl, [], ◌∷◌, arith}
use reactor_network_library.TimesTamp.{
  TimesTamp, Tm, now, decimal, padded, date_text, tostring, tostring_data,
}
use reactor_network_library.TimesTamp.Digits.{numbers}
use reactor_network_library.TimesTamp.Text.{InRange, tostring_lem}

-- `localtime` in January 1970, in UTC.
abbrev january : ℕ → Tm
january s = record {
  tm_year = 70;
  tm_mon = 0;
  tm_mday = 1 + s / 86400;
  tm_hour = s / 3600 % 24;
  tm_min = s / 60 % 60;
  tm_sec = s % 60;
}

-- The third day, 01:02:03.
abbrev third : TimesTamp
third = now 176523

third-InRange : InRange (january third.sec_since_epoch)
third-InRange = record {
  year = omega arith;
  month = omega arith;
  day = omega arith;
  hour = omega arith;
  minute = omega arith;
  second = omega arith;
}

-- "1970-01-03"
date_runs : tostring_data january third ≡ 49 ∷ 57 ∷ 55 ∷ 48 ∷ 45 ∷ 48 ∷ 49 ∷ 45 ∷ 48 ∷ 51 ∷ []
unfolding tostring_data date_text decimal padded
date_runs = refl

tostring_lem_example : numbers 0 (tostring january third) ≡ 1970 ∷ 1 ∷ 3 ∷ 1 ∷ 2 ∷ 3 ∷ []
tostring_lem_example = tostring_lem january third third-InRange
