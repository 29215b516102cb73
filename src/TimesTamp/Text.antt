-- ===== src/TimesTamp/Text.antt =====
-- Reading the text of a point in time.
use reactor_network_library.Prelude.{
  ℕ, ◌+◌, ◌^◌, ◌≤◌, ◌<◌, ◌≡◌, sym, ap, ◌∙◌, List, [], ◌∷◌, ◌++◌, arith, length, take, length-append,
  append_assoc, take-append_length, take_all,
}
use reactor_network_library.TimesTamp.{
  TimesTamp, Tm, decimal, padded, joined, date_text, clock_text, tostring, tostring_data,
}
use reactor_network_library.TimesTamp.Digits.{
  numbers, length-decimal, padded_full, numbers-decimal, numbers-padded, length_year, year_four,
  padded_two, numbers-date_field, numbers-clock_field, numbers-last,
}

-- localtime(3): the ranges of the fields.
pub record InRange (t : Tm) : Type 0 where
  pub year : t.tm_year + 1900 < 2 ^ 31
  pub month : t.tm_mon < 12
  pub day : t.tm_mday ≤ 31
  pub hour : t.tm_hour < 24
  pub minute : t.tm_min < 60
  pub second : t.tm_sec ≤ 60

length-joined :
    (sep : ℕ) (a b c : List ℕ) → length (joined sep a b c) ≡ length a + length b + length c + 2
length-joined sep a b c =
    omega (arith, length-append a (sep ∷ (b ++ (sep ∷ c))), length-append b (sep ∷ c))

joined_assoc : (sep : ℕ) (a b c cs : List ℕ) → joined sep a b c ++ cs ≡ joined sep a b (c ++ cs)
joined_assoc sep a b c cs =
    append_assoc a (sep ∷ (b ++ (sep ∷ c))) cs
    ∙ ap (λ u. a ++ (sep ∷ u)) (append_assoc b (sep ∷ c) cs)

module _ (t : Tm) (r : InRange t) where
  length-date : length (date_text t) ≡ length (decimal 10 (t.tm_year + 1900)) + 6
  unfolding date_text
  length-date =
      length-joined 45 (padded 32 4 (decimal 10 (t.tm_year + 1900)))
        (padded 48 2 (decimal 10 (t.tm_mon + 1))) (padded 48 2 (decimal 10 t.tm_mday))
      ∙ omega (
        arith,
        ap length (padded_full 32 4 _ (length_year (t.tm_year + 1900) (omega arith))),
        padded_two (t.tm_mon + 1) (omega (arith, r.month)),
        padded_two t.tm_mday (omega (arith, r.day)),
      )

  length-clock : length (clock_text t) ≡ 8
  unfolding clock_text
  length-clock =
      length-joined 58 (padded 48 2 (decimal 10 t.tm_hour)) (padded 48 2 (decimal 10 t.tm_min))
        (padded 48 2 (decimal 10 t.tm_sec))
      ∙ omega (
        arith,
        padded_two t.tm_hour (omega (arith, r.hour)),
        padded_two t.tm_min (omega (arith, r.minute)),
        padded_two t.tm_sec (omega (arith, r.second)),
      )

  numbers-year :
      (cs : List ℕ)
      → numbers 0 (padded 32 4 (decimal 10 (t.tm_year + 1900)) ++ (45 ∷ cs))
        ≡ (t.tm_year + 1900) ∷ numbers 0 cs
  unfolding numbers
  numbers-year cs =
      ap (λ u. numbers 0 (u ++ (45 ∷ cs)))
        (padded_full 32 4 _ (length_year (t.tm_year + 1900) (omega arith)))
      ∙ numbers-decimal 10 (t.tm_year + 1900) (45 ∷ cs) (omega (arith, r.year))

  numbers-date :
      (cs : List ℕ)
      → numbers 0 (date_text t ++ cs) ≡ (t.tm_year + 1900) ∷ (t.tm_mon + 1) ∷ numbers t.tm_mday cs
  unfolding date_text
  numbers-date cs =
      ap (numbers 0) (
        joined_assoc 45 (padded 32 4 (decimal 10 (t.tm_year + 1900)))
          (padded 48 2 (decimal 10 (t.tm_mon + 1))) (padded 48 2 (decimal 10 t.tm_mday)) cs)
      ∙ numbers-year (
          padded 48 2 (decimal 10 (t.tm_mon + 1))
          ++ (45 ∷ (padded 48 2 (decimal 10 t.tm_mday) ++ cs)))
      ∙ ap (◌∷◌ (t.tm_year + 1900)) (
          numbers-date_field (t.tm_mon + 1) (padded 48 2 (decimal 10 t.tm_mday) ++ cs)
            (omega (arith, r.month))
          ∙ ap (◌∷◌ (t.tm_mon + 1)) (numbers-padded t.tm_mday cs (omega (arith, r.day))))

  numbers-clock : numbers 0 (clock_text t) ≡ t.tm_hour ∷ t.tm_min ∷ t.tm_sec ∷ []
  unfolding clock_text
  numbers-clock =
      numbers-clock_field t.tm_hour
        (padded 48 2 (decimal 10 t.tm_min) ++ (58 ∷ padded 48 2 (decimal 10 t.tm_sec)))
        (omega (arith, r.hour))
      ∙ ap (◌∷◌ t.tm_hour) (
          numbers-clock_field t.tm_min (padded 48 2 (decimal 10 t.tm_sec)) (omega (arith, r.minute))
          ∙ ap (◌∷◌ t.tm_min) (numbers-last t.tm_sec (omega (arith, r.second))))

  length-date_clock :
      length (date_text t ++ (32 ∷ clock_text t)) ≡ length (decimal 10 (t.tm_year + 1900)) + 15
  length-date_clock =
      omega (arith, length-append (date_text t) (32 ∷ clock_text t), length-date, length-clock)

-- The text of a point in time says the time: read again, it gives the year, month, day, hour, minute
-- and second that localtime(3) broke it into. The array of 128 characters cuts nothing off.
pub tostring_lem :
    (localtime : ℕ → Tm) (t : TimesTamp)
    → InRange (localtime t.sec_since_epoch)
    → numbers 0 (tostring localtime t)
      ≡ ((localtime t.sec_since_epoch).tm_year + 1900)
        ∷ ((localtime t.sec_since_epoch).tm_mon + 1)
        ∷ (localtime t.sec_since_epoch).tm_mday
        ∷ (localtime t.sec_since_epoch).tm_hour
        ∷ (localtime t.sec_since_epoch).tm_min
        ∷ (localtime t.sec_since_epoch).tm_sec
        ∷ []
unfolding tostring numbers
tostring_lem localtime t r =
    let tm = localtime t.sec_since_epoch in
    let fits : length (date_text tm ++ (32 ∷ clock_text tm)) ≤ 127 =
      omega (arith, length-date_clock tm r, length-decimal 10 (tm.tm_year + 1900)) in
    ap (numbers 0) (take_all 127 (date_text tm ++ (32 ∷ clock_text tm)) fits)
    ∙ numbers-date tm r (32 ∷ clock_text tm)
    ∙ ap (λ u. (tm.tm_year + 1900) ∷ (tm.tm_mon + 1) ∷ tm.tm_mday ∷ u) (numbers-clock tm r)

-- Up to the year 9999 both texts have a fixed length, 19 and 10 characters, and the one of the date
-- is the front of the other.
pub tostring_data_lem :
    (localtime : ℕ → Tm) (t : TimesTamp)
    → InRange (localtime t.sec_since_epoch)
    → (localtime t.sec_since_epoch).tm_year + 1900 ≤ 9999
    → (length (tostring localtime t) ≡ 19)
      × (length (tostring_data localtime t) ≡ 10)
      × (tostring_data localtime t ≡ take 10 (tostring localtime t))
unfolding tostring tostring_data
tostring_data_lem localtime t r h =
    let tm = localtime t.sec_since_epoch in
    let year = year_four (tm.tm_year + 1900) (omega arith) h in
    let whole =
      take_all 127 (date_text tm ++ (32 ∷ clock_text tm)) (omega (arith, length-date_clock tm r)) in
    let date = take_all 127 (date_text tm) (omega (arith, length-date tm r)) in
    (
      ap length whole ∙ length-date_clock tm r ∙ omega arith,
      ap length date ∙ length-date tm r ∙ omega arith,
      date
          ∙ sym (
              take-append_length 10 (date_text tm) (32 ∷ clock_text tm)
                (omega (arith, length-date tm r)))
          ∙ sym (ap (take 10) whole),
    )
