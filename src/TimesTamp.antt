-- ===== src/TimesTamp.antt =====
-- src/TimesTamp.cpp and src/include/TimesTamp.h: points in time as text. `localtime` of the C library
-- is a parameter.
pub mod Digits
pub mod Text
mod Tests
use reactor_network_library.Prelude.{
  ℕ, zero, suc, ◌+◌, ◌-◌, ◌/◌, ◌%◌, List, [], ◌∷◌, ◌++◌, ltb, if◌then◌else◌, length, take,
  replicate,
}

-- `m_secSinceEpoch`, a `time_t` that is not negative.
pub record TimesTamp : Type 0 where
  pub sec_since_epoch : ℕ

abbrev pub toint : TimesTamp → ℕ
toint t = t.sec_since_epoch

-- `time(nullptr)` is the argument.
abbrev pub now : ℕ → TimesTamp
now time = record { sec_since_epoch = time }

-- `struct tm`, for a year from 1900 on.
pub record Tm : Type 0 where
  pub tm_year : ℕ
  pub tm_mon : ℕ
  pub tm_mday : ℕ
  pub tm_hour : ℕ
  pub tm_min : ℕ
  pub tm_sec : ℕ

-- `%d` of an `int` that is not negative: it has ten digits at most.
unfoldable pub decimal : ℕ → ℕ → List ℕ
decimal zero n = []
decimal (suc k) n =
    let front = decimal k (n / 10) in
    if ltb n 10 then (48 + n) ∷ [] else front ++ ((48 + n % 10) ∷ [])

-- `%4d` and `%02d`: the text is filled up in front.
unfoldable pub padded : ℕ → ℕ → List ℕ → List ℕ
padded fill width text = replicate (width - length text) fill ++ text

-- `snprintf` into an array of `size` characters: a zero stands behind those that it keeps.
abbrev pub snprintf : ℕ → List ℕ → List ℕ
snprintf size text = take (size - 1) text

-- Three fields with a character between them.
abbrev pub joined : ℕ → List ℕ → List ℕ → List ℕ → List ℕ
joined sep a b c = a ++ (sep ∷ (b ++ (sep ∷ c)))

-- `"%4d-%02d-%02d"`
unfoldable pub date_text : Tm → List ℕ
date_text t =
    joined 45 (padded 32 4 (decimal 10 (t.tm_year + 1900)))
      (padded 48 2 (decimal 10 (t.tm_mon + 1))) (padded 48 2 (decimal 10 t.tm_mday))

-- `"%02d:%02d:%02d"`
unfoldable pub clock_text : Tm → List ℕ
clock_text t =
    joined 58 (padded 48 2 (decimal 10 t.tm_hour)) (padded 48 2 (decimal 10 t.tm_min))
      (padded 48 2 (decimal 10 t.tm_sec))

module _ (localtime : ℕ → Tm) where
  unfoldable pub tostring : TimesTamp → List ℕ
  tostring t =
      let tm = localtime t.sec_since_epoch in snprintf 128 (date_text tm ++ (32 ∷ clock_text tm))

  unfoldable pub tostring_data : TimesTamp → List ℕ
  tostring_data t = snprintf 128 (date_text (localtime t.sec_since_epoch))
