-- ===== src/TimesTamp/Digits.antt =====
-- The digits of a field, and reading them again.
use reactor_network_library.Prelude.{
  ℕ, zero, suc, ◌+◌, ◌-◌, ◌*◌, ◌/◌, ◌%◌, ◌^◌, ◌≤◌, ◌<◌, ◌≡◌, refl, sym, ap, ◌∙◌, inl, inr, true,
  ◌&&◌, List, [], ◌∷◌, ◌++◌, arith, ltb, leb, if◌then◌else◌, length, replicate, length-append,
  length-replicate, append_assoc, append-nil, Bool-cases, ltb→lt, not_ltb→le, le→not_ltb, lt→ltb,
}
use reactor_network_library.TimesTamp.{decimal, padded}

-- The specification: the numbers in a text, which anything that is no digit parts.
unfoldable pub numbers : ℕ → List ℕ → List ℕ
numbers n [] = n ∷ []
numbers n (c ∷ cs) =
    let more = numbers (n * 10 + (c - 48)) cs in
    let next = numbers 0 cs in if leb 48 c && ltb c 58 then more else n ∷ next

numbers-digit :
    (n d : ℕ) (cs : List ℕ) → d < 10 → numbers n ((48 + d) ∷ cs) ≡ numbers (n * 10 + d) cs
unfolding numbers
numbers-digit n d cs h =
    let digit : (leb 48 (48 + d) && ltb (48 + d) 58) ≡ true = ground arith in
    let same : n * 10 + (48 + d - 48) ≡ n * 10 + d = omega arith in
    rw (digit, numbers) (ap (λ m. numbers m cs) same)

pub numbers-decimal :
    (k n : ℕ) (cs : List ℕ) → n < 10 ^ k → numbers 0 (decimal k n ++ cs) ≡ numbers n cs
unfolding decimal
numbers-decimal zero n cs h = ap (λ m. numbers m cs) (omega arith)
numbers-decimal (suc k) n cs h = elim (Bool-cases (ltb n 10)) [
  | inl small ↦
      rw (small, decimal)
        (numbers-digit 0 n cs (ltb→lt n 10 small) ∙ ap (λ m. numbers m cs) (omega arith))
  | inr big ↦
      rw (big, decimal)
        (ap (numbers 0) (append_assoc (decimal k (n / 10)) ((48 + n % 10) ∷ []) cs)
          ∙ numbers-decimal k (n / 10) ((48 + n % 10) ∷ cs) (omega arith)
          ∙ numbers-digit (n / 10) (n % 10) cs (omega arith)
          ∙ ap (λ m. numbers m cs) (omega arith))
]

numbers-zeros : (k : ℕ) (cs : List ℕ) → numbers 0 (replicate k 48 ++ cs) ≡ numbers 0 cs
numbers-zeros zero cs = refl
numbers-zeros (suc k) cs =
    numbers-digit 0 0 (replicate k 48 ++ cs) (omega arith) ∙ numbers-zeros k cs

pub length-decimal : (k n : ℕ) → length (decimal k n) ≤ k
unfolding decimal
length-decimal zero n = omega arith
length-decimal (suc k) n = elim (Bool-cases (ltb n 10)) [
  | inl small ↦ rw (small, decimal) (omega arith)
  | inr big ↦
      rw (big, decimal)
        (omega (
          arith,
          length-append (decimal k (n / 10)) ((48 + n % 10) ∷ []),
          length-decimal k (n / 10),
        ))
]

decimal-longer : (k n : ℕ) → 10 ≤ n → length (decimal (suc k) n) ≡ 1 + length (decimal k (n / 10))
unfolding decimal
decimal-longer k n h =
    rw (le→not_ltb n 10 h, decimal)
      (omega (arith, length-append (decimal k (n / 10)) ((48 + n % 10) ∷ [])))

decimal_digit : (k n : ℕ) → n < 10 → length (decimal (suc k) n) ≡ 1
unfolding decimal
decimal_digit k n h = rw (lt→ltb n 10 h, decimal) refl

pub padded_full :
    (fill width : ℕ) (text : List ℕ) → width ≤ length text → padded fill width text ≡ text
unfolding padded
padded_full fill width text h =
    let none : width - length text ≡ 0 = omega arith in ap (λ k. replicate k fill ++ text) none

length-padded :
    (fill width : ℕ) (text : List ℕ)
    → length (padded fill width text) ≡ (width - length text) + length text
unfolding padded
length-padded fill width text =
    length-append (replicate (width - length text) fill) text
    ∙ ap (λ k. k + length text) (length-replicate (width - length text) fill)

pub numbers-padded :
    (n : ℕ) (cs : List ℕ)
    → n < 10 ^ 10
    → numbers 0 (padded 48 2 (decimal 10 n) ++ cs) ≡ numbers n cs
unfolding padded
numbers-padded n cs h =
    ap (numbers 0) (append_assoc (replicate (2 - length (decimal 10 n)) 48) (decimal 10 n) cs)
    ∙ numbers-zeros (2 - length (decimal 10 n)) (decimal 10 n ++ cs)
    ∙ numbers-decimal 10 n cs h

decimal_some : (k n : ℕ) → 1 ≤ length (decimal (suc k) n)
unfolding decimal
decimal_some k n = elim (Bool-cases (ltb n 10)) [
  | inl small ↦ rw (small, decimal) (omega arith)
  | inr big ↦
      rw (big, decimal) (omega (arith, length-append (decimal k (n / 10)) ((48 + n % 10) ∷ [])))
]

pub length_year : (n : ℕ) → 1000 ≤ n → 4 ≤ length (decimal 10 n)
length_year n h = omega (
  arith,
  decimal-longer 9 n (omega arith),
  decimal-longer 8 (n / 10) (omega arith),
  decimal-longer 7 (n / 10 / 10) (omega arith),
  decimal_some 6 (n / 10 / 10 / 10),
)

pub year_four : (n : ℕ) → 1000 ≤ n → n ≤ 9999 → length (decimal 10 n) ≡ 4
year_four n h k = omega (
  arith,
  decimal-longer 9 n (omega arith),
  decimal-longer 8 (n / 10) (omega arith),
  decimal-longer 7 (n / 10 / 10) (omega arith),
  decimal_digit 6 (n / 10 / 10 / 10) (omega arith),
)

pub padded_two : (n : ℕ) → n < 100 → length (padded 48 2 (decimal 10 n)) ≡ 2
padded_two n h = elim (Bool-cases (ltb n 10)) [
  | inl small ↦
      omega (arith, length-padded 48 2 (decimal 10 n), decimal_digit 9 n (ltb→lt n 10 small))
  | inr big ↦ omega (
    arith,
    length-padded 48 2 (decimal 10 n),
    decimal-longer 9 n (not_ltb→le n 10 big),
    decimal_digit 8 (n / 10) (omega arith),
  )
]

-- A field of two digits, with what parts it from the next one.
pub numbers-date_field :
    (n : ℕ) (cs : List ℕ)
    → n < 10 ^ 10
    → numbers 0 (padded 48 2 (decimal 10 n) ++ (45 ∷ cs)) ≡ n ∷ numbers 0 cs
unfolding numbers
numbers-date_field n cs h = numbers-padded n (45 ∷ cs) h

pub numbers-clock_field :
    (n : ℕ) (cs : List ℕ)
    → n < 10 ^ 10
    → numbers 0 (padded 48 2 (decimal 10 n) ++ (58 ∷ cs)) ≡ n ∷ numbers 0 cs
unfolding numbers
numbers-clock_field n cs h = numbers-padded n (58 ∷ cs) h

-- The last field.
pub numbers-last : (n : ℕ) → n < 10 ^ 10 → numbers 0 (padded 48 2 (decimal 10 n)) ≡ n ∷ []
unfolding numbers
numbers-last n h =
    ap (numbers 0) (sym (append-nil (padded 48 2 (decimal 10 n)))) ∙ numbers-padded n [] h
