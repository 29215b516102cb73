-- ===== src/Buffer/Storage.antt =====
-- The `std::vector<char>` under a Buffer: `std::copy` into it, and `resize`.
use reactor_network_library.Prelude.{
  ℕ, zero, ◌+◌, ◌-◌, ◌≤◌, ◌≡◌, refl, ap, ◌∙◌, List, [], ◌∷◌, ◌++◌, arith, leb, if◌then◌else◌,
  length, take, drop, replicate, length-append, length-take, length-replicate, drop-append,
  take-append, length-drop, Bool-cases, inl, inr, take_all, suc,
}

-- `std::copy(bs.begin(), bs.end(), xs.begin() + n)`, element by element. Past the end the source
-- has no defined behaviour; here nothing is written, and the theorems show that it does not happen.
unfoldable pub write_at : List ℕ → ℕ → List ℕ → List ℕ
write_at xs zero [] = xs
write_at [] zero (b ∷ bs) = []
write_at (x ∷ xs) zero (b ∷ bs) = b ∷ write_at xs zero bs
write_at [] (suc n) bs = []
write_at (x ∷ xs) (suc n) bs = x ∷ write_at xs n bs

-- `xs.resize(n)`: new elements are zero.
unfoldable pub resize : List ℕ → ℕ → List ℕ
resize xs n = if leb n (length xs) then take n xs else xs ++ replicate (n - length xs) 0

-- The bytes of `[from, from + n)`.
abbrev pub slice : List ℕ → ℕ → ℕ → List ℕ
slice xs from n = take n (drop from xs)

pub length-write_at : (xs : List ℕ) (n : ℕ) (bs : List ℕ) → length (write_at xs n bs) ≡ length xs
unfolding write_at
length-write_at xs zero [] = refl
length-write_at [] zero (b ∷ bs) = refl
length-write_at (x ∷ xs) zero (b ∷ bs) = ap suc (length-write_at xs zero bs)
length-write_at [] (suc n) bs = refl
length-write_at (x ∷ xs) (suc n) bs = ap suc (length-write_at xs n bs)

-- What stands before the end of the written range: the old prefix, then the new bytes.
pub take-write_at :
    (xs : List ℕ) (n : ℕ) (bs : List ℕ) (k : ℕ)
    → k ≡ n + length bs
    → k ≤ length xs
    → take k (write_at xs n bs) ≡ take n xs ++ bs
unfolding write_at
take-write_at xs zero [] zero e h = refl
take-write_at xs zero [] (suc k) e h = absurd (omega arith)
take-write_at xs zero (b ∷ bs) zero e h = absurd (omega arith)
take-write_at [] zero (b ∷ bs) (suc k) e h = absurd (omega arith)
take-write_at (x ∷ xs) zero (b ∷ bs) (suc k) e h =
    ap (◌∷◌ b) (take-write_at xs zero bs k (omega arith) (omega arith))
take-write_at xs (suc n) bs zero e h = absurd (omega arith)
take-write_at [] (suc n) bs (suc k) e h = absurd (omega arith)
take-write_at (x ∷ xs) (suc n) bs (suc k) e h =
    ap (◌∷◌ x) (take-write_at xs n bs k (omega arith) (omega arith))

pub drop-write_at :
    (xs : List ℕ) (r n m : ℕ) (bs : List ℕ)
    → n ≡ r + m
    → drop r (write_at xs n bs) ≡ write_at (drop r xs) m bs
unfolding write_at
drop-write_at xs zero n m bs e = ap (λ k. write_at xs k bs) (omega arith)
drop-write_at [] (suc r) zero m bs e = absurd (omega arith)
drop-write_at [] (suc r) (suc n) zero [] e = refl
drop-write_at [] (suc r) (suc n) zero (b ∷ bs) e = refl
drop-write_at [] (suc r) (suc n) (suc m) bs e = refl
drop-write_at (x ∷ xs) (suc r) zero m bs e = absurd (omega arith)
drop-write_at (x ∷ xs) (suc r) (suc n) m bs e = drop-write_at xs r n m bs (omega arith)

-- Writing just behind a range extends it by the bytes written.
pub slice-write_at :
    (xs : List ℕ) (r n : ℕ) (bs : List ℕ) (m k : ℕ)
    → n ≡ r + m
    → k ≡ m + length bs
    → n + length bs ≤ length xs
    → slice (write_at xs n bs) r k ≡ slice xs r m ++ bs
slice-write_at xs r n bs m k e f h =
    ap (take k) (drop-write_at xs r n m bs e)
    ∙ take-write_at (drop r xs) m bs k f (omega (arith, length-drop r xs))

pub length-resize : (xs : List ℕ) (n : ℕ) → length (resize xs n) ≡ n
unfolding resize
length-resize xs n = ground (
  arith,
  length-take n xs,
  length-append xs (replicate (n - length xs) 0),
  length-replicate {A = ℕ} (n - length xs) 0,
)

-- Growing keeps every range inside the old size.
pub slice-resize :
    (xs : List ℕ) (n r m : ℕ)
    → r + m ≤ length xs
    → length xs ≤ n
    → slice (resize xs n) r m ≡ slice xs r m
unfolding resize
slice-resize xs n r m h g = elim (Bool-cases (leb n (length xs))) [
  | inl small ↦ rw small (ap (λ ys. slice ys r m) (take_all n xs g))
  | inr large ↦ rw large (
      ap (take m) (drop-append r xs (replicate (n - length xs) 0) (omega arith))
      ∙ take-append m (drop r xs) _ (omega (arith, length-drop r xs)))
]
