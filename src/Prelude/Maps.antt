-- ===== src/Prelude/Maps.antt =====
-- Association lists with numbers as keys: the `std::unordered_map<int, …>` of the program. `insert`
-- is `m[k] = v`, `erase` is `m.erase(k)`. Sets of numbers are lists, read by `elem`.
use Prim.Native.Nat.{ℕ}
use mathlib.Core.Path.{◌≡◌, refl}
use mathlib.Core.List.{List, [], ◌∷◌, ◌++◌}
use mathlib.Core.Bool.{Bool, false, ◌||◌}
use mathlib.Core.Option.{Option, none, some}
use native.Mathlib.Omega.{arith}
use reactor_network_library.Prelude.Tests.{◌==◌, if◌then◌else◌}

module _ {ℓ} {V : Type ℓ} where
  unfoldable pub lookup : ℕ → List (ℕ × V) → Option V
  lookup fd [] = none
  lookup fd (entry ∷ rest) = if entry.0 == fd then some entry.1 else lookup fd rest

  unfoldable pub erase : ℕ → List (ℕ × V) → List (ℕ × V)
  erase fd [] = []
  erase fd (entry ∷ rest) =
      let others = erase fd rest in if entry.0 == fd then others else entry ∷ others

  pub lookup-erase :
      (fd j : ℕ) (m : List (ℕ × V)) → lookup j (erase fd m) ≡ (if fd == j then none else lookup j m)
  unfolding lookup erase
  lookup-erase fd j [] = ground arith
  lookup-erase fd j (entry ∷ rest) = ground (arith, lookup-erase fd j rest)

  unfoldable pub insert : ℕ → V → List (ℕ × V) → List (ℕ × V)
  unfolding erase
  insert fd v m = (fd, v) ∷ erase fd m

  pub lookup-insert :
      (fd j : ℕ) (v : V) (m : List (ℕ × V))
      → lookup j (insert fd v m) ≡ (if fd == j then some v else lookup j m)
  unfolding insert lookup
  lookup-insert fd j v m = ground (arith, lookup-erase fd j m)

  unfoldable pub erase_all : List ℕ → List (ℕ × V) → List (ℕ × V)
  erase_all [] m = m
  erase_all (k ∷ ks) m = erase_all ks (erase k m)

abbrev pub elem : ℕ → List ℕ → Bool
elem k [] = false
elem k (x ∷ xs) = (x == k) || elem k xs

pub elem-append : (k : ℕ) (xs ys : List ℕ) → elem k (xs ++ ys) ≡ (elem k xs || elem k ys)
elem-append k [] ys = refl
elem-append k (x ∷ xs) ys = ground (arith, elem-append k xs ys)

pub lookup-erase_all {ℓ} :
    {V : Type ℓ} (ks : List ℕ) (j : ℕ) (m : List (ℕ × V))
    → lookup j (erase_all ks m) ≡ (if elem j ks then none else lookup j m)
unfolding erase_all
lookup-erase_all [] j m = refl
lookup-erase_all (k ∷ ks) j m =
    ground (arith, lookup-erase_all ks j (erase k m), lookup-erase k j m)

-- No number twice.
abbrev pub Distinct : List ℕ → Type 0
Distinct [] = Unit {0}
Distinct (x ∷ xs) = (elem x xs ≡ false) × Distinct xs
