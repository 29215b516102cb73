-- ===== src/Connection/Outgoing/Merge.antt =====
-- Messages from two sides in one order, and their bytes.
use reactor_network_library.Prelude.{
  ℕ, ◌≡◌, sym, ap, ◌∙◌, List, [], ◌∷◌, ◌++◌, append_assoc, append-nil,
}

-- Two lists put together, each in its own order.
pub data Merge : List (List ℕ) → List (List ℕ) → List (List ℕ) → Type 0 where
  none_left : Merge [] [] []
  of_left : {xs ys zs : List (List ℕ)} (x : List ℕ) → Merge xs ys zs → Merge (x ∷ xs) ys (x ∷ zs)
  of_right : {xs ys zs : List (List ℕ)} (y : List ℕ) → Merge xs ys zs → Merge xs (y ∷ ys) (y ∷ zs)

pub last_left :
    {xs ys zs : List (List ℕ)} (x : List ℕ)
    → Merge xs ys zs
    → Merge (xs ++ (x ∷ [])) ys (zs ++ (x ∷ []))
last_left x none_left = of_left x none_left
last_left x (of_left a m) = of_left a (last_left x m)
last_left x (of_right b m) = of_right b (last_left x m)

pub last_right :
    {xs ys zs : List (List ℕ)} (y : List ℕ)
    → Merge xs ys zs
    → Merge xs (ys ++ (y ∷ [])) (zs ++ (y ∷ []))
last_right y none_left = of_right y none_left
last_right y (of_left a m) = of_left a (last_right y m)
last_right y (of_right b m) = of_right b (last_right y m)

-- The bytes of some messages, one after the other.
unfoldable pub bytes_of : List (List ℕ) → List ℕ
bytes_of [] = []
bytes_of (msg ∷ msgs) = msg ++ bytes_of msgs

pub bytes_of-append :
    (xs : List (List ℕ)) (msg : List ℕ) → bytes_of (xs ++ (msg ∷ [])) ≡ bytes_of xs ++ msg
unfolding bytes_of
bytes_of-append [] msg = append-nil msg
bytes_of-append (x ∷ xs) msg =
    ap (λ u. x ++ u) (bytes_of-append xs msg) ∙ sym (append_assoc x (bytes_of xs) msg)
