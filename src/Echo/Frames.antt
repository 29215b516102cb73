-- ===== src/Echo/Frames.antt =====
-- What the loop makes of well-formed input.
use reactor_network_library.Prelude.{
  ℕ, ◌+◌, ◌/◌, ◌%◌, ◌^◌, ◌≤◌, ◌<◌, ◌≡◌, List, [], ◌∷◌, ◌++◌, arith, length, big_endian,
}
use reactor_network_library.Buffer.{Buffer}
use reactor_network_library.Echo.{bomb_size, htonl_bytes, frame}

-- Four bytes in network order are the number again.
pub big_endian-htonl :
    (n : ℕ)
    → n < 2 ^ 32
    → big_endian (n / 2 ^ 24 % 256) (n / 2 ^ 16 % 256) (n / 2 ^ 8 % 256) (n % 256) ≡ n
big_endian-htonl n h = omega arith

pub length-frame : (msg : List ℕ) → length (frame msg) ≡ 4 + length msg
unfolding frame
length-frame msg = omega arith

-- The bytes of some messages, one after the other.
unfoldable pub stream : List (List ℕ) → List ℕ
stream [] = []
stream (msg ∷ msgs) = frame msg ++ stream msgs

-- Messages that the loop can tell apart: with a byte at least, and below 64 MB.
pub data AreSendable : List (List ℕ) → Type 0 where
  done : AreSendable []
  also :
      {msg : List ℕ} {msgs : List (List ℕ)}
      → 0 < length msg
      → length msg < bomb_size
      → AreSendable msgs
      → AreSendable (msg ∷ msgs)

-- The start of a message that is not complete: four bytes at most, or a length and fewer bytes.
pub data IsCut : List ℕ → Type 0 where
  few : {rest : List ℕ} → length rest ≤ 4 → IsCut rest
  part :
      {rest : List ℕ} (n : ℕ) (body : List ℕ)
      → n < bomb_size
      → length body < n
      → rest ≡ htonl_bytes n ++ body
      → IsCut rest
