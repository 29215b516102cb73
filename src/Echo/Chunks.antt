-- ===== src/Echo/Chunks.antt =====
-- A stream of messages that is cut anywhere.
use reactor_network_library.Prelude.{
  ℕ, ◌+◌, ◌/◌, ◌%◌, ◌^◌, ◌<◌, ◌≡◌, refl, sym, ap, ◌∙◌, inl, inr, List, [], ◌∷◌, ◌++◌, arith, leb,
  length, drop, length-append, append_assoc, Bool-cases, leb→le, not_leb→lt, append-starts,
  append-rest, length-drop,
}
use reactor_network_library.Echo.Frames
use reactor_network_library.Echo.{bomb_size, frame, htonl_bytes}
use reactor_network_library.Echo.Frames.{
  stream, AreSendable, done, also, IsCut, length-frame, big_endian-htonl,
}

-- The start of a message that is not complete: some bytes of the length, or the length and fewer bytes
-- than it says.
pub data IsStart : List ℕ → Type 0 where
  few : {rest : List ℕ} → length rest < 4 → IsStart rest
  part :
      {rest : List ℕ} (n : ℕ) (body : List ℕ)
      → n < bomb_size
      → length body < n
      → rest ≡ htonl_bytes n ++ body
      → IsStart rest

-- The loop of the EchoServer leaves it.
pub start-IsCut : {rest : List ℕ} → IsStart rest → IsCut rest
start-IsCut (few short) = Frames.few (omega arith)
start-IsCut (part n body small short shape) = Frames.part n body small short shape

-- A start of a length and some of its bytes is not complete either.
front-IsStart :
    (xs ys : List ℕ) (n : ℕ) (body : List ℕ)
    → n < bomb_size
    → xs ++ ys ≡ htonl_bytes n ++ body
    → length xs < 4 + n
    → IsStart xs
unfolding htonl_bytes
front-IsStart xs ys n body small e short = elim (Bool-cases (leb 4 (length xs))) [
  | inl long ↦
      part n (drop 4 xs) small (omega (arith, leb→le _ _ long, length-drop 4 xs))
        (append-starts (htonl_bytes n) xs body ys e (leb→le _ _ long))
  | inr brief ↦ few (omega (arith, not_leb→lt _ _ brief))
]

prefix-IsStart : (xs ys : List ℕ) {zs : List ℕ} → xs ++ ys ≡ zs → IsStart zs → IsStart xs
unfolding htonl_bytes
prefix-IsStart xs ys e (few short) = few (omega (arith, ap length e, length-append xs ys))
prefix-IsStart xs ys e (part n body small short shape) =
    front-IsStart xs ys n body small (e ∙ shape) (
      omega (arith, ap length (e ∙ shape), length-append xs ys, length-append (htonl_bytes n) body))

-- Wherever a stream is cut: some messages are complete, the first part ends in the start of the next
-- one, and this with the second part is a stream again.
pub split_stream :
    (xs ys : List ℕ) {msgs : List (List ℕ)} {rest : List ℕ}
    → AreSendable msgs
    → IsStart rest
    → xs ++ ys ≡ stream msgs ++ rest
    → (now later : List (List ℕ)) × (left : List ℕ) × (msgs ≡ now ++ later)
      × AreSendable now
      × AreSendable later
      × (xs ≡ stream now ++ left)
      × IsStart left
      × (left ++ ys ≡ stream later ++ rest)
unfolding stream
split_stream xs ys done cut e = ([], [], xs, refl, done, done, refl, prefix-IsStart xs ys e cut, e)
split_stream xs ys {rest = rest} (also {msg} {msgs} pos small good) cut e =
    let whole : xs ++ ys ≡ frame msg ++ (stream msgs ++ rest) =
      e ∙ append_assoc (frame msg) (stream msgs) rest in
    elim (Bool-cases (leb (length (frame msg)) (length xs))) [
      | inl enough ↦
          let n = leb→le _ _ enough in
          let (now, later, left, parts, g₁, g₂, shape, c, next) =
            split_stream (drop (length (frame msg)) xs) ys good cut
              (append-rest (frame msg) xs (stream msgs ++ rest) ys whole n) in
          (
            msg ∷ now,
            later,
            left,
            ap (λ ms. msg ∷ ms) parts,
            also pos small g₁,
            g₂,
            append-starts (frame msg) xs (stream msgs ++ rest) ys whole n
                ∙ ap (λ u. frame msg ++ u) shape
                ∙ sym (append_assoc (frame msg) (stream now) left),
            c,
            next,
          )
      | inr brief ↦ (
        [],
        msg ∷ msgs,
        xs,
        refl,
        done,
        also pos small good,
        refl,
        front-IsStart xs ys (length msg) (msg ++ (stream msgs ++ rest)) small
            (unfold frame in whole) (omega (arith, not_leb→lt _ _ brief, length-frame msg)),
        e,
      )
    ]

-- The length in front is determined by its bytes.
htonl-starts :
    (n k : ℕ) (xs ys : List ℕ)
    → n < 2 ^ 32
    → k < 2 ^ 32
    → htonl_bytes n ++ xs ≡ htonl_bytes k ++ ys
    → (n ≡ k) × (xs ≡ ys)
unfolding htonl_bytes
htonl-starts n k xs ys hn hk e =
    let a : n / 2 ^ 24 % 256 ≡ k / 2 ^ 24 % 256 = cc in
    let b : n / 2 ^ 16 % 256 ≡ k / 2 ^ 16 % 256 = cc in
    let c : n / 2 ^ 8 % 256 ≡ k / 2 ^ 8 % 256 = cc in
    let d : n % 256 ≡ k % 256 = cc in
    (sym (big_endian-htonl n hn) ∙ omega (arith, a, b, c, d) ∙ big_endian-htonl k hk, cc)

-- The start of a message holds no complete one.
pub start-ne-frame :
    (msg more : List ℕ) {rest : List ℕ}
    → IsStart rest
    → 0 < length msg
    → length msg < bomb_size
    → rest ≡ frame msg ++ more
    → ⊥
unfolding frame
start-ne-frame msg more (few short) pos small e =
    omega (arith, ap length e, length-append (frame msg) more, length-frame msg)
start-ne-frame msg more (part n body less short shape) pos small e =
    let (same, tail) =
      htonl-starts n (length msg) body (msg ++ more) (omega arith) (omega arith)
        (sym shape ∙ e ∙ append_assoc (htonl_bytes (length msg)) msg more) in
    omega (arith, ap length tail, length-append msg more)
