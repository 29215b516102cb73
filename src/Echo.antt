-- ===== src/Echo.antt =====
-- example/EchoServer.cpp: cutting the input buffer into messages, and framing the replies. A message
-- is a length in four bytes, in network order, and as many bytes.
pub mod Frames
pub mod Chunks
pub mod Session
pub mod Hostile
mod Tests
use reactor_network_library.Prelude.{
  ℕ, zero, suc, ◌+◌, ◌*◌, ◌/◌, ◌%◌, ◌^◌, ◌≡◌, Bool, true, false, Option, none, some, List, [], ◌∷◌,
  ◌++◌, arith, ltb, leb, ◌==◌, if◌then◌else◌, length, add32, int_to_size, int_ge,
}
use reactor_network_library.Buffer.{
  Buffer, readable_bytes, peek_int32, retrieve, retrieve_as_string,
}

-- What `HandleOnMessage` does with the connection: a message for `OnMessage`, by a worker or at once,
-- or `closeconnection`.
pub data Act : Type 0 where
  message : List ℕ → Act
  closes : Act

-- `64 * 1024 * 1024`
abbrev pub bomb_size : ℕ
bomb_size = 64 * 1024 * 1024

-- How a run of the loop ends: it stops, the fuel is spent, or a read is out of bounds.
pub data Outcome : Type 0 where
  stops : Buffer → List Act → Outcome
  runs_on : Outcome
  faults : Outcome

abbrev pub add_act : Act → Outcome → Outcome
add_act a (stops b acts) = stops b (a ∷ acts)
add_act a runs_on = runs_on
add_act a faults = faults

-- The `while` loop of `HandleOnMessage`, with fuel for its rounds. `msgLen` is an `int32_t`, and
-- `4 + msgLen` wraps as an `int` before it is compared as a `size_t`.
unfoldable pub handle_on_message : ℕ → Buffer → Outcome
handle_on_message zero b = runs_on
handle_on_message (suc fuel) b = elim (ltb 4 (readable_bytes b)) [
  | false ↦ stops b []
  | true ↦ elim (peek_int32 b) [
    | none ↦ faults
    | some msg_len ↦ elim (leb (int_to_size (add32 4 msg_len)) (readable_bytes b)) [
      | true ↦
          let (msg, rest) = retrieve_as_string (retrieve b 4) (int_to_size msg_len) in
          add_act (message msg) (handle_on_message fuel rest)
      | false ↦ elim (int_ge msg_len bomb_size) [
        | true ↦ add_act closes (handle_on_message fuel b)
        | false ↦ stops b []
      ]
    ]
  ]
]

-- `htonl` of a `uint32_t`, as the bytes in memory.
unfoldable pub htonl_bytes : ℕ → List ℕ
htonl_bytes n = n / 2 ^ 24 % 256 ∷ n / 2 ^ 16 % 256 ∷ n / 2 ^ 8 % 256 ∷ n % 256 ∷ []

-- A message with its length in front.
unfoldable pub frame : List ℕ → List ℕ
unfolding htonl_bytes
frame msg = htonl_bytes (length msg) ++ msg

-- `"reply: "`
abbrev pub reply_prefix : List ℕ
reply_prefix = 114 ∷ 101 ∷ 112 ∷ 108 ∷ 121 ∷ 58 ∷ 32 ∷ []

-- `OnMessage`: the string that it hands to `send`.
unfoldable pub on_message : List ℕ → List ℕ
unfolding frame
on_message msg = frame (reply_prefix ++ msg)
