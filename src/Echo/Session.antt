-- ===== src/Echo/Session.antt =====
-- The handler of example/EchoServer.cpp under `onmessage` of src/Connection.cpp: what reaches it of
-- the bytes that a peer sends, however they arrive.
use reactor_network_library.Prelude.{ℕ, ◌≡◌, Option, none, some, List, [], ◌∷◌, ◌++◌}
use reactor_network_library.Buffer.{ReadResult}
use reactor_network_library.Connection.{Connection, closed, handled, onmessage}
use reactor_network_library.Connection.Receive.{drained, received, Fed}
use reactor_network_library.Echo.{Act, Outcome, stops, runs_on, faults, handle_on_message}

-- One read event: `onmessage`, with `HandleOnMessage` as the handler, which works on the input buffer.
-- There is no result where the kernel has not answered, or the handler does not come back.
unfoldable pub serve_one : ℕ → ℕ → Connection → List ReadResult → Option (Connection × List Act)
serve_one fuel now c rs =
    elim (onmessage {A = Connection × Outcome} (λ d. (d, handle_on_message fuel d.inputbuf)) now c
      rs) [
        | none ↦ none
        | some (closed d, calls) ↦ some (d, [])
        | some (handled (d, stops b acts), calls) ↦ some (record d { inputbuf = b }, acts)
        | some (handled (d, runs_on), calls) ↦ none
        | some (handled (d, faults), calls) ↦ none
      ]

-- Read events one after the other, each with its time and the answers of `readv`.
unfoldable pub serve : ℕ → Connection → List (ℕ × List ReadResult) → Option (Connection × List Act)
serve fuel c [] = some (c, [])
serve fuel c ((now, rs) ∷ events) = elim (serve_one fuel now c rs) [
  | none ↦ none
  | some (d, acts) ↦ elim (serve fuel d events) [
    | none ↦ none
    | some (e, more) ↦ some (e, acts ++ more)
  ]
]

-- In each event the socket is read until it is empty. All the bytes, in order.
pub data Arrive : List (ℕ × List ReadResult) → List ℕ → Type 0 where
  silence : Arrive [] []
  then :
      {now : ℕ} {rs : List ReadResult} {events : List (ℕ × List ReadResult)} {xs ys : List ℕ}
      → received rs ≡ some (xs, drained)
      → Arrive events ys
      → Arrive ((now, rs) ∷ events) (xs ++ ys)

-- In each event the kernel keeps within the areas that it is given, and memory suffices.
abbrev pub FedAll : ℕ → Connection → List (ℕ × List ReadResult) → Type 0
FedAll fuel c [] = Unit {0}
FedAll fuel c ((now, rs) ∷ events) =
    Fed c.inputbuf rs
    × (elim (serve_one fuel now c rs) [ none ↦ Unit {0} | some (d, acts) ↦ FedAll fuel d events ])
