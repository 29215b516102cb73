-- ===== src/Connection.antt =====
-- src/Connection.cpp and src/include/Connection.h: reading, writing and closing one connection. The
-- kernel's answers are lists: of `readv` for `onmessage`, of `::send` for `sendto`. A function that
-- uses up its list before it returns gives `none`: the kernel has not answered yet.
pub mod Receive
pub mod Transmit
pub mod Outgoing
mod Tests
use reactor_network_library.Prelude.{
  eintr, eagain, ℕ, ◌+◌, ◌≡◌, Bool, true, false, ◌||◌, Option, none, some, List, [], ◌∷◌, ◌++◌,
  arith, ltb, leb, ◌==◌, if◌then◌else◌, length, is_empty,
}
use reactor_network_library.Buffer.{
  Buffer, readable_bytes, peek, retrieve, append, ReadResult, failed, got, read_fd,
}

-- The state of a Connection that its own methods change. `writing` is whether the Channel watches
-- for room to write, `closing` is whether `delayDelete` was called.
pub record Connection : Type 0 where
  pub inputbuf : Buffer
  pub outputbuf : Buffer
  pub disconnect : Bool
  pub writing : Bool
  pub closing : Bool
  pub lasttime : ℕ
  pub istimeout : Bool

-- The calls into other parts that `onmessage` and `sendto` make.
pub data Effect : Type 0 where
  updates_connection handles_message send_complete : Effect

unfoldable pub closeconnection : Connection → Connection
closeconnection c = record c { disconnect = true; closing = true }

-- How the `while` loop of `onmessage` ends: at the end of the data, or by a `return`.
pub data Ended : Type 0 where
  broke returned : Ended

unfoldable pub receive_loop : Connection → List ReadResult → Option (Ended × Connection)
unfolding closeconnection
receive_loop c [] = none
receive_loop c (failed errno ∷ rs) =
    let again =
      receive_loop (record c { inputbuf = (read_fd (λ _. failed errno) c.inputbuf).1 }) rs in
    if errno == eagain
    then some (broke, c)
    else if errno == eintr
    then again
    else some (returned, closeconnection c)
receive_loop c (got [] ∷ rs) =
    let c' = record c { inputbuf = (read_fd (λ _. got []) c.inputbuf).1 } in
    if readable_bytes c'.inputbuf == 0
    then some (returned, closeconnection c')
    else some (broke, c')
receive_loop c (got (b ∷ bytes) ∷ rs) =
    receive_loop (record c { inputbuf = (read_fd (λ _. got (b ∷ bytes)) c.inputbuf).1 }) rs

-- What `onmessage` leaves: a closed connection, or what the user's handler makes of an open one.
pub data Left (A : Type 0) : Type 0 where
  closed : Connection → Left A
  handled : A → Left A

-- `onmessage`, at time `now`. Where the loop breaks, the user's handler is called, which may consume
-- bytes of the buffer.
unfoldable pub onmessage :
    {A : Type 0}
    → (Connection → A)
    → ℕ
    → Connection
    → List ReadResult
    → Option (Left A × List Effect)
onmessage handler now c rs = elim (receive_loop (record c { lasttime = now }) rs) [
  | none ↦ none
  | some (broke, d) ↦ some (handled (handler d), updates_connection ∷ handles_message ∷ [])
  | some (returned, d) ↦ some (closed d, updates_connection ∷ [])
]

-- What `::send` answers: how many bytes it took, and `errno`. A result that is 0 or -1 counts as 0
-- bytes: the code treats both alike.
abbrev pub SendResult : Type 0
SendResult = ℕ × ℕ

-- The `while` loop of `sendto`: the connection after it, and the bytes that the kernel took.
unfoldable pub transmit_loop : Connection → List SendResult → Option (Connection × List ℕ)
unfolding closeconnection
transmit_loop c [] = if readable_bytes c.outputbuf == 0 then some (c, []) else none
transmit_loop c ((len, errno) ∷ rs) =
    let rest = transmit_loop (record c { outputbuf = retrieve c.outputbuf len }) rs in
    if readable_bytes c.outputbuf == 0
    then some (c, [])
    else if ltb 0 len
    then (elim rest [ none ↦ none | some (d, taken) ↦ some (d, peek c.outputbuf len ++ taken) ])
    else if errno == eagain
    then some (c, [])
    else some (closeconnection c, [])

-- What follows the loop in `sendto`: `disablewriting` and the callback once all is sent.
unfoldable pub finish_sending : Connection → Connection × List Effect
finish_sending c =
    if readable_bytes c.outputbuf == 0
    then (record c { writing = false }, send_complete ∷ [])
    else (c, [])

-- `sendto`: the connection after it, the bytes that the kernel took, the calls.
unfoldable pub sendto : Connection → List SendResult → Option (Connection × List ℕ × List Effect)
unfolding finish_sending
sendto c rs = if c.disconnect then some (c, [], []) else (elim (transmit_loop c rs) [
  | none ↦ none
  | some (d, taken) ↦ let (e, calls) = finish_sending d in some (e, taken, calls)
])

-- `writeTo`: the bytes go into the buffer, and the Channel watches for room to write.
unfoldable pub write_to : Connection → List ℕ → Connection
write_to c msg = record c { outputbuf = append c.outputbuf msg; writing = true }

-- `send`: on the thread of the loop the message is written at once, on another it becomes a task of
-- the loop.
unfoldable pub send : Bool → Connection → List ℕ → Connection × List (List ℕ)
unfolding write_to
send is_event_loop_thread c msg =
    if c.disconnect
    then (c, [])
    else if is_event_loop_thread
    then (write_to c msg, [])
    else (c, msg ∷ [])

-- `isTimeOut` at time `now`. The difference of two times is signed.
unfoldable pub is_timeout : ℕ → ℕ → Connection → Bool × Connection
is_timeout now interval c =
    let late = leb (c.lasttime + interval) now in (late, record c { istimeout = late })
