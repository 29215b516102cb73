-- ===== src/Buffer/Calls.antt =====
-- The public operations of Buffer as calls, against a queue of bytes.
use reactor_network_library.Prelude.{ℕ, ◌+◌, ◌^◌, ◌<◌, List, [], ◌∷◌, ◌++◌, length, take, drop}
use reactor_network_library.Buffer.{
  Buffer, retrieve, retrieve_as_string, retrieve_all_as_string, append, ReadResult, read_fd,
  extra_size,
}
use reactor_network_library.Buffer.Inv.{Fits}
use reactor_network_library.Buffer.Read.{bytes_of, Stored}

pub data Call : Type 0 where
  appends : List ℕ → Call
  retrieves takes : ℕ → Call
  drains : Call
  reads : ReadResult → Call

-- A call's reply is the string that it returns; `reads r` is `readFd` when `readv` returns `r`.
unfoldable pub call : Buffer → Call → List ℕ × Buffer
call b (appends bytes) = ([], append b bytes)
call b (retrieves len) = ([], retrieve b len)
call b (takes len) = retrieve_as_string b len
call b drains = retrieve_all_as_string b
call b (reads r) = ([], (read_fd (λ areas. r) b).1)

unfoldable pub run : Buffer → List Call → List (List ℕ) × Buffer
run b [] = ([], b)
run b (c ∷ cs) =
    let (reply, b') = call b c in let (replies, last) = run b' cs in (reply ∷ replies, last)

-- The specification: a first-in first-out queue of bytes.
pub queue_call : List ℕ → Call → List ℕ × List ℕ
queue_call q (appends bytes) = ([], q ++ bytes)
queue_call q (retrieves len) = ([], drop len q)
queue_call q (takes len) = (take len q, drop len q)
queue_call q drains = (q, [])
queue_call q (reads r) = ([], q ++ bytes_of r)

pub queue_run : List ℕ → List Call → List (List ℕ) × List ℕ
queue_run q [] = ([], q)
queue_run q (c ∷ cs) =
    let (reply, q') = queue_call q c in
    let (replies, last) = queue_run q' cs in (reply ∷ replies, last)

-- What a call asks of memory and of the kernel.
abbrev pub Allowed : Buffer → Call → Type 0
Allowed b (appends bytes) = Fits b (length bytes)
Allowed b (reads r) = Stored r b × (length b.buffer + extra_size < 2 ^ 63)
Allowed b _ = Unit {0}

abbrev pub AllAllowed : Buffer → List Call → Type 0
AllAllowed b [] = Unit {0}
AllAllowed b (c ∷ cs) = Allowed b c × AllAllowed (call b c).1 cs
