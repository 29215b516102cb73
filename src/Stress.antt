-- ===== src/Stress.antt =====
-- StressTest/test.cpp: the client that keeps requests in flight and counts the replies. The handlers
-- work on one connection and on the counters that all connections share. The answers of `recv` and of
-- `::send` are lists; a function that uses up its list before it returns gives `none`.
pub mod Replies
pub mod Receive
pub mod Writing
pub mod Requests
pub mod Wrap
mod Tests
use reactor_network_library.Prelude.{
  eintr, ℕ, zero, suc, ◌+◌, ◌-◌, ◌*◌, ◌%◌, ◌^◌, Bool, true, false, not, ◌||◌, Option, none, some,
  List, [], ◌∷◌, ◌++◌, ltb, leb, ◌==◌, if◌then◌else◌, length, take, drop, is_empty, add32,
  replicate,
}
use reactor_network_library.Buffer.{ReadResult, failed, got, int_of_bytes}
use reactor_network_library.Buffer.Storage.{write_at, slice}
use reactor_network_library.Echo.{frame}
use reactor_network_library.TimesTamp.{decimal}

abbrev pub pipe_depth : ℕ
pipe_depth = 500

-- A `Conn` with the shared counters, and `n` of `make_request`. `inflight` is an `int` as a bit pattern,
-- the counters are `uint64_t`.
pub record Client : Type 0 where
  pub inflight : ℕ
  pub recv_buf : List ℕ
  pub recv_off : ℕ
  pub g_inflight : ℕ
  pub send_cnt : ℕ
  pub recv_cnt : ℕ
  pub n : ℕ

-- The constructor of `Conn`, and the static variables at the start.
abbrev pub init : Client
init = record {
  inflight = 0;
  recv_buf = replicate 4096 0;
  recv_off = 0;
  g_inflight = 0;
  send_cnt = 0;
  recv_cnt = 0;
  n = 0;
}

-- A complete reply of `size` bytes.
unfoldable pub answered : Client → ℕ → Client
answered c size = record c {
  recv_off = c.recv_off - size;
  inflight = (c.inflight + (2 ^ 32 - 1)) % 2 ^ 32;
  g_inflight = (c.g_inflight + (2 ^ 64 - 1)) % 2 ^ 64;
  recv_cnt = (c.recv_cnt + 1) % 2 ^ 64;
}

-- How the inner loop of `handle_recv` ends: with `processed`, with the fuel spent, or with a read out
-- of bounds.
pub data Parsed : Type 0 where
  parsed : Client → ℕ → Parsed
  runs_on faults : Parsed

-- The inner loop. `4 + body_len` and `processed` are `uint32_t`, `recv_off` is a `size_t`.
unfoldable pub parse : ℕ → Client → ℕ → Parsed
parse zero c processed = runs_on
parse (suc fuel) c processed = elim (leb 4 c.recv_off) [
  | false ↦ parsed c processed
  | true ↦ elim (int_of_bytes (slice c.recv_buf processed 4)) [
    | none ↦ faults
    | some body_len ↦ elim (leb (add32 4 body_len) c.recv_off) [
      | true ↦ parse fuel (answered c (add32 4 body_len)) (add32 processed (add32 4 body_len))
      | false ↦ parsed c processed
    ]
  ]
]

-- `memmove`: what is left goes to the front.
unfoldable pub keep_rest : Client → ℕ → Client
keep_rest c processed = record c {
  recv_buf = write_at c.recv_buf 0 (slice c.recv_buf processed c.recv_off);
}

-- A round of the outer loop in which `recv` gave some bytes.
unfoldable pub take_in : ℕ → Client → List ℕ → Option Client
take_in fuel c bytes =
    elim (parse fuel
      (record c {
        recv_buf = write_at c.recv_buf c.recv_off bytes;
        recv_off = c.recv_off + length bytes;
      })
      0) [ parsed d processed ↦ some (keep_rest d processed) | runs_on ↦ none | faults ↦ none ]

-- The outer loop of `handle_recv`.
unfoldable pub recv_loop : ℕ → Client → List ReadResult → Option Client
recv_loop fuel c [] = none
recv_loop fuel c (failed errno ∷ rs) = some c
recv_loop fuel c (got [] ∷ rs) = some c
recv_loop fuel c (got (b ∷ bytes) ∷ rs) = elim (take_in fuel c (b ∷ bytes)) [
  | none ↦ none
  | some d ↦ recv_loop fuel d rs
]

-- An answer of `::send`: how many bytes it took, or -1 and an `errno`.
pub data Answer : Type 0 where
  took : ℕ → Answer
  refused : ℕ → Answer

-- `write_all`: its result, the bytes that the kernel took, and the answers that are left.
unfoldable pub write_all : List ℕ → List Answer → Option (Bool × List ℕ × List Answer)
write_all buf [] = if is_empty buf then some (true, [], []) else none
write_all buf (took w ∷ rs) =
    let rest = write_all (drop w buf) rs in
    if is_empty buf
    then some (true, [], took w ∷ rs)
    else if w == 0
    then some (false, [], rs)
    else (elim rest [
      | none ↦ none
      | some (done, taken, left) ↦ some (done, take w buf ++ taken, left)
    ])
write_all buf (refused errno ∷ rs) =
    let rest = write_all buf rs in
    if is_empty buf
    then some (true, [], refused errno ∷ rs)
    else if errno == eintr
    then rest
    else some (false, [], rs)

-- "这是第" and "条消息" in UTF-8.
abbrev pub text_before : List ℕ
text_before = 0xE8 ∷ 0xBF ∷ 0x99 ∷ 0xE6 ∷ 0x98 ∷ 0xAF ∷ 0xE7 ∷ 0xAC ∷ 0xAC ∷ []

abbrev pub text_after : List ℕ
text_after = 0xE6 ∷ 0x9D ∷ 0xA1 ∷ 0xE6 ∷ 0xB6 ∷ 0x88 ∷ 0xE6 ∷ 0x81 ∷ 0xAF ∷ []

unfoldable pub request_text : ℕ → List ℕ
request_text n = text_before ++ (decimal 10 n ++ text_after)

-- `make_request`: the text of request `n` with its length in front.
unfoldable pub make_request : ℕ → List ℕ
make_request n = frame (request_text n)

-- a < b on `int`, for a literal b that is not negative.
abbrev pub int_below : ℕ → ℕ → Bool
int_below w b = ltb w b || leb (2 ^ 31) w

-- A request that was sent whole.
unfoldable pub sent : Client → Client
sent c = record c {
  inflight = (c.inflight + 1) % 2 ^ 32;
  g_inflight = (c.g_inflight + 1) % 2 ^ 64;
  send_cnt = (c.send_cnt + 1) % 2 ^ 64;
  n = c.n + 1;
}

-- `try_fill_pipe`, with fuel for its rounds: the client after it, and the bytes that the kernel took.
unfoldable pub try_fill_pipe : ℕ → Client → List Answer → Option (Client × List ℕ)
try_fill_pipe zero c rs = none
try_fill_pipe (suc fuel) c rs = elim (int_below c.inflight pipe_depth) [
  | false ↦ some (c, [])
  | true ↦ elim (write_all (make_request c.n) rs) [
    | none ↦ none
    | some (false, taken, left) ↦ some (record c { n = c.n + 1 }, taken)
    | some (true, taken, left) ↦ elim (try_fill_pipe fuel (sent c) left) [
      | none ↦ none
      | some (d, more) ↦ some (d, taken ++ more)
    ]
  ]
]

-- `handle_recv`
unfoldable pub handle_recv : ℕ → Client → List ReadResult → List Answer → Option (Client × List ℕ)
handle_recv fuel c rs answers = elim (recv_loop fuel c rs) [
  | none ↦ none
  | some d ↦ try_fill_pipe fuel d answers
]
