-- ===== src/Buffer.antt =====
-- src/Buffer.cpp and src/include/Buffer.h: the byte buffer of a connection. `data` of `append` is
-- never a part of the buffer itself. `size_t` wraps at 2 ^ 64.
pub mod Storage
pub mod Inv
pub mod Refine
pub mod Take
pub mod Read
pub mod Calls
mod Tests
use reactor_network_library.Prelude.{
  ℕ, ◌+◌, ◌-◌, ◌≡◌, Bool, Option, none, some, List, [], ◌∷◌, arith, ltb, leb, if◌then◌else◌, length,
  take, drop, replicate, add_size, sub_size, big_endian,
}
use Storage.{write_at, resize, slice}

-- `kCheapPrepend`
abbrev pub cheap_prepend : ℕ
cheap_prepend = 8

-- `sizeof(extrabuf)`
abbrev pub extra_size : ℕ
extra_size = 65536

pub record Buffer : Type 0 where
  pub buffer : List ℕ
  pub reader_index : ℕ
  pub writer_index : ℕ

-- The constructor. `assert(initialSize > 0)` fails as `none`.
pub init : ℕ → Option Buffer
init initial_size =
    if ltb 0 initial_size
    then some (record {
      buffer = replicate (add_size initial_size cheap_prepend) 0;
      reader_index = cheap_prepend;
      writer_index = cheap_prepend;
    })
    else none

unfoldable pub readable_bytes : Buffer → ℕ
readable_bytes b = sub_size b.writer_index b.reader_index

pub writable_bytes : Buffer → ℕ
writable_bytes b = sub_size (length b.buffer) b.writer_index

pub prependable_bytes : Buffer → ℕ
prependable_bytes b = b.reader_index

-- The bytes of `[peek(), peek() + len)`.
unfoldable pub peek : Buffer → ℕ → List ℕ
peek b len = slice b.buffer b.reader_index len

-- Four bytes as an `int32_t`, a bit pattern below 2 ^ 32; fewer bytes in the vector are a read out
-- of bounds.
abbrev pub int_of_bytes : List ℕ → Option ℕ
int_of_bytes (a ∷ b ∷ c ∷ d ∷ _) = some (big_endian a b c d)
int_of_bytes _ = none

unfoldable pub peek_int32 : Buffer → Option ℕ
unfolding peek
peek_int32 b = int_of_bytes (peek b 4)

pub retrieve_all : Buffer → Buffer
retrieve_all b = record b { reader_index = cheap_prepend; writer_index = cheap_prepend }

unfoldable pub retrieve : Buffer → ℕ → Buffer
unfolding readable_bytes retrieve_all
retrieve b len =
    if ltb len (readable_bytes b)
    then record b { reader_index = add_size b.reader_index len }
    else retrieve_all b

unfoldable pub retrieve_as_string : Buffer → ℕ → List ℕ × Buffer
unfolding readable_bytes peek
retrieve_as_string b len =
    if leb len (readable_bytes b)
    then (peek b len, retrieve b len)
    else (peek b (readable_bytes b), retrieve b (readable_bytes b))

pub retrieve_all_as_string : Buffer → List ℕ × Buffer
retrieve_all_as_string b = retrieve_as_string b (readable_bytes b)

-- Grows the vector, or moves the readable bytes to the front of it.
unfoldable pub make_space : Buffer → ℕ → Buffer
unfolding readable_bytes writable_bytes prependable_bytes
make_space b len =
    if ltb (add_size (writable_bytes b) (prependable_bytes b)) (add_size len cheap_prepend)
    then record b { buffer = resize b.buffer (add_size len b.writer_index) }
    else record {
      buffer =
          write_at b.buffer cheap_prepend
            (slice b.buffer b.reader_index (sub_size b.writer_index b.reader_index));
      reader_index = cheap_prepend;
      writer_index = add_size cheap_prepend (readable_bytes b);
    }

unfoldable pub ensure_writeable_bytes : Buffer → ℕ → Buffer
unfolding writable_bytes
ensure_writeable_bytes b len = if ltb (writable_bytes b) len then make_space b len else b

unfoldable pub append : Buffer → List ℕ → Buffer
append b bytes =
    let room = ensure_writeable_bytes b (length bytes) in
    record room {
      buffer = write_at room.buffer room.writer_index bytes;
      writer_index = add_size room.writer_index (length bytes);
    }

-- What `readv` returns: -1 with an `errno`, or the bytes that it stored, in order.
pub data ReadResult : Type 0 where
  failed : ℕ → ReadResult
  got : List ℕ → ReadResult

-- The lengths of the `iovec`s that `readFd` hands to `readv`.
unfoldable pub read_areas : Buffer → List ℕ
unfolding writable_bytes
read_areas b =
    if ltb (writable_bytes b) extra_size
    then writable_bytes b ∷ extra_size ∷ []
    else writable_bytes b ∷ []

-- `readv` fills the first area, then the second.
unfoldable pub read_got : Buffer → List ℕ → Buffer
unfolding writable_bytes
read_got b bytes =
    let stored = write_at b.buffer b.writer_index (take (writable_bytes b) bytes) in
    if ltb (length bytes) (writable_bytes b)
    then record b { buffer = stored; writer_index = add_size b.writer_index (length bytes) }
    else append (record b { buffer = stored; writer_index = length b.buffer })
        (take (length bytes - writable_bytes b) (drop (writable_bytes b) bytes))

-- `readFd`, over the system call. The result is that of `readv`, also in `*savedError`.
unfoldable pub read_fd : (List ℕ → ReadResult) → Buffer → ReadResult × Buffer
unfolding read_got
read_fd readv b = elim (readv (read_areas b)) [
  | failed errno ↦ (failed errno, b)
  | got bytes ↦ (got bytes, read_got b bytes)
]
