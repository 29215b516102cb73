-- ===== src/Buffer/Inv.antt =====
-- The layout that src/include/Buffer.h draws: 8 <= readerIndex <= writerIndex <= size.
use reactor_network_library.Prelude.{
  ℕ, ◌+◌, ◌-◌, ◌^◌, ◌≤◌, ◌<◌, ◌≡◌, some, List, arith, add_size, sub_size, length, length-replicate,
}
use reactor_network_library.Buffer.Storage.{slice, length-write_at, length-resize}
use reactor_network_library.Buffer.{
  Buffer, init, readable_bytes, writable_bytes, retrieve, retrieve_all, retrieve_as_string,
  retrieve_all_as_string, make_space, ensure_writeable_bytes, append,
}

pub record IsValid (b : Buffer) : Type 0 where
  pub prepend : 8 ≤ b.reader_index
  pub ordered : b.reader_index ≤ b.writer_index
  pub within : b.writer_index ≤ length b.buffer
  pub small : length b.buffer < 2 ^ 63

-- `std::vector<char>` holds at most 2 ^ 63 - 1 elements; a request beyond it throws.
abbrev pub Fits : Buffer → ℕ → Type 0
Fits b len = b.writer_index + len < 2 ^ 63

pub readable_lem : {b : Buffer} → IsValid b → readable_bytes b ≡ b.writer_index - b.reader_index
unfolding readable_bytes
readable_lem v = omega arith

pub writable_lem : {b : Buffer} → IsValid b → writable_bytes b ≡ length b.buffer - b.writer_index
unfolding writable_bytes
writable_lem v = omega arith

-- A new buffer has the layout, and nothing to read.
pub init-IsValid : (n : ℕ) {b : Buffer} → n + 8 < 2 ^ 63 → init n ≡ some b → IsValid b
unfolding init
init-IsValid n h e = grind (arith, length-replicate {A = ℕ} (n + 8) 0)

pub retrieve_all-IsValid : {b : Buffer} → IsValid b → IsValid (retrieve_all b)
unfolding retrieve_all
retrieve_all-IsValid v = ground arith

pub retrieve-IsValid : {b : Buffer} (len : ℕ) → IsValid b → IsValid (retrieve b len)
unfolding retrieve
retrieve-IsValid len v = ground arith

pub retrieve_as_string-IsValid :
    {b : Buffer} (len : ℕ) → IsValid b → IsValid (retrieve_as_string b len).1
unfolding retrieve_as_string
retrieve_as_string-IsValid {b} len v =
    ground (arith, retrieve-IsValid len v, retrieve-IsValid (readable_bytes b) v)

pub ensure-IsValid :
    {b : Buffer} (len : ℕ) → IsValid b → Fits b len → IsValid (ensure_writeable_bytes b len)
unfolding ensure_writeable_bytes make_space
ensure-IsValid {b} len v h = ground (
  arith,
  length-resize b.buffer (add_size len b.writer_index),
  length-write_at b.buffer 8
      (slice b.buffer b.reader_index (sub_size b.writer_index b.reader_index)),
)

-- After `ensureWriteableBytes` the bytes fit behind the writer index.
pub ensure_room :
    {b : Buffer} (len : ℕ)
    → IsValid b
    → Fits b len
    → (ensure_writeable_bytes b len).writer_index + len
      ≤ length (ensure_writeable_bytes b len).buffer
unfolding ensure_writeable_bytes make_space
ensure_room {b} len v h = ground (
  arith,
  length-resize b.buffer (add_size len b.writer_index),
  length-write_at b.buffer 8
      (slice b.buffer b.reader_index (sub_size b.writer_index b.reader_index)),
)

-- How far an append can grow the vector.
pub append_growth :
    {b : Buffer} (bytes : List ℕ)
    → IsValid b
    → Fits b (length bytes)
    → length (append b bytes).buffer ≤ length b.buffer + length bytes
unfolding append ensure_writeable_bytes make_space
append_growth {b} bytes v h = ground (
  arith,
  length-resize b.buffer (add_size (length bytes) b.writer_index),
  length-write_at b.buffer 8
      (slice b.buffer b.reader_index (sub_size b.writer_index b.reader_index)),
  length-write_at (ensure_writeable_bytes b (length bytes)).buffer
      (ensure_writeable_bytes b (length bytes)).writer_index bytes,
)

pub append-IsValid :
    {b : Buffer} (bytes : List ℕ) → IsValid b → Fits b (length bytes) → IsValid (append b bytes)
unfolding append
append-IsValid {b} bytes v h = ground (
  arith,
  ensure-IsValid (length bytes) v h,
  ensure_room (length bytes) v h,
  length-write_at (ensure_writeable_bytes b (length bytes)).buffer
      (ensure_writeable_bytes b (length bytes)).writer_index bytes,
)

pub retrieve_all_as_string-IsValid : {b : Buffer} → IsValid b → IsValid (retrieve_all_as_string b).1
unfolding retrieve_all_as_string
retrieve_all_as_string-IsValid {b} v = retrieve_as_string-IsValid (readable_bytes b) v
