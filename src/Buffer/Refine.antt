-- ===== src/Buffer/Refine.antt =====
-- A Buffer and the queue of its readable bytes.
use reactor_network_library.Prelude.{
  ℕ, ◌+◌, ◌-◌, ◌≤◌, ◌≡◌, ap, ◌∙◌, List, ◌++◌, arith, length, length-take, drop, length-drop,
  add_size,
}
use reactor_network_library.Buffer.Storage.{slice, write_at, resize, slice-write_at, slice-resize}
use reactor_network_library.Buffer.{
  Buffer, readable_bytes, writable_bytes, prependable_bytes, make_space, ensure_writeable_bytes,
  append,
}
use reactor_network_library.Buffer.Inv.{IsValid, Fits, ensure-IsValid, ensure_room}

-- The bytes between the two indices, oldest first.
unfoldable pub contents : Buffer → List ℕ
contents b = slice b.buffer b.reader_index (b.writer_index - b.reader_index)

pub length-contents : {b : Buffer} → IsValid b → length (contents b) ≡ readable_bytes b
unfolding contents readable_bytes
length-contents {b} v = omega (
  arith,
  length-take (b.writer_index - b.reader_index) (drop b.reader_index b.buffer),
  length-drop b.reader_index b.buffer,
)

contents-grow :
    (b : Buffer) (n : ℕ)
    → IsValid b
    → length b.buffer ≤ n
    → contents (record b { buffer = resize b.buffer n }) ≡ contents b
unfolding contents
contents-grow b n v h =
    slice-resize b.buffer n b.reader_index (b.writer_index - b.reader_index)
      (omega (arith, v.ordered, v.within)) h

-- `k` is the number of readable bytes, `m` the new writer index.
contents-move :
    (b : Buffer) (k m : ℕ)
    → IsValid b
    → k ≡ b.writer_index - b.reader_index
    → m ≡ 8 + k
    → contents (record {
      buffer = write_at b.buffer 8 (slice b.buffer b.reader_index k);
      reader_index = 8;
      writer_index = m;
    })
      ≡ contents b
unfolding contents
contents-move b k m v e f =
    slice-write_at b.buffer 8 8 (slice b.buffer b.reader_index k) 0 (m - 8) (omega arith)
      (omega (arith, size)) (omega (arith, size, v.ordered, v.within, v.prepend))
    ∙ ap (slice b.buffer b.reader_index) e
  where
    size : length (slice b.buffer b.reader_index k) ≡ k
    size = omega (
      arith,
      length-take k (drop b.reader_index b.buffer),
      length-drop b.reader_index b.buffer,
      v.within,
      v.ordered,
    )

-- Making room moves or grows the storage, and leaves the readable bytes as they are.
pub contents-ensure :
    {b : Buffer} (len : ℕ)
    → IsValid b
    → Fits b len
    → contents (ensure_writeable_bytes b len) ≡ contents b
unfolding ensure_writeable_bytes make_space readable_bytes writable_bytes prependable_bytes
contents-ensure {b} len v h = ground (
  arith,
  contents-grow b (add_size len b.writer_index) v,
  contents-move b (readable_bytes b) (add_size 8 (readable_bytes b)) v,
)

pub contents-append :
    {b : Buffer} (bytes : List ℕ)
    → IsValid b
    → Fits b (length bytes)
    → contents (append b bytes) ≡ contents b ++ bytes
unfolding append contents
contents-append {b} bytes v h =
    slice-write_at room.buffer room.reader_index room.writer_index bytes
      (room.writer_index - room.reader_index)
      (add_size room.writer_index (length bytes) - room.reader_index) (omega (arith, valid))
      (omega (arith, valid, fits)) fits
    ∙ ap (λ xs. xs ++ bytes) (contents-ensure (length bytes) v h)
  where
    room : Buffer
    room = ensure_writeable_bytes b (length bytes)

    valid : IsValid room
    valid = ensure-IsValid (length bytes) v h

    fits : room.writer_index + length bytes ≤ length room.buffer
    fits = ensure_room (length bytes) v h
