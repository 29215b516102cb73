-- ===== src/Buffer/Take.antt =====
-- Consuming bytes: `retrieve` and `retrieveAsString` on the queue of readable bytes.
use reactor_network_library.Prelude.{
  ℕ, ◌+◌, ◌-◌, ◌≤◌, ◌<◌, ◌≡◌, refl, sym, ap, ◌∙◌, inl, inr, some, List, [], ◌∷◌, arith, ltb, leb,
  Bool-cases, length, take, drop, take_all, drop_all, add_size, ltb→lt, leb→le, drop-drop,
  take-take, drop-take, not_ltb→le, not_leb→lt, big_endian,
}
use reactor_network_library.Buffer.{
  Buffer, readable_bytes, peek, peek_int32, int_of_bytes, retrieve, retrieve_all,
  retrieve_as_string, retrieve_all_as_string,
}
use reactor_network_library.Buffer.Inv.{IsValid, readable_lem}
use reactor_network_library.Buffer.Refine.{contents, length-contents}

pub contents-retrieve_all : (b : Buffer) → contents (retrieve_all b) ≡ []
unfolding contents retrieve_all
contents-retrieve_all b = refl

contents_advance :
    {b : Buffer} (len : ℕ)
    → IsValid b
    → len < readable_bytes b
    → contents (record b { reader_index = add_size b.reader_index len }) ≡ drop len (contents b)
unfolding contents
contents_advance {b} len v h =
    ap (take (b.writer_index - add_size b.reader_index len))
      (sym (drop-drop b.reader_index len _ b.buffer index))
    ∙ sym (
        drop-take len (b.writer_index - b.reader_index) _ (drop b.reader_index b.buffer)
          (omega (arith, readable_lem v, index)))
  where
    index : add_size b.reader_index len ≡ b.reader_index + len
    index = omega (arith, readable_lem v, v.within, v.small, v.ordered)

-- `retrieve` drops the oldest `len` bytes; all of them, if there are fewer.
pub contents-retrieve :
    {b : Buffer} (len : ℕ) → IsValid b → contents (retrieve b len) ≡ drop len (contents b)
unfolding retrieve
contents-retrieve {b} len v = elim (Bool-cases (ltb len (readable_bytes b))) [
  | inl fewer ↦ rw fewer (contents_advance len v (ltb→lt _ _ fewer))
  | inr rest ↦ rw rest (
      contents-retrieve_all b
      ∙ sym (drop_all len (contents b) (omega (arith, length-contents v, not_ltb→le _ _ rest))))
]

-- What `peek` shows within the readable bytes.
pub peek-contents :
    {b : Buffer} (len : ℕ) → IsValid b → len ≤ readable_bytes b → peek b len ≡ take len (contents b)
unfolding peek contents
peek-contents {b} len v h =
    sym (take-take len (b.writer_index - b.reader_index) _ (omega (arith, readable_lem v)))

-- `retrieveAsString` returns the bytes that it drops.
pub retrieve_as_string_lem :
    {b : Buffer} (len : ℕ)
    → IsValid b
    → ((retrieve_as_string b len).0 ≡ take len (contents b))
      × (contents (retrieve_as_string b len).1 ≡ drop len (contents b))
unfolding retrieve_as_string
retrieve_as_string_lem {b} len v = elim (Bool-cases (leb len (readable_bytes b))) [
  | inl enough ↦ rw enough (peek-contents len v (leb→le _ _ enough), contents-retrieve len v)
  | inr short ↦ rw short (
    peek-contents all v (omega arith)
        ∙ take_all all queue full
        ∙ sym (take_all len queue (omega (arith, full, not_leb→lt _ _ short))),
    contents-retrieve all v
        ∙ drop_all all queue full
        ∙ sym (drop_all len queue (omega (arith, full, not_leb→lt _ _ short))),
  )
]
  where
    all : ℕ
    all = readable_bytes b

    queue : List ℕ
    queue = contents b

    full : length queue ≤ all
    full = omega (arith, length-contents v)

-- `retrieveAllAsString` empties the buffer.
pub retrieve_all_as_string_lem :
    {b : Buffer}
    → IsValid b
    → ((retrieve_all_as_string b).0 ≡ contents b) × (contents (retrieve_all_as_string b).1 ≡ [])
unfolding retrieve_all_as_string
retrieve_all_as_string_lem {b} v = (
  (retrieve_as_string_lem (readable_bytes b) v).0 ∙ take_all _ _ full,
  (retrieve_as_string_lem (readable_bytes b) v).1 ∙ drop_all _ _ full,
)
  where
    full : length (contents b) ≤ readable_bytes b
    full = omega (arith, length-contents v)

-- With four bytes to read, `peekInt32` reads the first four of the queue.
pub peek_int32_lem :
    {b : Buffer} (w x y z : ℕ) (rest : List ℕ)
    → IsValid b
    → contents b ≡ w ∷ x ∷ y ∷ z ∷ rest
    → peek_int32 b ≡ some (big_endian w x y z)
unfolding peek_int32
peek_int32_lem {b} w x y z rest v e =
    ap int_of_bytes
      (peek-contents 4 v (omega (arith, length-contents v, ap length e)) ∙ ap (take 4) e)
