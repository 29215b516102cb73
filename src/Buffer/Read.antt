-- ===== src/Buffer/Read.antt =====
-- `readFd`: scattered reading into the buffer and a 64 KB area on the stack.
use reactor_network_library.Prelude.{
  ℕ, ◌+◌, ◌-◌, ◌^◌, ◌≤◌, ◌<◌, ◌≡◌, refl, sym, ap, ◌∙◌, inl, inr, List, [], ◌∷◌, ◌++◌, arith, ltb,
  Bool-cases, length, length-take, take, drop, length-drop, take_all, add_size, ltb→lt, not_ltb→le,
  append_assoc, append-nil, take-append-drop,
}
use reactor_network_library.Buffer.Storage.{write_at, slice-write_at, length-write_at}
use reactor_network_library.Buffer.{
  Buffer, writable_bytes, ReadResult, failed, got, read_areas, read_got, read_fd, extra_size,
}
use reactor_network_library.Buffer.Inv.{IsValid, Fits, writable_lem, append-IsValid, append_growth}
use reactor_network_library.Buffer.Refine.{contents, contents-append}

abbrev pub bytes_of : ReadResult → List ℕ
bytes_of (failed errno) = []
bytes_of (got bytes) = bytes

abbrev sum : List ℕ → ℕ
sum [] = 0
sum (x ∷ xs) = x + sum xs

-- The contract of `readv`: it stores no more than the areas hold.
abbrev pub Stored : ReadResult → Buffer → Type 0
Stored r b = length (bytes_of r) ≤ sum (read_areas b)

past_vector-le :
    {b : Buffer} (bytes : List ℕ)
    → IsValid b
    → Stored (got bytes) b
    → length (drop (writable_bytes b) bytes) ≤ extra_size
unfolding read_areas
past_vector-le {b} bytes v h = ground (arith, length-drop (writable_bytes b) bytes)

module _ {b : Buffer} (bytes : List ℕ) (v : IsValid b) (h : Stored (got bytes) b)
    (small : length b.buffer + extra_size < 2 ^ 63) where
  abbrev filled : Buffer
  filled = record b {
    buffer = write_at b.buffer b.writer_index (take (writable_bytes b) bytes);
    writer_index = length b.buffer;
  }

  abbrev overflow : List ℕ
  overflow = take (length bytes - writable_bytes b) (drop (writable_bytes b) bytes)

  overflow_lem : overflow ≡ drop (writable_bytes b) bytes
  overflow_lem = take_all _ _ (omega (arith, length-drop (writable_bytes b) bytes))

  filled-IsValid : IsValid filled
  filled-IsValid =
      omega (arith, length-write_at b.buffer b.writer_index (take (writable_bytes b) bytes), v)

  filled-Fits : Fits filled (length overflow)
  filled-Fits = omega (arith, ap length overflow_lem, past_vector-le bytes v h)

  abbrev whole : Buffer
  whole = record b {
    buffer = write_at b.buffer b.writer_index (take (writable_bytes b) bytes);
    writer_index = add_size b.writer_index (length bytes);
  }

  whole-IsValid : length bytes < writable_bytes b → IsValid whole
  whole-IsValid short = omega (
    arith,
    length-write_at b.buffer b.writer_index (take (writable_bytes b) bytes),
    v,
    writable_lem v,
  )

  pub read_got-IsValid : IsValid (read_got b bytes)
  unfolding read_got
  read_got-IsValid = elim (Bool-cases (ltb (length bytes) (writable_bytes b))) [
    | inl short ↦ rw short (whole-IsValid (ltb→lt _ _ short))
    | inr long ↦ rw long (append-IsValid overflow filled-IsValid filled-Fits)
  ]

  -- The bytes stored in the vector stand behind the old ones, whatever index ends them.
  contents-stored :
      (w : ℕ)
      → w ≡ b.writer_index + length (take (writable_bytes b) bytes)
      → contents (record b {
        buffer = write_at b.buffer b.writer_index (take (writable_bytes b) bytes);
        writer_index = w;
      })
        ≡ contents b ++ take (writable_bytes b) bytes
  unfolding contents
  contents-stored w e =
      slice-write_at b.buffer b.reader_index b.writer_index (take (writable_bytes b) bytes)
        (b.writer_index - b.reader_index) (w - b.reader_index) (omega (arith, v.ordered))
        (omega (arith, v.ordered))
        (omega (arith, v.within, writable_lem v, length-take (writable_bytes b) bytes))

  pub contents-read_got : contents (read_got b bytes) ≡ contents b ++ bytes
  unfolding read_got
  contents-read_got = elim (Bool-cases (ltb (length bytes) (writable_bytes b))) [
    | inl short ↦
        let fits : length bytes < writable_bytes b = ltb→lt _ _ short in
        let all : take (writable_bytes b) bytes ≡ bytes = take_all _ _ (omega arith) in
        rw short (
          contents-stored (add_size b.writer_index (length bytes))
            (omega (arith, ap length all, v.small, v.within, writable_lem v))
          ∙ ap (◌++◌ (contents b)) all)
    | inr long ↦ rw long (
        contents-append overflow filled-IsValid filled-Fits
        ∙ ap (λ xs. xs ++ overflow)
            (contents-stored (length b.buffer) (
              omega (
                arith,
                length-take (writable_bytes b) bytes,
                not_ltb→le _ _ long,
                writable_lem v,
                v.within,
              )))
        ∙ append_assoc (contents b) _ _
        ∙ ap (λ xs. contents b ++ (take (writable_bytes b) bytes ++ xs)) overflow_lem
        ∙ ap (◌++◌ (contents b)) (take-append-drop (writable_bytes b) bytes))
  ]

  pub read_got_growth : length (read_got b bytes).buffer ≤ length b.buffer + extra_size
  unfolding read_got
  read_got_growth = elim (Bool-cases (ltb (length bytes) (writable_bytes b))) [
    | inl short ↦
        rw short
          (omega (arith, length-write_at b.buffer b.writer_index (take (writable_bytes b) bytes)))
    | inr long ↦ rw long (
        omega (
          arith,
          append_growth overflow filled-IsValid filled-Fits,
          length-write_at b.buffer b.writer_index (take (writable_bytes b) bytes),
          past_vector-le bytes v h,
          ap length overflow_lem,
        ))
  ]

pub read_fd_lem :
    (readv : List ℕ → ReadResult) {b : Buffer}
    → IsValid b
    → Stored (readv (read_areas b)) b
    → length b.buffer + extra_size < 2 ^ 63
    → ((read_fd readv b).0 ≡ readv (read_areas b))
      × (contents (read_fd readv b).1 ≡ contents b ++ bytes_of (readv (read_areas b)))
      × IsValid (read_fd readv b).1
      × (length (read_fd readv b).1.buffer ≤ length b.buffer + extra_size)
unfolding read_fd
read_fd_lem readv {b} v h small = go (readv (read_areas b)) refl h
  where
    go :
        (r : ReadResult)
        → readv (read_areas b) ≡ r
        → Stored r b
        → ((read_fd readv b).0 ≡ readv (read_areas b))
          × (contents (read_fd readv b).1 ≡ contents b ++ bytes_of (readv (read_areas b)))
          × IsValid (read_fd readv b).1
          × (length (read_fd readv b).1.buffer ≤ length b.buffer + extra_size)
    go (failed errno) e k = rw (e, read_fd) (refl, sym (append-nil (contents b)), v, omega arith)
    go (got bytes) e k =
        rw (e, read_fd)
          (
            refl,
            contents-read_got bytes v k small,
            read_got-IsValid bytes v k small,
            read_got_growth bytes v k small,
          )
