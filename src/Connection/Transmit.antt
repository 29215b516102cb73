-- ===== src/Connection/Transmit.antt =====
-- What `sendto` of src/Connection.cpp hands to the kernel.
use reactor_network_library.Prelude.{
  eagain, ℕ, ◌-◌, ◌≤◌, ◌≡◌, is_empty, refl, sym, ap, ap₂, ◌∙◌, inl, inr, true, false, some, List,
  [], ◌∷◌, ◌++◌, arith, ltb, ◌==◌, if◌then◌else◌, length, take-append-drop, append_assoc,
  length-drop, Bool-cases, ==_iff, ltb→lt,
}
use reactor_network_library.Buffer.{Buffer, readable_bytes, peek, retrieve}
use reactor_network_library.Buffer.Inv.{IsValid, retrieve-IsValid}
use reactor_network_library.Buffer.Refine.{contents, length-contents}
use reactor_network_library.Buffer.Take.{contents-retrieve, peek-contents}
use reactor_network_library.Connection.{
  Connection, Effect, send_complete, closeconnection, SendResult, transmit_loop, finish_sending,
  sendto,
}

-- `::send` takes no more than it is given.
abbrev pub Takes : Buffer → List SendResult → Type 0
Takes b [] = Unit {0}
Takes b ((len, errno) ∷ rs) = (len ≤ readable_bytes b) × Takes (retrieve b len) rs

is_empty-of_length : (xs : List ℕ) → length xs ≡ 0 → is_empty xs ≡ true
is_empty-of_length [] h = refl
is_empty-of_length (x ∷ xs) h = absurd (omega arith)

not_empty-of_length : (xs : List ℕ) → (length xs == 0) ≡ false → is_empty xs ≡ false
not_empty-of_length [] h = cc
not_empty-of_length (x ∷ xs) h = refl

readable-retrieve :
    {b : Buffer} (len : ℕ) → IsValid b → readable_bytes (retrieve b len) ≡ readable_bytes b - len
readable-retrieve {b} len v = omega (
  arith,
  length-contents (retrieve-IsValid len v),
  length-contents v,
  ap length (contents-retrieve len v),
  length-drop len (contents b),
)

-- One `::send` splits the readable bytes into those taken and those left.
split_sent :
    {b : Buffer} (len : ℕ) (taken left : List ℕ)
    → IsValid b
    → len ≤ readable_bytes b
    → contents (retrieve b len) ≡ taken ++ left
    → contents b ≡ (peek b len ++ taken) ++ left
split_sent {b} len taken left v h e =
    sym (take-append-drop len (contents b))
    ∙ ap₂ ◌++◌ (sym (peek-contents len v h)) (sym (contents-retrieve len v) ∙ e)
    ∙ sym (append_assoc (peek b len) taken left)

-- As many answers as there are bytes to send are enough: the loop stops. What it handed to the kernel,
-- followed by what is left, is what was there.
transmit_loop-Sent :
    (rs : List SendResult) (c : Connection)
    → IsValid c.outputbuf
    → Takes c.outputbuf rs
    → readable_bytes c.outputbuf ≤ length rs
    → (r : Connection × List ℕ) × (transmit_loop c rs ≡ some r)
      × (contents c.outputbuf ≡ r.1 ++ contents r.0.outputbuf)
      × IsValid r.0.outputbuf
      × (r.0.writing ≡ c.writing)
unfolding transmit_loop
transmit_loop-Sent [] c v t h = ((c, []), ground arith, refl, v, refl)
transmit_loop-Sent ((len, errno) ∷ rs) c v t h =
    elim (Bool-cases (readable_bytes c.outputbuf == 0)) [
      | inl empty ↦ ((c, []), rw (empty, transmit_loop) refl, refl, v, refl)
      | inr more ↦ elim (Bool-cases (ltb 0 len)) [
        | inl some_sent ↦
            let c' = record c { outputbuf = retrieve c.outputbuf len } in
            let fewer : readable_bytes c'.outputbuf ≤ length rs =
              omega (arith, readable-retrieve {b = c.outputbuf} len v, ltb→lt _ _ some_sent) in
            let (r, e, stream, w, same) =
              transmit_loop-Sent rs c' (retrieve-IsValid len v) t.1 fewer in
            (
              (r.0, peek c.outputbuf len ++ r.1),
              rw (more, transmit_loop) (rw (some_sent, transmit_loop) (rw (e, transmit_loop) refl)),
              split_sent len r.1 (contents r.0.outputbuf) v t.0 stream,
              w,
              same,
            )
        | inr nothing ↦ elim (Bool-cases (errno == eagain)) [
          | inl full ↦ (
            (c, []),
            rw (more, transmit_loop) (rw (nothing, transmit_loop) (rw full refl)),
            refl,
            v,
            refl,
          )
          | inr bad ↦ (
            (closeconnection c, []),
            rw (more, transmit_loop) (rw (nothing, transmit_loop) (rw bad refl)),
            unfold closeconnection in refl,
            unfold closeconnection in v,
            unfold closeconnection in refl,
          )
        ]
      ]
    ]

sendto-transmitted :
    (rs : List SendResult) (c : Connection) (r : Connection × List ℕ)
    → c.disconnect ≡ false
    → transmit_loop c rs ≡ some r
    → sendto c rs ≡ some ((finish_sending r.0).0, r.1, (finish_sending r.0).1)
unfolding sendto
sendto-transmitted rs c r connected e = rw (e, sendto) (simp connected)

-- `sendto` on a connection that is not closed: the kernel gets a prefix of the bytes that wait, in
-- order, and the others keep waiting; nothing is lost or sent twice. The completion callback runs, and
-- the Channel stops watching for room to write, exactly when nothing is left.
pub sendto_lem :
    (rs : List SendResult) (c : Connection)
    → IsValid c.outputbuf
    → Takes c.outputbuf rs
    → readable_bytes c.outputbuf ≤ length rs
    → c.disconnect ≡ false
    → (d : Connection) × (taken : List ℕ) × (calls : List Effect) × (sendto c rs
        ≡ some (d, taken, calls))
      × (contents c.outputbuf ≡ taken ++ contents d.outputbuf)
      × IsValid d.outputbuf
      × (if is_empty (contents d.outputbuf)
          then (calls ≡ send_complete ∷ []) × (d.writing ≡ false)
          else (calls ≡ []) × (d.writing ≡ c.writing))
unfolding sendto
sendto_lem rs c v t h connected =
    let (r, e, stream, w, same) = transmit_loop-Sent rs c v t h in
    elim (Bool-cases (readable_bytes r.0.outputbuf == 0)) [
      | inl empty ↦ (
        record r.0 { writing = false },
        r.1,
        send_complete ∷ [],
        sendto-transmitted rs c r connected e ∙ rw empty refl,
        stream,
        w,
        rw (no_bytes w empty) (refl, refl),
      )
      | inr left ↦ (
        r.0,
        r.1,
        [],
        sendto-transmitted rs c r connected e ∙ rw left refl,
        stream,
        w,
        rw (some_bytes w left) (refl, same),
      )
    ]
  where
    no_bytes :
        {b : Buffer} → IsValid b → (readable_bytes b == 0) ≡ true → is_empty (contents b) ≡ true
    no_bytes {b} w e = is_empty-of_length (contents b) (length-contents w ∙ (==_iff _ _).0 e)

    some_bytes :
        {b : Buffer} → IsValid b → (readable_bytes b == 0) ≡ false → is_empty (contents b) ≡ false
    some_bytes {b} w e = not_empty-of_length (contents b) (rw (length-contents w) e)
