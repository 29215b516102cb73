-- ===== src/Connection/Receive.antt =====
-- What `onmessage` takes from the socket before it calls the handler or closes.
use reactor_network_library.Prelude.{
  eintr, eagain, ℕ, ◌+◌, ◌^◌, ◌<◌, ◌≡◌, refl, sym, ap, ◌∙◌, inl, inr, Bool, true, false, ◌||◌,
  Option, none, some, List, [], ◌∷◌, ◌++◌, arith, ◌==◌, if◌then◌else◌, length, append_assoc,
  append-nil, subst, Bool-cases, Option-cases,
}
use reactor_network_library.Buffer.{
  Buffer, readable_bytes, ReadResult, failed, got, read_fd, extra_size,
}
use reactor_network_library.Buffer.Inv.{IsValid}
use reactor_network_library.Buffer.Refine.{contents, length-contents}
use reactor_network_library.Buffer.Read.{Stored, read_fd_lem}
use reactor_network_library.Connection.{
  Connection, Ended, broke, returned, closeconnection, receive_loop,
}

-- How a list of answers of `readv` ends the reading, whatever the buffer.
pub data Stop : Type 0 where
  drained eof broken : Stop

-- The specification: all bytes up to the first answer that ends the reading. An interrupted call is
-- made again.
unfoldable pub received : List ReadResult → Option (List ℕ × Stop)
received [] = none
received (failed errno ∷ rs) =
    let rest = received rs in
    if errno == eagain
    then some ([], drained)
    else if errno == eintr
    then rest
    else some ([], broken)
received (got [] ∷ rs) = some ([], eof)
received (got (b ∷ bytes) ∷ rs) = elim (received rs) [
  | none ↦ none
  | some (more, stop) ↦ some ((b ∷ bytes) ++ more, stop)
]

-- What the loop makes of it: the end of the stream closes a connection only if no byte waits.
unfoldable pub verdict : Stop → List ℕ → Ended
verdict drained waiting = broke
verdict eof [] = returned
verdict eof (b ∷ bytes) = broke
verdict broken waiting = returned

-- The kernel keeps within the areas that it is given, and memory suffices.
abbrev pub Fed : Buffer → List ReadResult → Type 0
Fed b [] = Unit {0}
Fed b (r ∷ rs) =
    Stored r b × (length b.buffer + extra_size < 2 ^ 63) × Fed (read_fd (λ _. r) b).1 rs

abbrev is_closed : Ended → Bool
is_closed broke = false
is_closed returned = true

-- What the loop leaves, when `waiting` is all that the buffer had and got.
abbrev pub Leaves : Connection → List ℕ → Stop → Option (Ended × Connection) → Type 0
Leaves c waiting stop out =
    (d : Connection) × (out ≡ some (verdict stop waiting, d))
    × (contents d.inputbuf ≡ waiting)
    × IsValid d.inputbuf
    × (d.closing ≡ (is_closed (verdict stop waiting) || c.closing))
    × (d.disconnect ≡ (is_closed (verdict stop waiting) || c.disconnect))

eof-Leaves :
    (c : Connection) (waiting : List ℕ)
    → contents c.inputbuf ≡ waiting
    → IsValid c.inputbuf
    → Leaves c waiting eof (
        if readable_bytes c.inputbuf == 0
        then some (returned, closeconnection c)
        else some (broke, c))
unfolding verdict closeconnection
eof-Leaves c [] e v =
    let none_left : (readable_bytes c.inputbuf == 0) ≡ true =
      ground (arith, length-contents v, ap length e) in
    (closeconnection c, rw none_left refl, e, v, refl, refl)
eof-Leaves c (x ∷ xs) e v =
    let some_left : (readable_bytes c.inputbuf == 0) ≡ false =
      ground (arith, length-contents v, ap length e) in
    (c, rw some_left refl, e, v, refl, refl)

some-eq {ℓ} : {A : Type ℓ} {x y : A} → some x ≡ some y → x ≡ y
some-eq e = cc

-- The loop stops where the answers end the reading. The bytes received stand behind those that
-- waited, in order. The connection is marked closed exactly where the loop returned.
pub receive_loop_lem :
    (rs : List ReadResult) (c : Connection) (r : List ℕ × Stop)
    → IsValid c.inputbuf
    → Fed c.inputbuf rs
    → received rs ≡ some r
    → Leaves c (contents c.inputbuf ++ r.0) r.1 (receive_loop c rs)
unfolding receive_loop received verdict closeconnection
receive_loop_lem [] c r v f e = cc
receive_loop_lem (failed errno ∷ rs) c r v f e =
    let (same, bytes, valid, grown) = read_fd_lem (λ _. failed errno) v f.0 f.1 in
    let c' = record c { inputbuf = (read_fd (λ _. failed errno) c.inputbuf).1 } in
    elim (Bool-cases (errno == eagain)) [
      | inl again ↦ rw again (
          subst (λ p. Leaves c (contents c.inputbuf ++ p.0) p.1 (some (broke, c)))
            (some-eq (rw again at e)) (c, refl, sym (append-nil _), v, refl, refl))
      | inr other ↦ elim (Bool-cases (errno == eintr)) [
        | inl interrupted ↦ rw other (
            rw interrupted (
              subst (λ q. Leaves c (q ++ r.0) r.1 (receive_loop c' rs)) (bytes ∙ append-nil _)
                (receive_loop_lem rs c' r valid f.2 (rw interrupted at (rw other at e)))))
        | inr bad ↦ rw other (
            rw bad (
              subst
                (λ p.
                  Leaves c (contents c.inputbuf ++ p.0) p.1 (some (returned, closeconnection c)))
                (some-eq (rw bad at (rw other at e)))
                (closeconnection c, refl, sym (append-nil _), v, refl, refl)))
      ]
    ]
receive_loop_lem (got [] ∷ rs) c r v f e =
    let (same, bytes, valid, grown) = read_fd_lem (λ _. got []) v f.0 f.1 in
    subst (λ p. Leaves c (contents c.inputbuf ++ p.0) p.1 (receive_loop c (got [] ∷ rs)))
      (some-eq e)
      (eof-Leaves (record c { inputbuf = (read_fd (λ _. got []) c.inputbuf).1 })
        (contents c.inputbuf ++ []) bytes valid)
receive_loop_lem (got (b ∷ bs) ∷ rs) c r v f e =
    let (same, bytes, valid, grown) = read_fd_lem (λ _. got (b ∷ bs)) v f.0 f.1 in
    let c' = record c { inputbuf = (read_fd (λ _. got (b ∷ bs)) c.inputbuf).1 } in
    elim (Option-cases (received rs)) [
      | inl unanswered ↦ cc (rw (unanswered, received) at e)
      | inr (p, more) ↦
          let whole : ((b ∷ bs) ++ p.0, p.1) ≡ r = some-eq (rw (more, received) at e) in
          subst (λ q. Leaves c (contents c.inputbuf ++ q.0) q.1 (receive_loop c' rs)) whole
            (subst (λ w. Leaves c w p.1 (receive_loop c' rs))
              (ap (λ w. w ++ p.0) bytes ∙ append_assoc (contents c.inputbuf) (b ∷ bs) p.0)
              (receive_loop_lem rs c' p valid f.2 more))
    ]
