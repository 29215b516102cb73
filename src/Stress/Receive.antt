-- ===== src/Stress/Receive.antt =====
-- `handle_recv` of StressTest/test.cpp over any answers of `recv`.
use reactor_network_library.Prelude.{
  ℕ, ◌+◌, ◌^◌, ◌≤◌, ◌<◌, ◌≡◌, refl, sym, ap, ◌∙◌, subst, inl, inr, Option, none, some, List, [],
  ◌∷◌, ◌++◌, arith, length, append_assoc, append-nil, length-append, Option-cases,
}
use reactor_network_library.Buffer.{ReadResult, failed, got}
use reactor_network_library.Buffer.Storage.{write_at, slice, length-write_at, take-write_at}
use reactor_network_library.Echo.{frame}
use reactor_network_library.Echo.Frames.{stream, AreSendable, done, also}
use reactor_network_library.Echo.Chunks.{IsStart, split_stream, start-ne-frame}
use reactor_network_library.Stress.{Client, keep_rest, take_in, recv_loop}
use reactor_network_library.Stress.Replies.{
  Counted, Counted-zero, Counted-trans, parse_lem, length-slice,
}

-- The bytes in `recv_buf` that are not processed.
abbrev pub waiting : Client → List ℕ
waiting c = slice c.recv_buf 0 c.recv_off

-- `recv_off` is in the buffer, which is below 4 GB.
pub record IsValid (c : Client) : Type 0 where
  pub within : c.recv_off ≤ length c.recv_buf
  pub below : length c.recv_buf < 2 ^ 32

-- All bytes up to the first answer that gives none.
unfoldable pub arrived : List ReadResult → Option (List ℕ)
arrived [] = none
arrived (failed errno ∷ rs) = some []
arrived (got [] ∷ rs) = some []
arrived (got (b ∷ bytes) ∷ rs) = elim (arrived rs) [
  | none ↦ none
  | some more ↦ some ((b ∷ bytes) ++ more)
]

-- `recv` gives no more bytes than there is room for.
abbrev pub AllFit : ℕ → Client → List ReadResult → Type 0
AllFit fuel c [] = Unit {0}
AllFit fuel c (failed errno ∷ rs) = Unit {0}
AllFit fuel c (got [] ∷ rs) = Unit {0}
AllFit fuel c (got (b ∷ bytes) ∷ rs) =
    (c.recv_off + length (b ∷ bytes) ≤ length c.recv_buf)
    × (elim (take_in fuel c (b ∷ bytes)) [ none ↦ Unit {0} | some d ↦ AllFit fuel d rs ])

-- What is kept stands at the front.
keep_rest_lem :
    (c : Client) (processed : ℕ) {rest : List ℕ}
    → processed + c.recv_off ≤ length c.recv_buf
    → slice c.recv_buf processed c.recv_off ≡ rest
    → waiting (keep_rest c processed) ≡ rest
unfolding keep_rest
keep_rest_lem c processed within e =
    take-write_at c.recv_buf 0 (slice c.recv_buf processed c.recv_off) c.recv_off
      (omega (arith, length-slice c.recv_buf processed c.recv_off within)) (omega arith)
    ∙ e

-- The buffer does not count.
Counted-keep_rest :
    (c d : Client) (buf : List ℕ) (off k p : ℕ)
    → Counted (record c { recv_buf = buf; recv_off = off }) d k
    → Counted c (keep_rest d p) k
unfolding keep_rest
Counted-keep_rest c d buf off k p v = record {
  fewer = v.fewer;
  fewer_all = v.fewer_all;
  more = v.more;
  unsent = v.unsent;
  same = v.same;
}

keep_rest-IsValid :
    (c : Client) (p : ℕ)
    → p + c.recv_off ≤ length c.recv_buf
    → length c.recv_buf < 2 ^ 32
    → IsValid (keep_rest c p)
unfolding keep_rest
keep_rest-IsValid c p within below =
    let same = length-write_at c.recv_buf 0 (slice c.recv_buf p c.recv_off) in
    record { within = omega (arith, same); below = omega (arith, same) }

take_in_lem :
    (fuel : ℕ) (c : Client) (bytes rest : List ℕ) {msgs : List (List ℕ)}
    → IsValid c
    → c.recv_off + length bytes ≤ length c.recv_buf
    → AreSendable msgs
    → IsStart rest
    → waiting c ++ bytes ≡ stream msgs ++ rest
    → length msgs < fuel
    → (d : Client) × (take_in fuel c bytes ≡ some d)
      × (waiting d ≡ rest)
      × IsValid d
      × Counted c d (length msgs)
unfolding take_in
take_in_lem fuel c bytes rest {msgs} v room good start e enough =
    let c' = record c {
      recv_buf = write_at c.recv_buf c.recv_off bytes;
      recv_off = c.recv_off + length bytes;
    } in
    let same = length-write_at c.recv_buf c.recv_off bytes in
    let there : slice c'.recv_buf 0 c'.recv_off ≡ stream msgs ++ rest =
      take-write_at c.recv_buf c.recv_off bytes c'.recv_off refl room ∙ e in
    let (d, p, run, buf, sum, left, counted) =
      parse_lem rest fuel c' 0 (omega (arith, same, v.below)) (omega (arith, same, room)) good start
        there enough in
    let within : p + d.recv_off ≤ length d.recv_buf =
      omega (arith, sum, ap length buf, same, room) in
    (
      keep_rest d p,
      rw (run, take_in) refl,
      keep_rest_lem d p within left,
      keep_rest-IsValid d p within (omega (arith, ap length buf, same, v.below)),
      Counted-keep_rest c d c'.recv_buf c'.recv_off (length msgs) p counted,
    )

some-eq {ℓ} : {A : Type ℓ} {x y : A} → some x ≡ some y → x ≡ y
some-eq e = cc

nothing_more :
    (xs : List ℕ) {bytes whole : List ℕ} → some [] ≡ some bytes → xs ++ bytes ≡ whole → xs ≡ whole
nothing_more xs {bytes} {whole} a e = sym (append-nil xs) ∙ ap (λ u. xs ++ u) (some-eq a) ∙ e

-- Nothing arrives, and what waits is no complete reply.
ends_here :
    (fuel : ℕ) (c : Client) {rest : List ℕ} {msgs : List (List ℕ)}
    → IsValid c
    → IsStart (waiting c)
    → AreSendable msgs
    → waiting c ≡ stream msgs ++ rest
    → (d : Client) × (some c ≡ some d) × (waiting d ≡ rest) × IsValid d × Counted c d (length msgs)
unfolding stream
ends_here fuel c v start done e = (c, refl, e, v, Counted-zero c)
ends_here fuel c {rest} v start (also {msg} {msgs} pos small good) e = absurd (
    start-ne-frame msg (stream msgs ++ rest) start pos small
      (e ∙ append_assoc (frame msg) (stream msgs) rest))

-- Replies, each with a byte at least and below 64 MB, that the network cuts into any pieces, also within
-- a length: whatever part of them is in the buffer already, `handle_recv` counts each complete reply
-- once, takes it off the requests in flight, and keeps the start of the next one. More rounds of the
-- inner loop than there are replies are enough. `recv` is to give no more than there is room for.
pub recv_loop_lem :
    (rs : List ReadResult) (fuel : ℕ) (c : Client) {bytes rest : List ℕ} {msgs : List (List ℕ)}
    → IsValid c
    → IsStart (waiting c)
    → AllFit fuel c rs
    → arrived rs ≡ some bytes
    → AreSendable msgs
    → IsStart rest
    → waiting c ++ bytes ≡ stream msgs ++ rest
    → length msgs < fuel
    → (d : Client) × (recv_loop fuel c rs ≡ some d)
      × (waiting d ≡ rest)
      × IsValid d
      × Counted c d (length msgs)
unfolding recv_loop arrived
recv_loop_lem [] fuel c v start f a good ends e enough = cc
recv_loop_lem (failed errno ∷ rs) fuel c v start f a good ends e enough =
    ends_here fuel c v start good (nothing_more (waiting c) a e)
recv_loop_lem (got [] ∷ rs) fuel c v start f a good ends e enough =
    ends_here fuel c v start good (nothing_more (waiting c) a e)
recv_loop_lem (got (b ∷ bs) ∷ rs) fuel c {bytes} {rest} {msgs} v start f a good ends e enough =
    elim (Option-cases (arrived rs)) [
      | inl unanswered ↦ cc (rw (unanswered, arrived) at a)
      | inr (later, more) ↦
          let total : (b ∷ bs) ++ later ≡ bytes = some-eq (rw (more, arrived) at a) in
          let (first, others, left, parts, g₁, g₂, shape, s, next) =
            split_stream (waiting c ++ (b ∷ bs)) later good ends
              (append_assoc (waiting c) (b ∷ bs) later ∙ ap (λ u. waiting c ++ u) total ∙ e) in
          let size = length-append first others in
          let (d, run, w, valid, counted) =
            take_in_lem fuel c (b ∷ bs) left v f.0 g₁ s shape (omega (arith, ap length parts)) in
          let fits : AllFit fuel d rs =
            subst (λ r. elim r [ none ↦ Unit {0} | some d ↦ AllFit fuel d rs ]) run f.1 in
          let (z, run', w', valid', counted') =
            recv_loop_lem rs fuel d valid (subst IsStart (sym w) s) fits more g₂ ends
              (ap (λ u. u ++ later) w ∙ next) (omega (arith, ap length parts)) in
          (
            z,
            rw (run, recv_loop) run',
            w',
            valid',
            subst (Counted c z) (sym size ∙ sym (ap length parts))
                (Counted-trans c d z (length first) (length others) counted counted'),
          )
    ]
