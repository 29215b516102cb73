-- ===== src/Stress/Replies.antt =====
-- What `handle_recv` of StressTest/test.cpp counts.
use reactor_network_library.Prelude.{
  ℕ, zero, suc, ◌+◌, ◌-◌, ◌%◌, ◌^◌, ◌≤◌, ◌<◌, ◌≡◌, refl, sym, ap, ap₂, ◌∙◌, some, List, ◌++◌, arith,
  length, take, drop, add32, append_assoc, length-append, length-take, length-drop, take-take,
  drop-take, drop-drop, drop-append_length, le→leb, lt→not_leb,
}
use reactor_network_library.Buffer.{int_of_bytes}
use reactor_network_library.Buffer.Storage.{slice}
use reactor_network_library.Echo.{frame, htonl_bytes, bomb_size}
use reactor_network_library.Echo.Frames.{
  stream, AreSendable, done, also, big_endian-htonl, length-frame,
}
use reactor_network_library.Echo.Chunks.{IsStart, few, part}
use reactor_network_library.Stress.{Client, answered, Parsed, parsed, parse}

pub length-slice : (xs : List ℕ) (p n : ℕ) → p + n ≤ length xs → length (slice xs p n) ≡ n
length-slice xs p n h = omega (arith, length-take n (drop p xs), length-drop p xs)

drop-slice : (xs : List ℕ) (p n m : ℕ) → m ≤ n → drop m (slice xs p n) ≡ slice xs (p + m) (n - m)
drop-slice xs p n m h =
    drop-take m n (n - m) (drop p xs) (omega arith)
    ∙ ap (take (n - m)) (drop-drop p m (p + m) xs refl)

-- The counters after `k` replies. They wrap around.
pub record Counted (c d : Client) (k : ℕ) : Type 0 where
  pub fewer : (d.inflight + k) % 2 ^ 32 ≡ c.inflight % 2 ^ 32
  pub fewer_all : (d.g_inflight + k) % 2 ^ 64 ≡ c.g_inflight % 2 ^ 64
  pub more : d.recv_cnt % 2 ^ 64 ≡ (c.recv_cnt + k) % 2 ^ 64
  pub unsent : d.send_cnt ≡ c.send_cnt
  pub same : d.n ≡ c.n

pub Counted-zero : (c : Client) → Counted c c 0
Counted-zero c = record {
  fewer = omega arith;
  fewer_all = omega arith;
  more = omega arith;
  unsent = refl;
  same = refl;
}

Counted-answered : (c d : Client) (size k : ℕ) → Counted (answered c size) d k → Counted c d (suc k)
unfolding answered
Counted-answered c d size k v = record {
  fewer = omega (arith, v.fewer);
  fewer_all = omega (arith, v.fewer_all);
  more = omega (arith, v.more);
  unsent = v.unsent;
  same = v.same;
}

pub Counted-trans : (c d e : Client) (j k : ℕ) → Counted c d j → Counted d e k → Counted c e (j + k)
Counted-trans c d e j k v w = record {
  fewer = omega (arith, v.fewer, w.fewer);
  fewer_all = omega (arith, v.fewer_all, w.fewer_all);
  more = omega (arith, v.more, w.more);
  unsent = w.unsent ∙ v.unsent;
  same = w.same ∙ v.same;
}

module _ (c : Client) (processed : ℕ) (n : ℕ) (body : List ℕ)
    (within : processed + c.recv_off ≤ length c.recv_buf)
    (e : slice c.recv_buf processed c.recv_off ≡ htonl_bytes n ++ body)
    (small : n < bomb_size) where
  size_there : c.recv_off ≡ 4 + length body
  unfolding htonl_bytes
  size_there = omega (arith, length-slice c.recv_buf processed c.recv_off within, ap length e)

  header_there : int_of_bytes (slice c.recv_buf processed 4) ≡ some n
  unfolding htonl_bytes
  header_there =
      ap int_of_bytes (
        sym (take-take 4 c.recv_off (drop processed c.recv_buf) (omega (arith, size_there)))
        ∙ ap (take 4) e)
      ∙ ap some (big_endian-htonl n (omega arith))

  waits_for : (fuel : ℕ) → length body < n → parse (suc fuel) c processed ≡ parsed c processed
  unfolding parse
  waits_for fuel short =
      rw (le→leb 4 c.recv_off (omega (arith, size_there)), parse)
        (rw (header_there, parse)
          (rw (lt→not_leb (add32 4 n) c.recv_off (omega (arith, size_there)), parse) refl))

  goes_on :
      (fuel : ℕ)
      → n ≤ length body
      → parse (suc fuel) c processed
        ≡ parse fuel (answered c (add32 4 n)) (add32 processed (add32 4 n))
  unfolding parse
  goes_on fuel long =
      rw (le→leb 4 c.recv_off (omega (arith, size_there)), parse)
        (rw (header_there, parse)
          (rw (le→leb (add32 4 n) c.recv_off (omega (arith, size_there)), parse) refl))

-- What the inner loop leaves of the bytes from `processed` on.
abbrev pub Leaves : Client → ℕ → List ℕ → ℕ → Parsed → Type 0
Leaves c processed rest k out =
    (d : Client) × (p : ℕ) × (out ≡ parsed d p)
    × (d.recv_buf ≡ c.recv_buf)
    × (p + d.recv_off ≡ processed + c.recv_off)
    × (slice d.recv_buf p d.recv_off ≡ rest)
    × Counted c d k

stops_at :
    (fuel : ℕ) (c : Client) (processed : ℕ) {rest : List ℕ}
    → processed + c.recv_off ≤ length c.recv_buf
    → slice c.recv_buf processed c.recv_off ≡ rest
    → IsStart rest
    → parse (suc fuel) c processed ≡ parsed c processed
unfolding parse
stops_at fuel c processed within e (few short) =
    let size = length-slice c.recv_buf processed c.recv_off within in
    rw (lt→not_leb 4 c.recv_off (omega (arith, size, ap length e)), parse) refl
stops_at fuel c processed within e (part n body small short shape) =
    waits_for c processed n body within (e ∙ shape) small fuel short

-- One complete reply at the front.
next_slice :
    (c : Client) (processed : ℕ) (msg rest : List ℕ)
    → processed + c.recv_off ≤ length c.recv_buf
    → slice c.recv_buf processed c.recv_off ≡ frame msg ++ rest
    → slice c.recv_buf (processed + (4 + length msg)) (c.recv_off - (4 + length msg)) ≡ rest
next_slice c processed msg rest within e =
    let size : c.recv_off ≡ 4 + length msg + length rest = omega (
      arith,
      length-slice c.recv_buf processed c.recv_off within,
      ap length e,
      length-append (frame msg) rest,
      length-frame msg,
    ) in
    sym (drop-slice c.recv_buf processed c.recv_off (4 + length msg) (omega arith))
    ∙ ap (drop (4 + length msg)) e
    ∙ drop-append_length (4 + length msg) (frame msg) rest (omega (arith, length-frame msg))

-- The inner loop on complete replies and the start of one more: it counts each of them and stops behind
-- them. The buffer is below 4 GB.
pub parse_lem :
    {msgs : List (List ℕ)} (rest : List ℕ) (fuel : ℕ) (c : Client) (processed : ℕ)
    → length c.recv_buf < 2 ^ 32
    → processed + c.recv_off ≤ length c.recv_buf
    → AreSendable msgs
    → IsStart rest
    → slice c.recv_buf processed c.recv_off ≡ stream msgs ++ rest
    → length msgs < fuel
    → Leaves c processed rest (length msgs) (parse fuel c processed)
unfolding stream answered
parse_lem rest zero c processed below within good start e enough = ground arith
parse_lem rest (suc fuel) c processed below within done start e enough =
    (c, processed, stops_at fuel c processed within e start, refl, refl, e, Counted-zero c)
parse_lem rest (suc fuel) c processed below within (also {msg} {msgs} pos small good) start e
      enough =
    let n = length msg in
    let shape : slice c.recv_buf processed c.recv_off ≡ frame msg ++ (stream msgs ++ rest) =
      e ∙ append_assoc (frame msg) (stream msgs) rest in
    let header : slice c.recv_buf processed c.recv_off
        ≡ htonl_bytes n ++ (msg ++ (stream msgs ++ rest)) =
      shape ∙ unfold frame in append_assoc (htonl_bytes n) msg (stream msgs ++ rest) in
    let size = size_there c processed n (msg ++ (stream msgs ++ rest)) within header small in
    let long = length-append msg (stream msgs ++ rest) in
    let whole : add32 4 n ≡ 4 + n = omega arith in
    let step : add32 processed (add32 4 n) ≡ processed + (4 + n) = omega (arith, size, long) in
    let (d, p, run, buf, sum, left, counted) =
      parse_lem rest fuel (answered c (4 + n)) (processed + (4 + n)) (below)
        (omega (arith, size, long)) good start
        (next_slice c processed msg (stream msgs ++ rest) within shape) (omega arith) in
    (
      d,
      p,
      goes_on c processed n (msg ++ (stream msgs ++ rest)) within header small fuel
            (omega (arith, long))
          ∙ ap₂ (λ a b. parse fuel (answered c a) b) whole step
          ∙ run,
      buf,
      sum ∙ omega (arith, size, long),
      left,
      Counted-answered c d (4 + n) (length msgs) counted,
    )
