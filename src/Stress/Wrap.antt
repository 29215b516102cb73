-- ===== src/Stress/Wrap.antt =====
-- A reply whose length wraps around in the `uint32_t` sum of StressTest/test.cpp.
use reactor_network_library.Prelude.{
  ℕ, zero, suc, ◌-◌, ◌^◌, ◌≤◌, ◌<◌, ◌≡◌, refl, some, arith, le→leb, add32, ap, ◌∙◌,
}
use reactor_network_library.Buffer.{int_of_bytes}
use reactor_network_library.Buffer.Storage.{slice}
use reactor_network_library.Stress.{Client, answered, runs_on, parse}

-- With a length of 2 ^ 32 - 4 in front the inner loop does not end: it takes the reply for complete, counts
-- it, moves by no byte, and is at the same length again.
pub parse-wrapped :
    (fuel : ℕ) (c : Client) (processed : ℕ)
    → 4 ≤ c.recv_off
    → processed < 2 ^ 32
    → int_of_bytes (slice c.recv_buf processed 4) ≡ some (2 ^ 32 - 4)
    → parse fuel c processed ≡ runs_on
unfolding parse answered
parse-wrapped zero c processed more small header = refl
parse-wrapped (suc fuel) c processed more small header =
    let here : add32 processed 0 ≡ processed = omega arith in
    let next : parse fuel (answered c 0) processed ≡ runs_on =
      parse-wrapped fuel (answered c 0) processed (omega arith) small header in
    rw (le→leb 4 c.recv_off more, parse)
      (rw (header, parse)
        (rw (le→leb 0 c.recv_off (omega arith), parse)
          (ap (λ q. parse fuel (answered c 0) q) here ∙ next)))
