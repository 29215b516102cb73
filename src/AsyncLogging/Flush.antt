-- ===== src/AsyncLogging/Flush.antt =====
-- Writing out the buffers that the log thread holds.
use reactor_network_library.Prelude.{
  ℕ, suc, ◌+◌, ◌≤◌, ◌<◌, ◌≡◌, refl, sym, ap, ap₂, ◌∙◌, inl, inr, Bool, true, ◌&&◌, Option, none,
  some, List, [], ◌∷◌, ◌++◌, arith, ltb, if◌then◌else◌, length, take, append-nil, Bool-cases,
  length-take,
}
use reactor_network_library.AsyncLogging.{
  LogBuffer, reset, Front, testing, holding, Line, drop_excess, write_all, pop_back, refill, flush,
}
use reactor_network_library.AsyncLogging.Conserve.{
  joined, text_of, is_whole, AreNulFree, text_of-append, text_of-write_all, is_whole-append, Locals,
  at_test, has_one, has_two, IsSound, Goes,
}

pop_back_lem :
    (bs : List LogBuffer)
    → 0 < length bs
    → (rest : List LogBuffer) × (pop_back bs ≡ some rest) × (length rest + 1 ≡ length bs)
unfolding pop_back
pop_back_lem [] h = absurd (omega arith)
pop_back_lem (b ∷ []) h = ([], refl, refl)
pop_back_lem (b ∷ c ∷ bs) h =
    let (rest, e, n) = pop_back_lem (c ∷ bs) (omega arith) in
    (b ∷ rest, rw e refl, omega (arith, n))

-- What `resize` leaves of what was kept, for the two spares.
abbrev pub left_of : List LogBuffer → List LogBuffer
left_of held = let kept = (drop_excess held).1 in if ltb 2 (length kept) then take 2 kept else kept

left_lem : (held : List LogBuffer) (n : ℕ) → n ≤ 2 → n ≤ length held → n ≤ length (left_of held)
unfolding drop_excess
left_lem held n small h = ground (arith, length-take 2 held, length-take 2 (take 2 held))

drop_lem :
    (held : List LogBuffer) → is_whole (drop_excess held).0 ≡ true → drop_excess held ≡ ([], held)
unfolding drop_excess is_whole
drop_lem held = elim (Bool-cases (ltb 25 (length held))) [
  | inl many ↦ rw many (λ e. cc)
  | inr few ↦ rw few (λ e. refl)
]

and_left : (a b : Bool) → (a && b) ≡ true → (a ≡ true) × (b ≡ true)
and_left a b h = grind arith

flush_stream :
    (output : List Line) (held : List LogBuffer) (queue active past : List ℕ)
    → AreNulFree held
    → (is_whole output ≡ true → text_of output ++ joined held ++ queue ++ active ≡ past)
    → is_whole (output ++ (drop_excess held).0 ++ write_all (drop_excess held).1) ≡ true
    → text_of (output ++ (drop_excess held).0 ++ write_all (drop_excess held).1)
        ++ []
        ++ queue
        ++ active
      ≡ past
flush_stream output held queue active past plain stream whole =
    let split = and_left _ _ (sym (is_whole-append _ _) ∙ whole) in
    let both = and_left _ _ (sym (is_whole-append _ _) ∙ split.0) in
    let undropped = drop_lem held both.1 in
    ap (λ d. text_of (output ++ d.0 ++ write_all d.1) ++ [] ++ queue ++ active) undropped
    ∙ ap (λ u. u ++ queue ++ active)
        (append-nil _
          ∙ text_of-append (output ++ []) (write_all held)
          ∙ ap₂ (λ u w. text_of u ++ w) (append-nil output) (text_of-write_all held plain))
    ∙ stream both.0

refill-pop_back :
    (bs rest : List LogBuffer) → pop_back bs ≡ some rest → refill none bs ≡ some (some reset, rest)
unfolding refill
refill-pop_back bs rest e = rw (e, refill) refl

refill-none :
    (bs : List LogBuffer) (n : ℕ)
    → suc n ≤ length bs
    → (rest : List LogBuffer) × (refill none bs ≡ some (some reset, rest)) × (n ≤ length rest)
refill-none bs n h =
    let (rest, e, size) = pop_back_lem bs (omega arith) in
    (rest, refill-pop_back bs rest e, omega (arith, size))

-- The thread gets both spares back.
pub refill_lem :
    {new1 new2 : Option LogBuffer} (held : List LogBuffer)
    → Locals new1 new2 (holding held)
    → (left last : List LogBuffer) × (refill new1 (left_of held) ≡ some (some reset, left))
      × (refill new2 left ≡ some (some reset, last))
unfolding refill
refill_lem held (has_one pos) =
    let (left, e, n) = refill-none (left_of held) 0 (left_lem held 1 (omega arith) pos) in
    (left, left, e, refl)
refill_lem held (has_two two) =
    let (left, e, n) = refill-none (left_of held) 1 (left_lem held 2 (omega arith) two) in
    let (last, e', n') = refill-none left 0 n in (left, last, e, e')

-- Writing out what is held.
pub flush-Goes :
    {front : Front} {new1 new2 : Option LogBuffer} {output : List Line} {past : List ℕ}
    (held : List LogBuffer)
    → Locals new1 new2 (holding held)
    → (v : IsSound
        (record { front = front; new1 = new1; new2 = new2; phase = holding held; output = output })
        past)
    → Goes
        (flush
          (record {
            front = front;
            new1 = new1;
            new2 = new2;
            phase = holding held;
            output = output;
          })
          held)
        past
unfolding flush AreNulFree joined
flush-Goes {front} {output} {past} held l v =
    let (left, last, e₁, e₂) = refill_lem held l in
    (
      record {
        front = front;
        new1 = some reset;
        new2 = some reset;
        phase = testing;
        output = output ++ (drop_excess held).0 ++ write_all (drop_excess held).1;
      },
      rw (e₁, flush) (rw (e₂, flush) refl),
      record {
        active = v.active;
        here = v.here;
        fits = v.fits;
        plain = v.plain;
        queued = v.queued;
        grabbed = tt;
        spares = v.spares;
        locals = at_test;
        occupied = v.occupied;
        stream =
            flush_stream output held (joined front.buffers) v.active.bytes past v.grabbed v.stream;
      },
    )
