-- ===== src/AsyncLogging/Rounds.antt =====
-- The steps of the log thread (`ThreadFunc`) up to the end of its critical section.
use reactor_network_library.Prelude.{
  ℕ, ◌≡◌, refl, sym, ap, ◌∙◌, subst, inl, inr, Bool, true, false, ◌&&◌, ◌||◌, Option, none, some,
  List, [], ◌∷◌, ◌++◌, arith, ltb, ◌==◌, is_empty, length-append, append_assoc, append-nil,
  Bool-cases,
}
use reactor_network_library.AsyncLogging.{
  LogBuffer, reset, cur, Phase, testing, waiting, exited, holding, Line, System, test, grab,
}
use reactor_network_library.AsyncLogging.Conserve.{
  NulFree, joined, text_of, is_whole, AreNulFree, AreNulFree-append, Spares, kept, taken, Locals,
  at_test, at_wait, at_end, has_one, has_two, held_by, IsSound, Goes,
}
use reactor_network_library.AsyncLogging.Steps.{joined_last}

abbrev pub system :
    Option LogBuffer
    → Option LogBuffer
    → List LogBuffer
    → Bool
    → Option LogBuffer
    → Option LogBuffer
    → Phase
    → List Line
    → System
system current next buffers running new1 new2 phase output = record {
  front = record { current = current; next = next; buffers = buffers; running = running };
  new1 = new1;
  new2 = new2;
  phase = phase;
  output = output;
}

in_phase :
    {s : System} {past : List ℕ} (p : Phase)
    → held_by p ≡ held_by s.phase
    → Locals s.new1 s.new2 p
    → IsSound s past
    → IsSound (record s { phase = p }) past
in_phase {s} p same locals v = record {
  active = v.active;
  here = v.here;
  fits = v.fits;
  plain = v.plain;
  queued = v.queued;
  grabbed = subst AreNulFree (sym same) v.grabbed;
  spares = v.spares;
  locals = locals;
  occupied = v.occupied;
  stream = λ whole.
      ap (λ h. text_of s.output ++ joined h ++ joined s.front.buffers ++ v.active.bytes) same
      ∙ v.stream whole;
}

pub test-Goes :
    {next : Option LogBuffer} {buffers : List LogBuffer} {past : List ℕ} (running : Bool)
    (output : List Line) (b : LogBuffer)
    → IsSound (system (some b) next buffers running (some reset) (some reset) testing output) past
    → Goes
        (test (system (some b) next buffers running (some reset) (some reset) testing output))
        past
unfolding test
test-Goes running output b v = elim (Bool-cases (running || ltb 0 (cur b))) [
  | inl on ↦ (_, rw on refl, in_phase waiting refl at_wait v)
  | inr off ↦ (_, rw off refl, in_phase exited refl at_end v)
]

grab_stream :
    (t : List ℕ) (buffers : List LogBuffer) (b : LogBuffer) (past : List ℕ)
    → t ++ [] ++ joined buffers ++ b.bytes ≡ past
    → t ++ joined (buffers ++ (b ∷ [])) ++ [] ++ [] ≡ past
grab_stream t buffers b past e =
    append-nil _
    ∙ append-nil _
    ∙ ap (λ u. t ++ u) (joined_last buffers b)
    ∙ sym (append_assoc t (joined buffers) b.bytes)
    ∙ ap (λ u. u ++ joined buffers ++ b.bytes) (sym (append-nil t))
    ∙ e

-- The critical section, with something to take: the parts of the state that its branches look at are
-- arguments.
grab_full-Goes :
    {next : Option LogBuffer} {buffers : List LogBuffer} {past : List ℕ} (running : Bool)
    (output : List Line) (b : LogBuffer)
    → Spares next buffers
    → (is_empty buffers && (cur b == 0)) ≡ false
    → NulFree b.bytes
    → AreNulFree buffers
    → (is_whole output ≡ true → text_of output ++ [] ++ joined buffers ++ b.bytes ≡ past)
    → Goes
        (grab (system (some b) next buffers running (some reset) (some reset) waiting output))
        past
unfolding grab AreNulFree NulFree joined
grab_full-Goes {buffers} {past} running output b kept more plain queued stream = (
  system (some reset) (some reset) [] running none (some reset) (holding (buffers ++ (b ∷ [])))
      output,
  rw more refl,
  record {
    active = reset;
    here = refl;
    fits = omega arith;
    plain = tt;
    queued = tt;
    grabbed = AreNulFree-append buffers (b ∷ []) queued (plain, tt);
    spares = kept;
    locals = has_one (omega (arith, length-append buffers (b ∷ [])));
    occupied = λ busy. absurd (omega (arith, busy));
    stream = λ whole. grab_stream (text_of output) buffers b past (stream whole);
  },
)
grab_full-Goes {buffers} {past} running output b (taken pos) more plain queued stream = (
  system (some reset) (some reset) [] running none none (holding (buffers ++ (b ∷ []))) output,
  rw more refl,
  record {
    active = reset;
    here = refl;
    fits = omega arith;
    plain = tt;
    queued = tt;
    grabbed = AreNulFree-append buffers (b ∷ []) queued (plain, tt);
    spares = kept;
    locals = has_two (omega (arith, length-append buffers (b ∷ [])));
    occupied = λ busy. absurd (omega (arith, busy));
    stream = λ whole. grab_stream (text_of output) buffers b past (stream whole);
  },
)

-- The critical section.
pub grab-Goes :
    {next : Option LogBuffer} {buffers : List LogBuffer} {past : List ℕ} (running : Bool)
    (output : List Line) (b : LogBuffer)
    → IsSound (system (some b) next buffers running (some reset) (some reset) waiting output) past
    → NulFree b.bytes
    → (is_whole output ≡ true → text_of output ++ [] ++ joined buffers ++ b.bytes ≡ past)
    → Goes
        (grab (system (some b) next buffers running (some reset) (some reset) waiting output))
        past
unfolding grab joined
grab-Goes {next} {buffers} running output b v plain stream =
    elim (Bool-cases (is_empty buffers && (cur b == 0))) [
      | inl nothing ↦ (_, rw nothing refl, in_phase testing refl at_test v)
      | inr more ↦ grab_full-Goes running output b v.spares more plain v.queued stream
    ]
