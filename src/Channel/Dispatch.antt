-- ===== src/Channel/Dispatch.antt =====
-- `handleevents`: which callbacks run, for which reported events.
use reactor_network_library.Prelude.{
  ℕ, ◌+◌, ◌≡◌, refl, ap, ◌∙◌, Bool, true, false, ◌||◌, Option, List, [], ◌∷◌, ◌++◌, if◌then◌else◌,
  bit_and, bit_or, all_bools, all_bools_sound, same_bool, same_bool-eq,
}
use reactor_network_library.Channel.{
  CtlOp, Channel, readevent, closeconnection, writeevent, any_bit, handleevents, sethappenevents,
  epollin, epollpri, epollout, epollrdhup,
}
use reactor_network_library.Channel.Flags.{Switches, bits-no_rdhup}
use reactor_network_library.Channel.Kernel.{Documented}
use reactor_network_library.Channel.Registration.{Call, run, turns, InStep, run-InStep}

-- The events that epoll_wait(2) may report.
pub record Report : Type 0 where
  pub input : Bool
  pub priority : Bool
  pub output : Bool
  pub error : Bool
  pub hangup : Bool
  pub rdhup : Bool

abbrev bits : Bool → Bool → Bool → Bool → Bool → Bool → ℕ
bits i p o e h r =
    (if i then 1 else 0)
    + (if p then 2 else 0)
    + (if o then 4 else 0)
    + (if e then 8 else 0)
    + (if h then 16 else 0)
    + (if r then epollrdhup else 0)

abbrev pub report_bits : Report → ℕ
report_bits r = bits r.input r.priority r.output r.error r.hangup r.rdhup

abbrev Test : Type 0
Test = Bool → Bool → Bool → Bool → Bool → Bool → Bool

abbrev all_reports : Test → Bool
all_reports q =
    all_bools
      λ i. all_bools λ p. all_bools λ o. all_bools λ e. all_bools λ h. all_bools λ r. q i p o e h r

all_reports_sound : (q : Test) (i p o e h r : Bool) → all_reports q ≡ true → q i p o e h r ≡ true
all_reports_sound q i p o e h r t = all_bools_sound (q i p o e h) r (
    all_bools_sound (λ h. all_bools (q i p o e h)) h
      (all_bools_sound (λ e. all_bools λ h. all_bools (q i p o e h)) e
        (all_bools_sound (λ o. all_bools λ e. all_bools λ h. all_bools (q i p o e h)) o
          (all_bools_sound
            (λ p. all_bools λ o. all_bools λ e. all_bools λ h. all_bools (q i p o e h)) p
            (all_bools_sound
              (λ i.
                all_bools λ p. all_bools λ o. all_bools λ e. all_bools λ h. all_bools (q i p o e h))
              i t)))))

test_rdhup : (r : Report) → any_bit (report_bits r) epollrdhup ≡ r.rdhup
test_rdhup r = same_bool-eq _ _ (
    all_reports_sound (λ i p o e h d. same_bool (any_bit (bits i p o e h d) epollrdhup) d) r.input
      r.priority r.output r.error r.hangup r.rdhup refl)

test_input :
    (r : Report) → any_bit (report_bits r) (bit_or epollin epollpri) ≡ (r.input || r.priority)
test_input r = same_bool-eq _ _ (
    all_reports_sound
      (λ i p o e h d. same_bool (any_bit (bits i p o e h d) (bit_or epollin epollpri)) (i || p))
      r.input r.priority r.output r.error r.hangup r.rdhup refl)

test_output : (r : Report) → any_bit (report_bits r) epollout ≡ r.output
test_output r = same_bool-eq _ _ (
    all_reports_sound (λ i p o e h d. same_bool (any_bit (bits i p o e h d) epollout) o) r.input
      r.priority r.output r.error r.hangup r.rdhup refl)

pub handleevents_lem :
    (c : Channel) (r : Report)
    → handleevents (sethappenevents c (report_bits r)) ≡ (
        if r.rdhup
        then closeconnection ∷ []
        else (if r.input || r.priority then readevent ∷ [] else [])
          ++ (if r.output then writeevent ∷ [] else []))
unfolding handleevents sethappenevents
handleevents_lem c r = rw (test_rdhup r, test_input r, test_output r)

-- EPOLLRDHUP is reported only where it was asked for, and no call of the library asks for it. So
-- after any of these calls on a new Channel, the close callback is not among those that run.
pub handleevents_never_close :
    {K : Type 0} (ctl : K → CtlOp → ℕ → ℕ → Bool × K) (registered : K → ℕ → Option ℕ)
    (doc : Documented ctl registered) (xs : List Call) (k : K) (c : Channel) (s : Switches)
    (watched : Option Switches) (r : Report)
    → InStep ctl registered doc k c s watched
    → (bit_and (run ctl xs k c).2.events epollrdhup ≡ 0 → r.rdhup ≡ false)
    → handleevents (sethappenevents (run ctl xs k c).2 (report_bits r)) ≡ (
        (if r.input || r.priority then readevent ∷ [] else [])
        ++ (if r.output then writeevent ∷ [] else []))
handleevents_never_close ctl registered doc xs k c s watched r v documented =
    let (done, w) = run-InStep ctl registered doc xs k c s watched v in
    let t = turns xs s in
    let quiet : r.rdhup ≡ false =
      documented
        (ap (λ e. bit_and e epollrdhup) w.switches ∙ bits-no_rdhup t.reading t.writing t.edge) in
    handleevents_lem (run ctl xs k c).2 r ∙ rw quiet refl
