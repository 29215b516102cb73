-- ===== src/Channel/Flags.antt =====
-- The event mask of a Channel as three switches: the bits that the library's own calls set.
use reactor_network_library.Prelude.{
  ℕ, ◌+◌, ◌≡◌, refl, Bool, true, false, bit_and, bit_or, if◌then◌else◌, all_bools, all_bools_sound,
  ◌==◌, ==_iff,
}
use reactor_network_library.Channel.{epollin, epollout, epollet, epollrdhup, complement}

pub record Switches : Type 0 where
  pub reading : Bool
  pub writing : Bool
  pub edge : Bool

abbrev pub mask : Bool → Bool → Bool → ℕ
mask r w e = (if r then epollin else 0) + (if w then epollout else 0) + (if e then epollet else 0)

abbrev pub encode : Switches → ℕ
encode s = mask s.reading s.writing s.edge

-- A test over all masks.
abbrev all_masks : (Bool → Bool → Bool → Bool) → Bool
all_masks p = all_bools (λ r. all_bools (λ w. all_bools (p r w)))

all_masks_sound :
    (p : Bool → Bool → Bool → Bool) (r w e : Bool) → all_masks p ≡ true → p r w e ≡ true
all_masks_sound p r w e h = all_bools_sound (p r w) e (
    all_bools_sound (λ w. all_bools (p r w)) w
      (all_bools_sound (λ r. all_bools (λ w. all_bools (p r w))) r h))

-- Each call of Channel turns one switch.
pub bits-enable_in : (r w e : Bool) → bit_or (mask r w e) epollin ≡ mask true w e
bits-enable_in r w e =
    (==_iff _ _).0
      (all_masks_sound (λ r w e. bit_or (mask r w e) epollin == mask true w e) r w e refl)

pub bits-disable_in : (r w e : Bool) → bit_and (mask r w e) (complement epollin) ≡ mask false w e
bits-disable_in r w e = (==_iff _ _).0 (
    all_masks_sound (λ r w e. bit_and (mask r w e) (complement epollin) == mask false w e) r w e
      refl)

pub bits-enable_out : (r w e : Bool) → bit_or (mask r w e) epollout ≡ mask r true e
bits-enable_out r w e =
    (==_iff _ _).0
      (all_masks_sound (λ r w e. bit_or (mask r w e) epollout == mask r true e) r w e refl)

pub bits-disable_out : (r w e : Bool) → bit_and (mask r w e) (complement epollout) ≡ mask r false e
bits-disable_out r w e = (==_iff _ _).0 (
    all_masks_sound (λ r w e. bit_and (mask r w e) (complement epollout) == mask r false e) r w e
      refl)

pub bits-edge : (r w e : Bool) → bit_or (mask r w e) epollet ≡ mask r w true
bits-edge r w e =
    (==_iff _ _).0
      (all_masks_sound (λ r w e. bit_or (mask r w e) epollet == mask r w true) r w e refl)

-- None of them asks for EPOLLRDHUP.
pub bits-no_rdhup : (r w e : Bool) → bit_and (mask r w e) epollrdhup ≡ 0
bits-no_rdhup r w e =
    (==_iff _ _).0 (all_masks_sound (λ r w e. bit_and (mask r w e) epollrdhup == 0) r w e refl)
