-- ===== src/Server/Clock.antt =====
-- The times of the last activity (`m_lasttime` of src/include/Connection.h), by descriptor, and the order
-- of a list of descriptors by them.
use reactor_network_library.Prelude.{
  ℕ, ◌≤◌, ◌≡◌, refl, inl, inr, Bool, false, List, [], ◌∷◌, arith, ◌==◌, if◌then◌else◌, elem,
  Distinct, Bool-cases, ==_refl,
}
use reactor_network_library.EventLoop.Recency.{Node}
use reactor_network_library.EventLoop.Recency.Index.{fds}
use reactor_network_library.EventLoop.Recency.Keep.{keep}
use reactor_network_library.EventLoop.Recency.Order.{remove, to_front, remove_all}
use reactor_network_library.Server.Safety.{Event, accepts, active, closes, timer, ends}

-- `m_lasttime` of the Connection with a descriptor becomes `now`.
unfoldable pub stamp : ℕ → ℕ → (ℕ → ℕ) → ℕ → ℕ
stamp fd now time k = if fd == k then now else time k

-- A Connection is stamped when it is made, and when it reads.
unfoldable pub stamped : Event → ℕ → (ℕ → ℕ) → ℕ → ℕ
unfolding stamp
stamped (accepts fd) now time k = stamp fd now time k
stamped (active i fd) now time k = stamp fd now time k
stamped (closes i fd) now time k = time k
stamped (timer i last t interval) now time k = time k
stamped (ends i) now time k = time k

-- The most recent first, and none after `top`.
abbrev pub Descends : (ℕ → ℕ) → ℕ → List ℕ → Type 0
Descends time top [] = Unit {0}
Descends time top (x ∷ xs) = (time x ≤ top) × Descends time (time x) xs

pub Descends-top :
    (time : ℕ → ℕ) (t u : ℕ) (xs : List ℕ) → t ≤ u → Descends time t xs → Descends time u xs
Descends-top time t u [] h d = tt
Descends-top time t u (x ∷ xs) h d = (omega (arith, d.0), d.1)

pub Descends-remove :
    (time : ℕ → ℕ) (top fd : ℕ) (xs : List ℕ)
    → Descends time top xs
    → Descends time top (remove fd xs)
unfolding remove
Descends-remove time top fd [] d = tt
Descends-remove time top fd (x ∷ xs) d = elim (Bool-cases (x == fd)) [
  | inl same ↦ rw same (Descends-top time (time x) top xs d.0 d.1)
  | inr other ↦ rw other (d.0, Descends-remove time (time x) fd xs d.1)
]

pub Descends-remove_all :
    (time : ℕ → ℕ) (top : ℕ) (gone xs : List ℕ)
    → Descends time top xs
    → Descends time top (remove_all gone xs)
unfolding remove_all
Descends-remove_all time top [] xs d = d
Descends-remove_all time top (fd ∷ gone) xs d =
    Descends-remove_all time top gone (remove fd xs) (Descends-remove time top fd xs d)

pub Descends-keep :
    (time : ℕ → ℕ) (top : ℕ) (p : Node → Bool) (ns : List Node)
    → Descends time top (fds ns)
    → Descends time top (fds (keep p ns))
unfolding keep
Descends-keep time top p [] d = tt
Descends-keep time top p (n ∷ ns) d = elim (Bool-cases (p n)) [
  | inl passes ↦ rw passes (d.0, Descends-keep time (time n.fd) p ns d.1)
  | inr fails ↦
      rw fails (Descends-keep time top p ns (Descends-top time (time n.fd) top (fds ns) d.0 d.1))
]

-- A descriptor that is not in the list may be stamped.
pub Descends-stamp :
    (time : ℕ → ℕ) (now top fd : ℕ) (xs : List ℕ)
    → elem fd xs ≡ false
    → Descends time top xs
    → Descends (stamp fd now time) top xs
unfolding stamp
Descends-stamp time now top fd [] h d = tt
Descends-stamp time now top fd (x ∷ xs) h d =
    let other : (fd == x) ≡ false = ground arith in
    let rest : elem fd xs ≡ false = ground arith in
    rw other (d.0, Descends-stamp time now (time x) fd xs rest d.1)

pub Descends-new :
    (time : ℕ → ℕ) (now fd : ℕ) (xs : List ℕ)
    → elem fd xs ≡ false
    → Descends time now xs
    → Descends (stamp fd now time) now (fd ∷ xs)
unfolding stamp
Descends-new time now fd xs h d =
    rw (==_refl fd) (omega arith, Descends-stamp time now now fd xs h d)

elem-remove : (fd : ℕ) (xs : List ℕ) → Distinct xs → elem fd (remove fd xs) ≡ false
unfolding remove
elem-remove fd [] d = refl
elem-remove fd (x ∷ xs) d = ground (arith, elem-remove fd xs d.1)

pub Descends-to_front :
    (time : ℕ → ℕ) (now fd : ℕ) (xs : List ℕ)
    → Distinct xs
    → Descends time now xs
    → Descends (stamp fd now time) now (to_front fd xs)
unfolding to_front
Descends-to_front time now fd xs u d = elim (Bool-cases (elem fd xs)) [
  | inl there ↦ rw there (
      Descends-new time now fd (remove fd xs) (elem-remove fd xs u)
        (Descends-remove time now fd xs d))
  | inr absent ↦ rw absent (Descends-stamp time now now fd xs absent d)
]
