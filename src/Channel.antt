-- ===== src/Channel.antt =====
-- src/Channel.cpp, src/include/Channel.h, and the part of src/Epoll.cpp that registers a Channel.
-- `EventLoop::updateChannel` and `removeChannel` only pass the call on to the Epoll. The system call
-- `epoll_ctl` is a parameter: `ctl k op fd events` is whether it succeeds, and the kernel after it.
pub mod Kernel
pub mod Flags
pub mod Registration
pub mod Dispatch
mod Tests
use reactor_network_library.Prelude.{
  ℕ, ◌+◌, ◌-◌, ◌^◌, ◌≡◌, Bool, true, false, ◌&&◌, not, List, [], ◌∷◌, ◌++◌, ◌==◌, if◌then◌else◌,
  bit_and, bit_or,
}

-- The bits of <sys/epoll.h>.
abbrev pub epollin : ℕ
epollin = 0x001

abbrev pub epollpri : ℕ
epollpri = 0x002

abbrev pub epollout : ℕ
epollout = 0x004

abbrev pub epollrdhup : ℕ
epollrdhup = 0x2000

abbrev pub epollet : ℕ
epollet = 0x8000_0000

-- `~bits` on `uint32_t`.
abbrev pub complement : ℕ → ℕ
complement bits = 2 ^ 32 - 1 - bits

pub data CtlOp : Type 0 where
  ctl_add ctl_mod ctl_del : CtlOp

-- A Channel with the descriptor of its socket. The callbacks are named where they are called.
pub record Channel : Type 0 where
  pub fd : ℕ
  pub isinepoll : Bool
  pub events : ℕ
  pub happenevents : ℕ

unfoldable pub create : ℕ → Channel
create fd = record { fd = fd; isinepoll = false; events = 0; happenevents = 0 }

unfoldable pub setisinepoll : Channel → Channel
setisinepoll c = record c { isinepoll = true }

unfoldable pub setevents : Channel → ℕ → Channel
setevents c ev = record c { events = bit_or c.events ev }

unfoldable pub sethappenevents : Channel → ℕ → Channel
sethappenevents c ev = record c { happenevents = ev }

unfoldable pub setepollet : Channel → Channel
setepollet c = record c { events = bit_or c.events epollet }

module _ {K : Type 0} (ctl : K → CtlOp → ℕ → ℕ → Bool × K) where
  -- `Epoll::updatechannel`: whether `epoll_ctl` succeeded, the kernel and the Channel after it.
  unfoldable pub updatechannel : K → Channel → Bool × K × Channel
  unfolding setisinepoll
  updatechannel k c =
      if c.isinepoll
      then (let (done, k') = ctl k ctl_mod c.fd c.events in (done, k', c))
      else (let (done, k') = ctl k ctl_add c.fd c.events in (done, k', setisinepoll c))

  -- `Epoll::removechannel`
  unfoldable pub removechannel : K → Channel → Bool × K
  removechannel k c = ctl k ctl_del c.fd 0

  unfoldable pub enablereading : K → Channel → Bool × K × Channel
  enablereading k c = updatechannel k (record c { events = bit_or c.events epollin })

  unfoldable pub disablereading : K → Channel → Bool × K × Channel
  disablereading k c = updatechannel k (record c { events = bit_and c.events (complement epollin) })

  unfoldable pub enablewriting : K → Channel → Bool × K × Channel
  enablewriting k c = updatechannel k (record c { events = bit_or c.events epollout })

  unfoldable pub disablewriting : K → Channel → Bool × K × Channel
  disablewriting k c =
      updatechannel k (record c { events = bit_and c.events (complement epollout) })

  unfoldable pub disableall : K → Channel → Bool × K × Channel
  disableall k c = updatechannel k (record c { events = 0 })

  unfoldable pub remove : K → Channel → Bool × K × Channel
  unfolding disableall removechannel
  remove k c =
      let (done, k', c') = disableall k c in
      let (gone, k'') = removechannel k' c' in (done && gone, k'', c')

-- The callbacks that `handleevents` calls.
pub data Callback : Type 0 where
  readevent closeconnection writeevent : Callback

-- `x & bits` as a condition.
abbrev pub any_bit : ℕ → ℕ → Bool
any_bit x bits = not (bit_and x bits == 0)

unfoldable pub handleevents : Channel → List Callback
handleevents c =
    if any_bit c.happenevents epollrdhup
    then closeconnection ∷ []
    else (if any_bit c.happenevents (bit_or epollin epollpri) then readevent ∷ [] else [])
      ++ (if any_bit c.happenevents epollout then writeevent ∷ [] else [])
