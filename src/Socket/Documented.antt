-- ===== src/Socket/Documented.antt =====
-- What the manual pages say of the system calls, as far as src/Acceptor.cpp relies on it.
use reactor_network_library.Prelude.{ℕ, ◌≡◌, Bool, true, false, Option, none, some, if◌then◌else◌}
use reactor_network_library.Channel.{CtlOp, ctl_add}
use reactor_network_library.Socket.{InetAddress, SockOpt, Kernel}

-- How the kernel holds a socket: the address that it is bound to, whether it listens, and the events
-- that an epoll watches it for.
pub record View : Type 0 where
  pub bound : Option InetAddress
  pub listening : Bool
  pub watched : Option ℕ

abbrev pub fresh : View
fresh = record { bound = none; listening = false; watched = none }

pub record Documented {K : Type 0} (kernel : Kernel K) (ctl : K → CtlOp → ℕ → ℕ → Bool × K)
    (sees : K → ℕ → View) : Type 0 where
  pub socket_new :
      (k : K) (fd : ℕ) → (kernel.socket k).0 ≡ some fd → sees (kernel.socket k).1 fd ≡ fresh
  pub option_keeps :
      (k : K) (fd : ℕ) (opt : SockOpt) → sees (kernel.setsockopt k fd opt).1 fd ≡ sees k fd
  pub bind_done :
      (k : K) (fd : ℕ) (a : InetAddress)
      → sees (kernel.bind k fd a).1 fd
        ≡ (if (kernel.bind k fd a).0 then record (sees k fd) { bound = some a } else sees k fd)
  pub listen_done :
      (k : K) (fd n : ℕ)
      → sees (kernel.listen k fd n).1 fd
        ≡ (if (kernel.listen k fd n).0 then record (sees k fd) { listening = true } else sees k fd)
  pub add_done :
      (k : K) (fd ev : ℕ)
      → (sees k fd).watched ≡ none
      → sees (ctl k ctl_add fd ev).1 fd ≡ record (sees k fd) { watched = some ev }
