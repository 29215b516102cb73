-- ===== src/Acceptor.antt =====
-- src/Acceptor.cpp: setting up the listening socket, and taking new clients from it. The system calls of
-- the constructor are parameters, as in Socket. The answers of `accept4` to `onconnect` are a list, and so are those of `setnodelayopt` for the sockets that it gave.
pub mod Accept
pub mod Setup
mod Tests
use reactor_network_library.Prelude.{
  eintr, eagain, emfile, enfile, ℕ, ◌≡◌, Bool, true, false, ◌||◌, Option, none, some, List, [], ◌∷◌,
  ◌++◌, arith, ◌==◌, if◌then◌else◌,
}
use reactor_network_library.Channel
use reactor_network_library.Channel.{CtlOp, Channel}
use reactor_network_library.Socket.{
  Socket, Kernel, Line, reuse_addr, no_delay, reuse_port, keepalive, address, set_option,
  getlistenfd, bind_to, listen_at,
}

pub record Acceptor : Type 0 where
  pub psocket : Socket
  pub pchannel : Channel

-- The constructor. Without a descriptor it calls a method through a null pointer: `none`.
module _ {K : Type 0} (kernel : Kernel K) (ctl : K → CtlOp → ℕ → ℕ → Bool × K)
    (inet_pton : List ℕ → Option (List ℕ)) (inet_ntop : List ℕ → List ℕ) where
  -- From the descriptor on.
  unfoldable pub set_up : K → Socket → List ℕ → List ℕ → ℕ → Acceptor × K × List Line
  set_up k s memory ip port =
      let (done₁, k₁, log₁) = set_option kernel k s reuse_addr in
      let (done₂, k₂, log₂) = set_option kernel k₁ s no_delay in
      let (done₃, k₃, log₃) = set_option kernel k₂ s reuse_port in
      let (done₄, k₄, log₄) = set_option kernel k₃ s keepalive in
      let (bound, k₅, s', log₅) =
        bind_to kernel inet_ntop k₄ s (address inet_pton memory ip port) in
      let (listens, k₆, log₆) = listen_at kernel k₅ s' 128 in
      let (watched, k₇, c) = Channel.enablereading ctl k₆ (Channel.create s'.fd) in
      (
        record { psocket = s'; pchannel = c },
        k₇,
        log₁ ++ (log₂ ++ (log₃ ++ (log₄ ++ (log₅ ++ log₆)))),
      )

  unfoldable pub create : K → List ℕ → List ℕ → ℕ → Option (Acceptor × K × List Line)
  unfolding set_up
  create k memory ip port =
      let (found, k₀, log) = getlistenfd kernel k in
      elim found [ none ↦ none | some s ↦ some (set_up k₀ s memory ip port) ]

-- A descriptor, with whether `setnodelayopt` succeeds on it; or -1 with an `errno`.
pub data Answer : Type 0 where
  accepted : ℕ → Bool → Answer
  failed : ℕ → Answer

-- `onconnect`: the descriptors that `m_onconnectcb` is called with, in order. A list that is used up
-- before the function returns gives `none`: `accept4` has not answered yet.
unfoldable pub onconnect : List Answer → Option (List ℕ)
onconnect [] = none
onconnect (accepted fd nodelay ∷ answers) =
    let rest = onconnect answers in
    if nodelay then (elim rest [ none ↦ none | some fds ↦ some (fd ∷ fds) ]) else rest
onconnect (failed errno ∷ answers) =
    let rest = onconnect answers in
    if errno == eintr
    then rest
    else if errno == eagain
    then some []
    else if (errno == emfile) || (errno == enfile)
    then rest
    else some []
