-- ===== src/Socket.antt =====
-- src/Socket.cpp and src/InetAddress.cpp: sockets and their addresses. The system calls are parameters,
-- on a state of the kernel, and so are `inet_pton` and `inet_ntop`. A function returns the lines that it
-- writes to the log beside its result.
pub mod Documented
use reactor_network_library.Prelude.{
  eintr, eagain, emfile, enfile, ℕ, ◌+◌, ◌*◌, ◌/◌, ◌%◌, Bool, true, false, ◌||◌, Option, none, some,
  List, [], ◌∷◌, ◌==◌, if◌then◌else◌,
}

-- `sockaddr_in`: the address in four bytes, and the port as the machine reads its two bytes.
pub record InetAddress : Type 0 where
  pub sin_addr : List ℕ
  pub sin_port : ℕ

-- `htons` and `ntohs` on a little-endian machine: the two bytes change places.
abbrev pub htons : ℕ → ℕ
htons w = w % 256 * 256 + w / 256

-- The constructor from a text and a port. A text that is no address leaves `sin_addr` as memory was.
unfoldable pub address : (List ℕ → Option (List ℕ)) → List ℕ → List ℕ → ℕ → InetAddress
address inet_pton memory ip port = record {
  sin_addr = elim (inet_pton ip) [ none ↦ memory | some bytes ↦ bytes ];
  sin_port = htons port;
}

unfoldable pub port_of : InetAddress → ℕ
port_of a = htons a.sin_port

unfoldable pub ip_of : (List ℕ → List ℕ) → InetAddress → List ℕ
ip_of inet_ntop a = inet_ntop a.sin_addr

pub record Socket : Type 0 where
  pub fd : ℕ
  pub ip : List ℕ
  pub port : ℕ

-- SO_REUSEADDR, TCP_NODELAY, SO_REUSEPORT, SO_KEEPALIVE.
pub data SockOpt : Type 0 where
  reuse_addr no_delay reuse_port keepalive : SockOpt

-- What is written to the log.
pub data Line : Type 0 where
  setsockopt_err : SockOpt → Line
  socket_err bind_err listen_err accept4_err : Line

-- The system calls: whether each succeeds, and the kernel after it.
pub record Kernel (K : Type 0) : Type 0 where
  pub socket : K → Option ℕ × K
  pub setsockopt : K → ℕ → SockOpt → Bool × K
  pub bind : K → ℕ → InetAddress → Bool × K
  pub listen : K → ℕ → ℕ → Bool × K

module _ {K : Type 0} (kernel : Kernel K) where
  -- `setreuseaddropt`, `setnodelayopt`, `setreuseportopt` and `setkeepaliveopt`.
  unfoldable pub set_option : K → Socket → SockOpt → Bool × K × List Line
  set_option k s opt =
      let (done, k') = kernel.setsockopt k s.fd opt in
      (done, k', if done then [] else setsockopt_err opt ∷ [])

  -- `getlistenfd`: `nullptr` is `none`.
  unfoldable pub getlistenfd : K → Option Socket × K × List Line
  getlistenfd k =
      let (answer, k') = kernel.socket k in
      (
        elim answer [ none ↦ none | some fd ↦ some (record { fd = fd; ip = []; port = 0 }) ],
        k',
        elim answer [ none ↦ socket_err ∷ [] | some fd ↦ [] ],
      )

  -- `bind`: the address is noted whatever the kernel says.
  unfoldable pub bind_to :
      (List ℕ → List ℕ) → K → Socket → InetAddress → Bool × K × Socket × List Line
  bind_to inet_ntop k s a =
      let (done, k') = kernel.bind k s.fd a in
      (
        done,
        k',
        record s { ip = ip_of inet_ntop a; port = port_of a },
        if done then [] else bind_err ∷ [],
      )

  unfoldable pub listen_at : K → Socket → ℕ → Bool × K × List Line
  listen_at k s n =
      let (done, k') = kernel.listen k s.fd n in (done, k', if done then [] else listen_err ∷ [])

-- `accept4`: an answer -1 is `none`, with an `errno`.
unfoldable pub accept4 : Option ℕ → ℕ → Option ℕ × List Line
accept4 answer errno = elim answer [
  | none ↦ (
    none,
    if (errno == eintr) || ((errno == eagain) || ((errno == emfile) || (errno == enfile)))
        then []
        else accept4_err ∷ [],
  )
  | some fd ↦ (some fd, [])
]
