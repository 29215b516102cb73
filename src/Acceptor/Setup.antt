-- ===== src/Acceptor/Setup.antt =====
-- What the constructor of the Acceptor leaves in the kernel.
use reactor_network_library.Prelude.{
  ℕ, ◌^◌, ◌<◌, ◌≡◌, refl, ap, ◌∙◌, inl, inr, Bool, true, false, not, Option, none, some, List, [],
  ◌∷◌, ◌++◌, arith, if◌then◌else◌, Bool-cases,
}
use reactor_network_library.Channel
use reactor_network_library.Channel.{CtlOp, Channel, epollin}
use reactor_network_library.Socket.{
  InetAddress, Socket, Kernel, Line, SockOpt, bind_err, listen_err, setsockopt_err, socket_err,
  accept4_err, address, port_of, set_option, getlistenfd, bind_to, listen_at, reuse_addr, no_delay,
  reuse_port, keepalive,
}
use reactor_network_library.Socket.Documented.{View, fresh, Documented}
use reactor_network_library.Acceptor.{Acceptor, create, set_up}

-- Whether a log says that `bind` failed, or `listen`.
abbrev pub says_bind : List Line → Bool
says_bind [] = false
says_bind (bind_err ∷ log) = true
says_bind (setsockopt_err opt ∷ log) = says_bind log
says_bind (socket_err ∷ log) = says_bind log
says_bind (listen_err ∷ log) = says_bind log
says_bind (accept4_err ∷ log) = says_bind log

abbrev pub says_listen : List Line → Bool
says_listen [] = false
says_listen (listen_err ∷ log) = true
says_listen (setsockopt_err opt ∷ log) = says_listen log
says_listen (socket_err ∷ log) = says_listen log
says_listen (bind_err ∷ log) = says_listen log
says_listen (accept4_err ∷ log) = says_listen log

-- The port comes back from network order.
pub port-address :
    (inet_pton : List ℕ → Option (List ℕ)) (memory ip : List ℕ) (port : ℕ)
    → port < 2 ^ 16
    → port_of (address inet_pton memory ip port) ≡ port
unfolding port_of address
port-address inet_pton memory ip port h = omega arith

module _ {K : Type 0} (kernel : Kernel K) where
  -- A failing option is logged, and no more.
  quiet_option :
      (k : K) (s : Socket) (opt : SockOpt) (log : List Line)
      → (says_bind ((set_option kernel k s opt).2 ++ log) ≡ says_bind log)
        × (says_listen ((set_option kernel k s opt).2 ++ log) ≡ says_listen log)
  unfolding set_option
  quiet_option k s opt log = elim (Bool-cases (kernel.setsockopt k s.fd opt).0) [
    | inl done ↦ (rw done refl, rw done refl)
    | inr refused ↦ (rw refused refl, rw refused refl)
  ]

  -- After the options, the log tells how `bind` and `listen` went.
  quiet_options :
      (k₁ k₂ k₃ k₄ : K) (s : Socket) (log : List Line)
      → let whole =
          (set_option kernel k₁ s reuse_addr).2
          ++ ((set_option kernel k₂ s no_delay).2
              ++ ((set_option kernel k₃ s reuse_port).2
                  ++ ((set_option kernel k₄ s keepalive).2 ++ log))) in
        (says_bind whole ≡ says_bind log) × (says_listen whole ≡ says_listen log)
  quiet_options k₁ k₂ k₃ k₄ s log =
      let q₄ = quiet_option k₄ s keepalive log in
      let log₄ = (set_option kernel k₄ s keepalive).2 ++ log in
      let q₃ = quiet_option k₃ s reuse_port log₄ in
      let log₃ = (set_option kernel k₃ s reuse_port).2 ++ log₄ in
      let q₂ = quiet_option k₂ s no_delay log₃ in
      let q₁ = quiet_option k₁ s reuse_addr ((set_option kernel k₂ s no_delay).2 ++ log₃) in
      (q₁.0 ∙ q₂.0 ∙ q₃.0 ∙ q₄.0, q₁.1 ∙ q₂.1 ∙ q₃.1 ∙ q₄.1)

says_bind-log :
    (b l : Bool)
    → says_bind ((if b then [] else bind_err ∷ []) ++ (if l then [] else listen_err ∷ [])) ≡ not b
says_bind-log true true = refl
says_bind-log true false = refl
says_bind-log false l = refl

says_listen-log :
    (b l : Bool)
    → says_listen ((if b then [] else bind_err ∷ []) ++ (if l then [] else listen_err ∷ [])) ≡ not l
says_listen-log true true = refl
says_listen-log true false = refl
says_listen-log false true = refl
says_listen-log false false = refl

-- How `bind` and `listen` change a socket that nothing was done to.
abbrev after : Bool → Bool → InetAddress → View
after b l a = record { bound = if b then some a else none; listening = l; watched = none }

bound_after :
    (b : Bool) (a : InetAddress)
    → (if b then record fresh { bound = some a } else fresh) ≡ after b false a
bound_after true a = refl
bound_after false a = refl

listening_after :
    (b l : Bool) (a : InetAddress)
    → (if l then record (after b false a) { listening = true } else after b false a) ≡ after b l a
listening_after b true a = refl
listening_after b false a = refl

-- What the log tells of them is what happened.
told :
    (a : InetAddress) (b l : Bool) {sb sl : Bool}
    → sb ≡ not b
    → sl ≡ not l
    → record (after b l a) { watched = some epollin }
      ≡ record { bound = if sb then none else some a; listening = not sl; watched = some epollin }
told a true true e f = rw (e, f) refl
told a true false e f = rw (e, f) refl
told a false true e f = rw (e, f) refl
told a false false e f = rw (e, f) refl

module _ {K : Type 0} (kernel : Kernel K) (ctl : K → CtlOp → ℕ → ℕ → Bool × K)
    (inet_pton : List ℕ → Option (List ℕ)) (inet_ntop : List ℕ → List ℕ) (sees : K → ℕ → View)
    (doc : Documented kernel ctl sees) where
  -- The kernel after `bind` and `listen`.
  listens-View :
      (k : K) (fd : ℕ) (a : InetAddress)
      → sees k fd ≡ fresh
      → sees (kernel.listen (kernel.bind k fd a).1 fd 128).1 fd
        ≡ after (kernel.bind k fd a).0 (kernel.listen (kernel.bind k fd a).1 fd 128).0 a
  listens-View k fd a e =
      let b = (kernel.bind k fd a).0 in
      let k' = (kernel.bind k fd a).1 in
      let l = (kernel.listen k' fd 128).0 in
      let bound : sees k' fd ≡ after b false a =
        doc.bind_done k fd a
        ∙ ap (λ (v : View). if b then record v { bound = some a } else v) e
        ∙ bound_after b a in
      doc.listen_done k' fd 128
      ∙ ap (λ (v : View). if l then record v { listening = true } else v) bound
      ∙ listening_after b l a

  -- From a new descriptor on.
  set_up_lem :
      (k : K) (s : Socket) (memory ip : List ℕ) (port : ℕ)
      → sees k s.fd ≡ fresh
      → let (a, k', log) = set_up kernel ctl inet_pton inet_ntop k s memory ip port in
        sees k' s.fd ≡ record {
          bound = if says_bind log then none else some (address inet_pton memory ip port);
          listening = not (says_listen log);
          watched = some epollin;
        }
  unfolding set_up set_option bind_to listen_at Channel.enablereading Channel.updatechannel
      Channel.create
  set_up_lem k s memory ip port e =
      let a = address inet_pton memory ip port in
      let k₁ = (kernel.setsockopt k s.fd reuse_addr).1 in
      let k₂ = (kernel.setsockopt k₁ s.fd no_delay).1 in
      let k₃ = (kernel.setsockopt k₂ s.fd reuse_port).1 in
      let k₄ = (kernel.setsockopt k₃ s.fd keepalive).1 in
      let b = (kernel.bind k₄ s.fd a).0 in
      let k₅ = (kernel.bind k₄ s.fd a).1 in
      let l = (kernel.listen k₅ s.fd 128).0 in
      let k₆ = (kernel.listen k₅ s.fd 128).1 in
      let unbound : sees k₄ s.fd ≡ fresh =
        doc.option_keeps k₃ s.fd keepalive
        ∙ doc.option_keeps k₂ s.fd reuse_port
        ∙ doc.option_keeps k₁ s.fd no_delay
        ∙ doc.option_keeps k s.fd reuse_addr
        ∙ e in
      let view : sees k₆ s.fd ≡ after b l a = listens-View k₄ s.fd a unbound in
      let log : List Line =
        (if b then [] else bind_err ∷ []) ++ (if l then [] else listen_err ∷ []) in
      let (told_b, told_l) = quiet_options kernel k k₁ k₂ k₃ s log in
      doc.add_done k₆ s.fd epollin (ap (λ (v : View). v.watched) view)
      ∙ ap (λ (v : View). record v { watched = some epollin }) view
      ∙ told a b l (told_b ∙ says_bind-log b l) (told_l ∙ says_listen-log b l)

  -- If the kernel gives a descriptor, the constructor comes to its end whatever the other calls answer:
  -- the socket is watched for reading, and notes the address that was asked for. It is bound to that
  -- address, the port in network order, and listens, unless the log says that `bind` or `listen` failed;
  -- nothing else tells.
  pub create_lem :
      (k : K) (fd : ℕ) (memory ip : List ℕ) (port : ℕ)
      → (kernel.socket k).0 ≡ some fd
      → port < 2 ^ 16
      → (a : Acceptor) × (k' : K) × (log : List Line) × (create kernel ctl inet_pton inet_ntop k
            memory ip port
          ≡ some (a, k', log))
        × (a.psocket.port ≡ port)
        × (sees k' fd ≡ record {
          bound = if says_bind log then none else some (address inet_pton memory ip port);
          listening = not (says_listen log);
          watched = some epollin;
        })
  unfolding create getlistenfd set_up bind_to
  create_lem k fd memory ip port e small =
      let s : Socket = record { fd = fd; ip = []; port = 0 } in
      let (a, k', log) =
        set_up kernel ctl inet_pton inet_ntop (kernel.socket k).1 s memory ip port in
      (
        a,
        k',
        log,
        rw (e, create, getlistenfd) refl,
        port-address inet_pton memory ip port small,
        set_up_lem (kernel.socket k).1 s memory ip port (doc.socket_new k fd e),
      )
