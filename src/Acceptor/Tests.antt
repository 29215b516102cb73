-- ===== src/Acceptor/Tests.antt =====
-- Runs on small inputs, and the instances of the theorems.
use reactor_network_library.Prelude.{
  eintr, eagain, ℕ, arith, Bool, Option, not, inl, inr, ltb, if◌then◌else◌, Bool-cases, ◌≡◌, refl,
  true, false, none, some, List, [], ◌∷◌, ◌++◌,
}
use reactor_network_library.Channel.{CtlOp, epollin}
use reactor_network_library.Socket.{Kernel, Line, address, htons}
use reactor_network_library.Socket.Documented.{View, fresh, Documented}
use reactor_network_library.Acceptor.{Acceptor, create, Answer, accepted, failed, onconnect}
use reactor_network_library.Acceptor.Setup.{says_bind, says_listen, create_lem}
use reactor_network_library.Acceptor.Accept.{taken, AllGoOn, onconnect_lem}

abbrev answers : List Answer
answers = accepted 7 true ∷ failed eintr ∷ accepted 8 false ∷ accepted 9 true ∷ []

answers-AllGoOn : AllGoOn answers
unfolding AllGoOn
answers-AllGoOn = (refl, (refl, (refl, (refl, tt))))

onconnect_lem_example : onconnect (answers ++ failed eagain ∷ []) ≡ some (7 ∷ 9 ∷ [])
unfolding taken
onconnect_lem_example = onconnect_lem answers [] eagain answers-AllGoOn refl

-- A kernel with one descriptor, 3, on which ports below 1024 are taken.
abbrev small_kernel : Kernel View
small_kernel = record {
  socket = λ v. (some 3, fresh);
  setsockopt = λ v fd opt. (true, v);
  bind = λ v fd a.
      if ltb (htons a.sin_port) 1024 then (false, v) else (true, record v { bound = some a });
  listen = λ v fd n. (true, record v { listening = true });
}

abbrev small_ctl : View → CtlOp → ℕ → ℕ → Bool × View
small_ctl v op fd ev = (true, record v { watched = some ev })

small-Documented : Documented small_kernel small_ctl (λ v fd. v)
small-Documented = record {
  socket_new = λ k fd e. refl;
  option_keeps = λ k fd opt. refl;
  bind_done = λ k fd a. elim (Bool-cases (ltb (htons a.sin_port) 1024)) [
    | inl taken ↦ rw taken refl
    | inr free ↦ rw free refl
  ];
  listen_done = λ k fd n. refl;
  add_done = λ k fd ev e. refl;
}

-- No text is an address.
abbrev no_address : List ℕ → Option (List ℕ)
no_address ip = none

-- The port 80 is taken: the constructor returns all the same, and only the log tells.
create_lem_example :
    (a : Acceptor) × (k' : View) × (log : List Line) × (create small_kernel small_ctl no_address
        (λ bytes. bytes)
        fresh
        (0 ∷ [])
        []
        80
      ≡ some (a, k', log))
    × (a.psocket.port ≡ 80)
    × (k' ≡ record {
      bound = if says_bind log then none else some (address no_address (0 ∷ []) [] 80);
      listening = not (says_listen log);
      watched = some epollin;
    })
create_lem_example =
    create_lem small_kernel small_ctl no_address (λ bytes. bytes) (λ v fd. v) small-Documented fresh
      3 (0 ∷ []) [] 80 refl (omega arith)
