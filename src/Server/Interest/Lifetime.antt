-- ===== src/Server/Interest/Lifetime.antt =====
-- The construction and the destruction of a Connection (src/Connection.cpp) against the epoll of its loop.
use reactor_network_library.Prelude.{
  ℕ, ◌+◌, ◌%◌, ◌≡◌, refl, sym, ap, ◌∙◌, subst, true, false, Option, none, some, List, arith, ◌==◌,
  lookup, insert, erase, lookup-insert, lookup-erase, ==_refl,
}
use reactor_network_library.Channel.{create, setepollet, remove}
use reactor_network_library.Channel.Kernel.{Kernel}
use reactor_network_library.Channel.Registration.{InStep, reads_on, call, remove_stale}
use reactor_network_library.Server.{adds_to_epoll, destroys}
use reactor_network_library.Server.Interest.{Watch, set_at, construct, connection_channel, perform}
use reactor_network_library.Server.Interest.Change.{
  set_at-same, set_at-other, remove-fd, remove-others, IsWatched, changed-IsWatched,
}
use reactor_network_library.Server.Interest.Kept.{on_channel_lem, call-IsWatched}

module _ {K : Type 0} (epoll : Kernel K) (n : ℕ) (base : ℕ → ℕ → Option ℕ) where
  -- `~Connection` of the Connection of `fd`, which leaves the map.
  pub destroys-IsWatched :
      (m : List (ℕ × ℕ)) (next : ℕ) (w : Watch K) (fd conn : ℕ)
      → IsWatched epoll n base m next w
      → lookup fd m ≡ some conn
      → let (done, v) = perform epoll.ctl n w (destroys conn) in
        (done ≡ true) × IsWatched epoll n base (erase fd m) next v
  unfolding perform
  destroys-IsWatched m next w fd conn v e =
      let (below, live) = v.live fd conn e in
      let its = live.of_socket in
      let c = w.channels conn in
      let k = w.epolls (fd % n) in
      let (done, out, flag, r, u) =
        remove_stale epoll.ctl epoll.registered epoll.documented k c live.told (some live.told)
          live.in_step in
      subst (λ x. (x.0 ≡ true) × IsWatched epoll n base (erase fd m) next x.1)
        (sym (on_channel_lem epoll n base (remove epoll.ctl) w conn fd its))
        (
          done,
          changed-IsWatched epoll n base w conn fd (remove epoll.ctl k c).1 (remove epoll.ctl k c).2
              its
              (λ other h.
                remove-others epoll.ctl epoll.registered epoll.own k c other
                  (ap (λ j. j == other) its ∙ h))
              m (erase fd m) next next none v (omega arith) (λ j. lookup-erase fd j m)
              (λ conn' q. cc)
              (λ q.
                ap (epoll.registered (remove epoll.ctl k c).1)
                  (sym (remove-fd epoll.ctl epoll.registered epoll.own k c ∙ its))
                ∙ out
                ∙ sym live.free),
        )

  construct-IsWatched :
      (m : List (ℕ × ℕ)) (next : ℕ) (w : Watch K) (fd : ℕ)
      → IsWatched epoll n base m next w
      → IsWatched epoll n base m next (construct w next fd)
  unfolding construct
  construct-IsWatched m next w fd v = record {
    live = λ j conn e.
        let (below, live) = v.live j conn e in
        let new : (next == conn) ≡ false = ground arith in
        let kept : set_at w.channels next (connection_channel fd) conn ≡ w.channels conn =
          set_at-other w.channels next conn (connection_channel fd) new in
        (
          below,
          record {
            of_socket = ap (λ c. c.fd) kept ∙ live.of_socket;
            free = live.free;
            told = live.told;
            reading = live.reading;
            edge = live.edge;
            in_step =
                subst
                  (λ c.
                    InStep epoll.ctl epoll.registered epoll.documented (w.epolls (j % n)) c
                      live.told (some live.told))
                  (sym kept) live.in_step;
          },
        );
    absent = v.absent;
    elsewhere = v.elsewhere;
  }

  -- The constructor and `addToEpoll` of a Connection that the map gets.
  pub created-IsWatched :
      (m : List (ℕ × ℕ)) (next : ℕ) (w : Watch K) (fd : ℕ)
      → IsWatched epoll n base m next w
      → lookup fd m ≡ none
      → base (fd % n) fd ≡ none
      → let (done, u) = perform epoll.ctl n (construct w next fd) (adds_to_epoll next) in
        (done ≡ true) × IsWatched epoll n base (insert fd next m) (next + 1) u
  unfolding perform construct call connection_channel setepollet create
  created-IsWatched m next w fd v e free =
      let new : set_at w.channels next (connection_channel fd) next ≡ connection_channel fd =
        set_at-same w.channels next next (connection_channel fd) (==_refl next) in
      call-IsWatched epoll n base reads_on m (insert fd next m) next (next + 1)
        (construct w next fd) fd next (record { reading = false; writing = false; edge = true })
        none (construct-IsWatched m next w fd v) (omega arith) (omega arith) free
        (ap (λ c. c.fd) new)
        (subst
          (λ c.
            InStep epoll.ctl epoll.registered epoll.documented (w.epolls (fd % n)) c
              (record { reading = false; writing = false; edge = true }) none)
          (sym new) (record { switches = refl; interest = v.absent fd e ∙ free; flag = refl }))
        refl refl refl (λ j. lookup-insert fd j next m)
