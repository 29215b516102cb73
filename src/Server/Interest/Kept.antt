-- ===== src/Server/Interest/Kept.antt =====
-- A call of the Channel of a Connection in the map (src/Connection.cpp).
use reactor_network_library.Prelude.{
  ℕ, ◌%◌, ◌<◌, ◌≤◌, ◌≡◌, refl, sym, ap, ◌∙◌, subst, inl, inr, Bool, true, false, Option, none, some,
  List, arith, ◌==◌, if◌then◌else◌, lookup, Bool-cases, ==_iff, ==_refl,
}
use reactor_network_library.Channel.{
  Channel, setepollet, enablereading, enablewriting, disablewriting, disablereading, disableall,
}
use reactor_network_library.Channel.Kernel.{Kernel}
use reactor_network_library.Channel.Flags.{Switches}
use reactor_network_library.Channel.Registration.{
  InStep, Call, reads_on, reads_off, writes_on, writes_off, all_off, edge_on, call, after, turn,
  call-InStep,
}
use reactor_network_library.Server.Interest.{Watch, set_at, on_channel}
use reactor_network_library.Server.Interest.Change.{
  set_at-same, updatechannel-fd, updatechannel-others, IsLive, IsWatched, changed,
  changed-IsWatched,
}

some-eq : {x y : ℕ} → some x ≡ some y → x ≡ y
some-eq q = cc

module _ {K : Type 0} (epoll : Kernel K) (n : ℕ) (base : ℕ → ℕ → Option ℕ) where
  -- A call of the Channel `c` of descriptor `fd`, on the epoll of its loop.
  abbrev pub at_channel : (K → Channel → Bool × K × Channel) → Watch K → ℕ → ℕ → Bool × Watch K
  at_channel op w conn fd =
      let (done, k, c) = op (w.epolls (fd % n)) (w.channels conn) in
      (done, record { epolls = set_at w.epolls (fd % n) k; channels = set_at w.channels conn c })

  pub on_channel_lem :
      (op : K → Channel → Bool × K × Channel) (w : Watch K) (conn fd : ℕ)
      → (w.channels conn).fd ≡ fd
      → on_channel op n w conn ≡ at_channel op w conn fd
  unfolding on_channel
  on_channel_lem op w conn fd e = ap (at_channel op w conn) e

  keeps_fd : (x : Call) (k : K) (c : Channel) → (call epoll.ctl x k c).2.fd ≡ c.fd
  unfolding call enablereading disablereading enablewriting disablewriting disableall setepollet
  keeps_fd reads_on k c = updatechannel-fd epoll.ctl epoll.registered epoll.own k _
  keeps_fd reads_off k c = updatechannel-fd epoll.ctl epoll.registered epoll.own k _
  keeps_fd writes_on k c = updatechannel-fd epoll.ctl epoll.registered epoll.own k _
  keeps_fd writes_off k c = updatechannel-fd epoll.ctl epoll.registered epoll.own k _
  keeps_fd all_off k c = updatechannel-fd epoll.ctl epoll.registered epoll.own k _
  keeps_fd edge_on k c = refl

  keeps_others :
      (x : Call) (k : K) (c : Channel) (other : ℕ)
      → (c.fd == other) ≡ false
      → epoll.registered (call epoll.ctl x k c).1 other ≡ epoll.registered k other
  unfolding call enablereading disablereading enablewriting disablewriting disableall setepollet
  keeps_others reads_on k c other h =
      updatechannel-others epoll.ctl epoll.registered epoll.own k _ other h
  keeps_others reads_off k c other h =
      updatechannel-others epoll.ctl epoll.registered epoll.own k _ other h
  keeps_others writes_on k c other h =
      updatechannel-others epoll.ctl epoll.registered epoll.own k _ other h
  keeps_others writes_off k c other h =
      updatechannel-others epoll.ctl epoll.registered epoll.own k _ other h
  keeps_others all_off k c other h =
      updatechannel-others epoll.ctl epoll.registered epoll.own k _ other h
  keeps_others edge_on k c other h = refl

  -- A call that keeps a live Connection live, in a map where `fd` has it.
  pub call-IsWatched :
      (x : Call) (m m' : List (ℕ × ℕ)) (next next' : ℕ) (w : Watch K) (fd conn : ℕ) (s : Switches)
      (watched : Option Switches)
      → IsWatched epoll n base m next w
      → next ≤ next'
      → conn < next'
      → base (fd % n) fd ≡ none
      → (w.channels conn).fd ≡ fd
      → InStep epoll.ctl epoll.registered epoll.documented
          (w.epolls (fd % n))
          (w.channels conn)
          s
          watched
      → after epoll.ctl epoll.registered epoll.documented x s watched ≡ some (turn x s)
      → (turn x s).reading ≡ true
      → (turn x s).edge ≡ true
      → ((j : ℕ) → lookup j m' ≡ (if fd == j then some conn else lookup j m))
      → let (done, v) = on_channel (call epoll.ctl x) n w conn in
        (done ≡ true) × IsWatched epoll n base m' next' v
  call-IsWatched x m m' next next' w fd conn s watched v more below free its step tells reads edge
        at =
      let k = w.epolls (fd % n) in
      let c = w.channels conn in
      let (done, stepped) =
        call-InStep epoll.ctl epoll.registered epoll.documented x k c s watched step in
      let k' = (call epoll.ctl x k c).1 in
      let c' = (call epoll.ctl x k c).2 in
      let apart = λ (other : ℕ) (h : (fd == other) ≡ false).
        keeps_others x k c other (ap (λ j. j == other) its ∙ h) in
      let at_conn : set_at w.channels conn c' conn ≡ c' =
        set_at-same w.channels conn conn c' (==_refl conn) in
      let at_loop : set_at w.epolls (fd % n) k' (fd % n) ≡ k' =
        set_at-same w.epolls (fd % n) (fd % n) k' (==_refl _) in
      let after_call = changed epoll n base w conn fd k' c' its apart in
      let live : IsLive epoll n base after_call fd conn = record {
        of_socket = ap (λ y. y.fd) at_conn ∙ keeps_fd x k c ∙ its;
        free = free;
        told = turn x s;
        reading = reads;
        edge = edge;
        in_step =
            subst
              (λ y.
                InStep epoll.ctl epoll.registered epoll.documented y
                  (set_at w.channels conn c' conn) (turn x s) (some (turn x s)))
              (sym at_loop)
              (subst
                (λ y.
                  InStep epoll.ctl epoll.registered epoll.documented k' y (turn x s)
                    (some (turn x s)))
                (sym at_conn)
                (subst (InStep epoll.ctl epoll.registered epoll.documented k' c' (turn x s)) tells
                  stepped));
      } in
      subst (λ y. (y.0 ≡ true) × IsWatched epoll n base m' next' y.1)
        (sym (on_channel_lem (call epoll.ctl x) w conn fd its))
        (
          done,
          changed-IsWatched epoll n base w conn fd k' c' its apart m m' next next' (some conn) v
              more at
              (λ conn' q.
                subst (λ i. (i < next') × IsLive epoll n base after_call fd i) (some-eq q)
                  (below, live))
              (λ q. cc),
        )

  -- A Connection in the map starts or stops asking for room to write.
  live_call :
      (x : Call) (m : List (ℕ × ℕ)) (next : ℕ) (w : Watch K) (fd conn : ℕ)
      → ((s : Switches)
          → (after epoll.ctl epoll.registered epoll.documented x s (some s) ≡ some (turn x s))
            × ((turn x s).reading ≡ s.reading)
            × ((turn x s).edge ≡ s.edge))
      → IsWatched epoll n base m next w
      → lookup fd m ≡ some conn
      → let (done, v) = on_channel (call epoll.ctl x) n w conn in
        (done ≡ true) × IsWatched epoll n base m next v
  live_call x m next w fd conn writes v e =
      let (below, live) = v.live fd conn e in
      let (tells, reads, edge) = writes live.told in
      call-IsWatched x m m next next w fd conn live.told (some live.told) v (omega arith) below
        live.free live.of_socket live.in_step tells (reads ∙ live.reading) (edge ∙ live.edge)
        λ j. elim (Bool-cases (fd == j)) [
          | inl same ↦ rw same (ap (λ i. lookup i m) (sym ((==_iff _ _).0 same)) ∙ e)
          | inr apart ↦ rw apart refl
        ]

  pub writes_on-IsWatched :
      (m : List (ℕ × ℕ)) (next : ℕ) (w : Watch K) (fd conn : ℕ)
      → IsWatched epoll n base m next w
      → lookup fd m ≡ some conn
      → let (done, v) = on_channel (enablewriting epoll.ctl) n w conn in
        (done ≡ true) × IsWatched epoll n base m next v
  unfolding call
  writes_on-IsWatched m next w fd conn =
      live_call writes_on m next w fd conn λ s. (refl, refl, refl)

  pub writes_off-IsWatched :
      (m : List (ℕ × ℕ)) (next : ℕ) (w : Watch K) (fd conn : ℕ)
      → IsWatched epoll n base m next w
      → lookup fd m ≡ some conn
      → let (done, v) = on_channel (disablewriting epoll.ctl) n w conn in
        (done ≡ true) × IsWatched epoll n base m next v
  unfolding call
  writes_off-IsWatched m next w fd conn =
      live_call writes_off m next w fd conn λ s. (refl, refl, refl)
