-- ===== src/Server/Interest/Change.antt =====
-- A call of one Channel of src/Connection.cpp, and what it leaves of the other Connections.
use reactor_network_library.Prelude.{
  ℕ, ◌%◌, ◌<◌, ◌≤◌, ◌≡◌, refl, sym, ap, ◌∙◌, subst, inl, inr, Bool, true, false, Option, none, some,
  List, arith, ◌==◌, if◌then◌else◌, lookup, Bool-cases, ==_iff, ==_refl,
}
use reactor_network_library.Channel.{CtlOp, Channel, updatechannel, remove, ctl_del}
use reactor_network_library.Channel.Kernel.{OwnDescriptor, Kernel}
use reactor_network_library.Channel.Flags.{Switches}
use reactor_network_library.Channel.Registration.{InStep}
use reactor_network_library.Server.Interest.{Watch, set_at}

pub set_at-same {ℓ} :
    {A : Type ℓ} (f : ℕ → A) (i j : ℕ) (a : A) → (i == j) ≡ true → set_at f i a j ≡ a
unfolding set_at
set_at-same f i j a h = rw h refl

pub set_at-other {ℓ} :
    {A : Type ℓ} (f : ℕ → A) (i j : ℕ) (a : A) → (i == j) ≡ false → set_at f i a j ≡ f j
unfolding set_at
set_at-other f i j a h = rw h refl

module _ {K : Type 0} (ctl : K → CtlOp → ℕ → ℕ → Bool × K) (registered : K → ℕ → Option ℕ)
    (own : OwnDescriptor ctl registered) where
  pub updatechannel-others :
      (k : K) (c : Channel) (other : ℕ)
      → (c.fd == other) ≡ false
      → registered (updatechannel ctl k c).1 other ≡ registered k other
  unfolding updatechannel
  updatechannel-others k c other h = elim (Bool-cases c.isinepoll) [
    | inl there ↦ rw there (own.others k _ c.fd c.events other h)
    | inr new ↦ rw new (own.others k _ c.fd c.events other h)
  ]

  pub updatechannel-fd : (k : K) (c : Channel) → (updatechannel ctl k c).2.fd ≡ c.fd
  unfolding updatechannel
  updatechannel-fd k c = elim (Bool-cases c.isinepoll) [
    | inl there ↦ rw there refl
    | inr new ↦ rw new refl
  ]

  pub remove-fd : (k : K) (c : Channel) → (remove ctl k c).2.fd ≡ c.fd
  unfolding remove
  remove-fd k c = updatechannel-fd k (record c { events = 0 })

  pub remove-others :
      (k : K) (c : Channel) (other : ℕ)
      → (c.fd == other) ≡ false
      → registered (remove ctl k c).1 other ≡ registered k other
  unfolding remove
  remove-others k c other h =
      let off = updatechannel ctl k (record c { events = 0 }) in
      own.others off.1 ctl_del off.2.fd 0 other
        (ap (λ j. j == other) (updatechannel-fd k (record c { events = 0 })) ∙ h)
      ∙ updatechannel-others k (record c { events = 0 }) other h

module _ {K : Type 0} (epoll : Kernel K) (n : ℕ) (base : ℕ → ℕ → Option ℕ) where
  -- `base` is what the epoll of each loop had before any Connection. A Connection that its loop watches
  -- for reading, edge-triggered.
  pub record IsLive (w : Watch K) (fd conn : ℕ) : Type 0 where
    pub of_socket : (w.channels conn).fd ≡ fd
    pub free : base (fd % n) fd ≡ none
    pub told : Switches
    pub reading : told.reading ≡ true
    pub edge : told.edge ≡ true
    pub in_step :
        InStep epoll.ctl epoll.registered epoll.documented
          (w.epolls (fd % n))
          (w.channels conn)
          told
          (some told)

  -- The Connections in the map are live, and no epoll has more than that.
  pub record IsWatched (m : List (ℕ × ℕ)) (next : ℕ) (w : Watch K) : Type 0 where
    pub live : (fd conn : ℕ) → lookup fd m ≡ some conn → (conn < next) × IsLive w fd conn
    pub absent :
        (fd : ℕ) → lookup fd m ≡ none → epoll.registered (w.epolls (fd % n)) fd ≡ base (fd % n) fd
    pub elsewhere :
        (j fd : ℕ) → (j == fd % n) ≡ false → epoll.registered (w.epolls j) fd ≡ base j fd

  -- Connection `conn`, with descriptor `fd`, and what became of its Channel and its loop's epoll.
  module _ (w : Watch K) (conn fd : ℕ) (k : K) (c : Channel) (its : (w.channels conn).fd ≡ fd)
      (others : (other : ℕ)
        → (fd == other) ≡ false
        → epoll.registered k other ≡ epoll.registered (w.epolls (fd % n)) other) where
    abbrev pub changed : Watch K
    changed = record { epolls = set_at w.epolls (fd % n) k; channels = set_at w.channels conn c }

    other_interest :
        (j other : ℕ)
        → (fd == other) ≡ false
        → epoll.registered (changed.epolls j) other ≡ epoll.registered (w.epolls j) other
    other_interest j other h = elim (Bool-cases (fd % n == j)) [
      | inl same ↦
          ap (λ e. epoll.registered e other) (set_at-same w.epolls (fd % n) j k same)
          ∙ others other h
          ∙ ap (λ i. epoll.registered (w.epolls i) other) ((==_iff _ _).0 same)
      | inr apart ↦ ap (λ e. epoll.registered e other) (set_at-other w.epolls (fd % n) j k apart)
    ]

    other_IsLive :
        (other conn' : ℕ)
        → (fd == other) ≡ false
        → IsLive w other conn'
        → IsLive changed other conn'
    other_IsLive other conn' h v = elim (Bool-cases (conn == conn')) [
      | inl same ↦ absurd (mixed same)
      | inr apart ↦
          let kept : set_at w.channels conn c conn' ≡ w.channels conn' =
            set_at-other w.channels conn conn' c apart in
          record {
            of_socket = ap (λ x. x.fd) kept ∙ v.of_socket;
            free = v.free;
            told = v.told;
            reading = v.reading;
            edge = v.edge;
            in_step = record {
              switches = ap (λ x. x.events) kept ∙ v.in_step.switches;
              interest =
                  ap (λ x. epoll.registered (changed.epolls (other % n)) x.fd) kept
                  ∙ other_interest (other % n) (w.channels conn').fd
                      (ap (λ j. fd == j) v.of_socket ∙ h)
                  ∙ v.in_step.interest;
              flag = ap (λ x. x.isinepoll) kept ∙ v.in_step.flag;
            };
          }
    ]
      where
        mixed : (conn == conn') ≡ true → ⊥
        mixed same =
            let e : fd ≡ other =
              sym its ∙ ap (λ i. (w.channels i).fd) ((==_iff _ _).0 same) ∙ v.of_socket in
            let eq : (fd == other) ≡ true = (==_iff _ _).1 e in cc

    -- The map changes at `fd` alone.
    pub changed-IsWatched :
        (m m' : List (ℕ × ℕ)) (next next' : ℕ) (o : Option ℕ)
        → IsWatched m next w
        → next ≤ next'
        → ((j : ℕ) → lookup j m' ≡ (if fd == j then o else lookup j m))
        → ((conn' : ℕ) → o ≡ some conn' → (conn' < next') × IsLive changed fd conn')
        → (o ≡ none → epoll.registered k fd ≡ base (fd % n) fd)
        → IsWatched m' next' changed
    changed-IsWatched m m' next next' o v more at here gone = record {
      live = λ j conn' e. elim (Bool-cases (fd == j)) [
        | inl same ↦
            subst (λ i. (conn' < next') × IsLive changed i conn') ((==_iff _ _).0 same)
              (here conn' (ground (arith, e, at j)))
        | inr apart ↦
            let (below, live) = v.live j conn' (ground (arith, e, at j)) in
            (omega (arith, below), other_IsLive j conn' apart live)
      ];
      absent = λ j e. elim (Bool-cases (fd == j)) [
        | inl same ↦
            subst (λ i. epoll.registered (changed.epolls (i % n)) i ≡ base (i % n) i)
              ((==_iff _ _).0 same)
              (ap (λ e. epoll.registered e fd)
                  (set_at-same w.epolls (fd % n) (fd % n) k (==_refl _))
                ∙ gone (ground (arith, e, at j)))
        | inr apart ↦ other_interest (j % n) j apart ∙ v.absent j (ground (arith, e, at j))
      ];
      elsewhere = λ j other e. elim (Bool-cases (fd == other)) [
        | inl same ↦
            let here : (j == fd % n) ≡ false =
              subst (λ i. (j == i % n) ≡ false) (sym ((==_iff _ _).0 same)) e in
            let away : (fd % n == j) ≡ false = ground arith in
            ap (λ x. epoll.registered x other) (set_at-other w.epolls (fd % n) j k away)
            ∙ v.elsewhere j other e
        | inr apart ↦ other_interest j other apart ∙ v.elsewhere j other e
      ];
    }
