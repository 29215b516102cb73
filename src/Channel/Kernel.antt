-- ===== src/Channel/Kernel.antt =====
-- What epoll_ctl(2) documents of an interest list, as far as the library relies on it.
pub mod Listed
use reactor_network_library.Prelude.{ℕ, ◌≡◌, Bool, true, false, Option, none, some, ◌==◌}
use reactor_network_library.Channel.{CtlOp, ctl_add, ctl_mod, ctl_del}

-- `registered k fd` is the event mask under which `fd` is in the interest list. EEXIST and ENOENT are
-- the failures; memory and the limit of watches suffice.
pub record Documented {K : Type 0} (ctl : K → CtlOp → ℕ → ℕ → Bool × K)
    (registered : K → ℕ → Option ℕ) : Type 0 where
  pub add_new :
      (k : K) (fd ev : ℕ)
      → registered k fd ≡ none
      → ((ctl k ctl_add fd ev).0 ≡ true) × (registered (ctl k ctl_add fd ev).1 fd ≡ some ev)
  pub mod_old :
      (k : K) (fd ev old : ℕ)
      → registered k fd ≡ some old
      → ((ctl k ctl_mod fd ev).0 ≡ true) × (registered (ctl k ctl_mod fd ev).1 fd ≡ some ev)
  pub mod_new :
      (k : K) (fd ev : ℕ)
      → registered k fd ≡ none
      → ((ctl k ctl_mod fd ev).0 ≡ false) × (registered (ctl k ctl_mod fd ev).1 fd ≡ none)
  pub del_old :
      (k : K) (fd old : ℕ)
      → registered k fd ≡ some old
      → ((ctl k ctl_del fd 0).0 ≡ true) × (registered (ctl k ctl_del fd 0).1 fd ≡ none)

-- A call changes the interest of its own descriptor alone.
pub record OwnDescriptor {K : Type 0} (ctl : K → CtlOp → ℕ → ℕ → Bool × K)
    (registered : K → ℕ → Option ℕ) : Type 0 where
  pub others :
      (k : K) (op : CtlOp) (fd ev other : ℕ)
      → (fd == other) ≡ false
      → registered (ctl k op fd ev).1 other ≡ registered k other

-- Both together: a kernel that the library can rely on.
pub record Kernel (K : Type 0) : Type 0 where
  pub ctl : K → CtlOp → ℕ → ℕ → Bool × K
  pub registered : K → ℕ → Option ℕ
  pub documented : Documented ctl registered
  pub own : OwnDescriptor ctl registered
