-- ===== src/Channel/Registration.antt =====
-- A Channel (src/Channel.cpp) and the interest list of the kernel.
use mathlib.Core.Option
use reactor_network_library.Prelude.{
  ℕ, ◌≡◌, refl, ap, ◌∙◌, Bool, true, false, ◌&&◌, Option, none, some, List, [], ◌∷◌, bit_and,
  bit_or,
}
use reactor_network_library.Channel.{
  CtlOp, Channel, setepollet, updatechannel, enablereading, disablereading, enablewriting,
  disablewriting, disableall, remove, epollin, epollout, epollet, complement,
}
use reactor_network_library.Channel.Kernel.{Documented}
use reactor_network_library.Channel.Flags.{
  Switches, encode, bits-enable_in, bits-disable_in, bits-enable_out, bits-disable_out, bits-edge,
}

abbrev is_some {ℓ} : {A : Type ℓ} → Option A → Bool
is_some none = false
is_some (some a) = true

-- The calls of the library on a Channel that change what is watched.
pub data Call : Type 0 where
  reads_on reads_off writes_on writes_off all_off edge_on : Call

module _ {K : Type 0} (ctl : K → CtlOp → ℕ → ℕ → Bool × K) where
  unfoldable pub call : Call → K → Channel → Bool × K × Channel
  call reads_on k c = enablereading ctl k c
  call reads_off k c = disablereading ctl k c
  call writes_on k c = enablewriting ctl k c
  call writes_off k c = disablewriting ctl k c
  call all_off k c = disableall ctl k c
  call edge_on k c = (true, k, setepollet c)

  -- The calls in order, and whether every `epoll_ctl` succeeded.
  unfoldable pub run : List Call → K → Channel → Bool × K × Channel
  run [] k c = (true, k, c)
  run (x ∷ xs) k c =
      let (done, k', c') = call x k c in
      let (rest, k'', c'') = run xs k' c' in (done && rest, k'', c'')

-- The specification: the switches, and those that the kernel was last told.
abbrev pub turn : Call → Switches → Switches
turn reads_on s = record s { reading = true }
turn reads_off s = record s { reading = false }
turn writes_on s = record s { writing = true }
turn writes_off s = record s { writing = false }
turn all_off s = record { reading = false; writing = false; edge = false }
turn edge_on s = record s { edge = true }

unfoldable pub turns : List Call → Switches → Switches
turns [] s = s
turns (x ∷ xs) s = turns xs (turn x s)

-- The switches that the kernel watches: those after the last call that told it.
unfoldable pub told : List Call → Switches → Option Switches → Option Switches
told [] s watched = watched
told (edge_on ∷ xs) s watched = told xs (turn edge_on s) watched
told (x ∷ xs) s watched = told xs (turn x s) (some (turn x s))

module _ {K : Type 0} (ctl : K → CtlOp → ℕ → ℕ → Bool × K) (registered : K → ℕ → Option ℕ)
    (doc : Documented ctl registered) where
  pub record InStep (k : K) (c : Channel) (s : Switches) (watched : Option Switches) : Type 0 where
    pub switches : c.events ≡ encode s
    pub interest : registered k c.fd ≡ Option.map encode watched
    pub flag : c.isinepoll ≡ is_some watched

  -- One `updatechannel` of a Channel whose mask has become `t`.
  pub update-InStep :
      (k : K) (c : Channel) (t : Switches) (watched : Option Switches)
      → registered k c.fd ≡ Option.map encode watched
      → c.isinepoll ≡ is_some watched
      → c.events ≡ encode t
      → let (done, k', c') = updatechannel ctl k c in (done ≡ true) × InStep k' c' t (some t)
  unfolding updatechannel
  update-InStep k c t none e f g =
      let (done, at) = doc.add_new k c.fd c.events e in
      rw f (done, record { switches = g; interest = at ∙ ap some g; flag = refl })
  update-InStep k c t (some old) e f g =
      let (done, at) = doc.mod_old k c.fd c.events (encode old) e in
      rw f (done, record { switches = g; interest = at ∙ ap some g; flag = refl })

  abbrev pub after : Call → Switches → Option Switches → Option Switches
  after edge_on s watched = watched
  after x s watched = some (turn x s)

  pub call-InStep :
      (x : Call) (k : K) (c : Channel) (s : Switches) (watched : Option Switches)
      → InStep k c s watched
      → let (done, k', c') = call ctl x k c in
        (done ≡ true) × InStep k' c' (turn x s) (after x s watched)
  unfolding call enablereading disablereading enablewriting disablewriting disableall setepollet
  call-InStep reads_on k c s watched v =
      update-InStep k _ (turn reads_on s) watched v.interest v.flag
        (ap (λ e. bit_or e epollin) v.switches ∙ bits-enable_in s.reading s.writing s.edge)
  call-InStep reads_off k c s watched v =
      update-InStep k _ (turn reads_off s) watched v.interest v.flag (
        ap (λ e. bit_and e (complement epollin)) v.switches
        ∙ bits-disable_in s.reading s.writing s.edge)
  call-InStep writes_on k c s watched v =
      update-InStep k _ (turn writes_on s) watched v.interest v.flag
        (ap (λ e. bit_or e epollout) v.switches ∙ bits-enable_out s.reading s.writing s.edge)
  call-InStep writes_off k c s watched v =
      update-InStep k _ (turn writes_off s) watched v.interest v.flag (
        ap (λ e. bit_and e (complement epollout)) v.switches
        ∙ bits-disable_out s.reading s.writing s.edge)
  call-InStep all_off k c s watched v =
      update-InStep k _ (turn all_off s) watched v.interest v.flag refl
  call-InStep edge_on k c s watched v = (
    refl,
    record {
      switches = ap (λ e. bit_or e epollet) v.switches ∙ bits-edge s.reading s.writing s.edge;
      interest = v.interest;
      flag = v.flag;
    },
  )

  told-cons :
      (x : Call) (xs : List Call) (s : Switches) (watched : Option Switches)
      → told (x ∷ xs) s watched ≡ told xs (turn x s) (after x s watched)
  unfolding told
  told-cons edge_on xs s watched = refl
  told-cons _ xs s watched = refl

  pub run-InStep :
      (xs : List Call) (k : K) (c : Channel) (s : Switches) (watched : Option Switches)
      → InStep k c s watched
      → let (done, k', c') = run ctl xs k c in
        (done ≡ true) × InStep k' c' (turns xs s) (told xs s watched)
  unfolding run turns
  run-InStep [] k c s watched v = (refl, unfold told in v)
  run-InStep (x ∷ xs) k c s watched v =
      let (done, v') = call-InStep x k c s watched v in
      let (rest, v'') = run-InStep xs _ _ (turn x s) (after x s watched) v' in
      (rw done rest, rw told-cons v'')

  -- A Channel that believes itself in the epoll, and is not.
  stale-update :
      (k : K) (c : Channel)
      → registered k c.fd ≡ none
      → c.isinepoll ≡ true
      → (updatechannel ctl k c).0 ≡ false
  unfolding updatechannel
  stale-update k c out f = rw f (doc.mod_new k c.fd c.events out).0

  -- `remove` always takes the descriptor out of the interest list, but leaves the Channel believing
  -- that it is in the epoll. So every later attempt to watch it fails: EPOLL_CTL_MOD of a descriptor
  -- that is not registered.
  pub remove_stale :
      (k : K) (c : Channel) (s : Switches) (watched : Option Switches)
      → InStep k c s watched
      → let (done, k', c') = remove ctl k c in
        (done ≡ true)
        × (registered k' c'.fd ≡ none)
        × (c'.isinepoll ≡ true)
        × ((enablereading ctl k' c').0 ≡ false)
        × ((enablewriting ctl k' c').0 ≡ false)
  unfolding remove call enablereading enablewriting
  remove_stale k c s watched v =
      let (done, w) = call-InStep all_off k c s watched v in
      let (gone, out) = doc.del_old _ _ _ w.interest in
      (rw done gone, out, w.flag, stale-update _ _ out w.flag, stale-update _ _ out w.flag)
