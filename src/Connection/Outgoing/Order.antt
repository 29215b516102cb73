-- ===== src/Connection/Outgoing/Order.antt =====
-- Order and completeness of what a Connection sends.
use reactor_network_library.Prelude.{
  ℕ, ◌≡◌, refl, ap, ◌∙◌, subst, Bool, true, false, none, some, List, [], ◌∷◌, ◌++◌, append_assoc,
}
use reactor_network_library.Connection.Outgoing.{
  Outgoing, Event, step, run, offer, offers, AllAllowed,
}
use reactor_network_library.Connection.Outgoing.Steps.{IsOrdered, no_more, step-Orders}

offers-cons :
    (here : Bool) (s : Outgoing) (e : Event) (es : List Event) (sent : List (List ℕ)) {t : Outgoing}
    → step s e ≡ some t
    → (sent ++ offer here s e) ++ offers here t es ≡ sent ++ offers here s (e ∷ es)
unfolding offers
offers-cons here s e es sent {t} now =
    append_assoc sent (offer here s e) (offers here t es)
    ∙ ap (λ u. sent ++ u) (rw (now, offers) refl)

-- Any events: messages are sent on the loop's thread (`local`) and on others (`remote`), tasks run, the
-- socket takes bytes. The run comes to an end, and what the kernel took, with what waits in the output
-- buffer, is the messages written so far, whole: those of the loop's thread in their order, and between
-- them those of the others in theirs, less the ones whose tasks still wait. While bytes wait, the
-- Channel watches for room to write. A message sent after the connection was marked closed does not
-- count. Memory is to suffice, and the kernel to answer and to take no more than it is given.
pub run-IsOrdered :
    (es : List Event) (s : Outgoing) {local remote : List (List ℕ)}
    → AllAllowed s es
    → IsOrdered s local remote
    → (t : Outgoing) × (run s es ≡ some t)
      × IsOrdered t (local ++ offers true s es) (remote ++ offers false s es)
unfolding run offers
run-IsOrdered [] s ok v = (s, refl, no_more v)
run-IsOrdered (e ∷ es) s {local} {remote} ok v =
    let (t, now, w) = step-Orders e {s = s} ok.0 v in
    let fed : AllAllowed t es =
      subst (λ r. elim r [ none ↦ Unit {0} | some t ↦ AllAllowed t es ]) now ok.1 in
    let (u, later, z) = run-IsOrdered es t fed w in
    (
      u,
      rw (now, run) later,
      subst (λ l. IsOrdered u l (remote ++ offers false s (e ∷ es)))
          (offers-cons true s e es local now)
          (subst (λ r. IsOrdered u ((local ++ offer true s e) ++ offers true t es) r)
            (offers-cons false s e es remote now) z),
    )
