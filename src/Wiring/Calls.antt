-- ===== src/Wiring/Calls.antt =====
-- No call of the library calls an empty function, and which functions they reach.
use reactor_network_library.Prelude.{
  ℕ, ◌≡◌, ◌⊎◌, inl, inr, refl, sym, ap, ◌∙◌, Bool, true, false, some, List, [], ◌∷◌, ◌++◌,
  replicate, append-nil, get_elem?, ◌||◌, if◌then◌else◌, subst,
}
use reactor_network_library.Channel.{readevent, writeevent, create, handleevents, sethappenevents}
use reactor_network_library.Channel.Dispatch.{Report, report_bits, handleevents_lem}
use reactor_network_library.Wiring.{
  setreadeventcb, Handler, loop_handle_wake_up, loop_handle_timer, connection_onmessage,
  connection_sendto, acceptor_onconnect, server_createconnection, server_eventlooptimeout,
  server_remove_timeout_connection, server_deleteconnection, server_handlemessage,
  server_sendcomplete, echo_handle_new_connection, echo_handle_delete_connection,
  echo_handle_event_loop_timeout, echo_handle_on_message, echo_handle_send_complete, LoopCalls,
  ChannelCalls, ServerCalls, new_loop, new_sub_loop, new_acceptor, setonconnectcb, sethandletimeout,
  new_echo_server, created_connection,
}
use reactor_network_library.Wiring.Reached.{
  Site, wakes, ticks, accepts, serves, times_out, deletes, reached, lead_all, lead,
}
use reactor_network_library.Wiring.Stored.{
  main_loop, wired, new_echo_server_lem, get_elem?-replicate,
}

-- The main loop, or a loop as it was when a thread got it.
abbrev pub IsLoop : ServerCalls → LoopCalls → Type 0
IsLoop s l = (l ≡ s.mainloop) ⊎ ((i : ℕ) × (get_elem? s.running i ≡ some l))

-- A report of a descriptor that was watched for reading alone.
abbrev pub IsReadReport : Report → Type 0
IsReadReport r = (r.rdhup ≡ false) × (r.priority ≡ false) × (r.output ≡ false)

-- What may happen on a loop. The Acceptor is on the main loop, the Connections on the others; no
-- Channel asks for EPOLLRDHUP or EPOLLPRI, and those of a loop and of the Acceptor not for EPOLLOUT.
abbrev pub May : LoopCalls → Site → Type 0
May l (wakes r) = IsReadReport r
May l (ticks r) = IsReadReport r
May l (accepts r) = (l.ismainloop ≡ true) × IsReadReport r
May l (serves r) = (l.ismainloop ≡ false) × (r.rdhup ≡ false) × (r.priority ≡ false)
May l times_out = Unit {0}
May l deletes = l.ismainloop ≡ false

-- The functions that are due, with the EchoServer's.
abbrev pub due : Bool → Site → List Handler
due is_main (wakes r) = if r.input then loop_handle_wake_up ∷ [] else []
due is_main (ticks r) =
    if r.input
    then loop_handle_timer ∷ (if is_main then [] else server_remove_timeout_connection ∷ [])
    else []
due is_main (accepts r) =
    if r.input
    then acceptor_onconnect ∷ server_createconnection ∷ echo_handle_new_connection ∷ []
    else []
due is_main (serves r) =
    (if r.input
      then connection_onmessage ∷ server_handlemessage ∷ echo_handle_on_message ∷ []
      else [])
    ++ (if r.output
        then connection_sendto ∷ server_sendcomplete ∷ echo_handle_send_complete ∷ []
        else [])
due is_main times_out = server_eventlooptimeout ∷ echo_handle_event_loop_timeout ∷ []
due is_main deletes = server_deleteconnection ∷ echo_handle_delete_connection ∷ []

one_branch :
    (b : Bool)
    → (if b || false then readevent ∷ [] else []) ++ [] ≡ (if b then readevent ∷ [] else [])
one_branch true = refl
one_branch false = refl

read_callbacks :
    (r : Report)
    → IsReadReport r
    → handleevents (sethappenevents (create 0) (report_bits r))
      ≡ (if r.input then readevent ∷ [] else [])
read_callbacks r h = handleevents_lem (create 0) r ∙ rw (h.0, h.1, h.2) (one_branch r.input)

client_callbacks :
    (r : Report)
    → r.rdhup ≡ false
    → r.priority ≡ false
    → handleevents (sethappenevents (create 0) (report_bits r))
      ≡ (if r.input then readevent ∷ [] else []) ++ (if r.output then writeevent ∷ [] else [])
client_callbacks r h k = handleevents_lem (create 0) r ∙ rw (h, k) (two_branches r.input r.output)
  where
    two_branches :
        (b w : Bool)
        → (if b || false then readevent ∷ [] else []) ++ (if w then writeevent ∷ [] else [])
          ≡ (if b then readevent ∷ [] else []) ++ (if w then writeevent ∷ [] else [])
    two_branches true w = refl
    two_branches false w = refl

-- A Channel that was watched for reading alone.
read_lead :
    (s : ServerCalls) (l : LoopCalls) (c : ChannelCalls) (hs : List Handler) (r : Report)
    → lead s l c.readeventcb ≡ some hs
    → IsReadReport r
    → lead_all s l c (handleevents (sethappenevents (create 0) (report_bits r)))
      ≡ some (if r.input then hs else [])
unfolding lead_all
read_lead s l c hs r e h = ap (lead_all s l c) (read_callbacks r h) ∙ by_input r.input
  where
    by_input :
        (b : Bool) → lead_all s l c (if b then readevent ∷ [] else []) ≡ some (if b then hs else [])
    by_input true = rw (e, lead_all) (ap some (append-nil hs))
    by_input false = refl

-- A Channel of a Connection.
client_lead :
    (s : ServerCalls) (l : LoopCalls) (c : ChannelCalls) (hs ws : List Handler) (r : Report)
    → lead s l c.readeventcb ≡ some hs
    → lead s l c.writeeventcb ≡ some ws
    → r.rdhup ≡ false
    → r.priority ≡ false
    → lead_all s l c (handleevents (sethappenevents (create 0) (report_bits r)))
      ≡ some ((if r.input then hs else []) ++ (if r.output then ws else []))
unfolding lead_all
client_lead s l c hs ws r e f h k =
    ap (lead_all s l c) (client_callbacks r h k) ∙ by_bits r.input r.output
  where
    by_bits :
        (b w : Bool)
        → lead_all s l c ((if b then readevent ∷ [] else []) ++ (if w then writeevent ∷ [] else []))
          ≡ some ((if b then hs else []) ++ (if w then ws else []))
    by_bits true true = rw (e, f, lead_all) (ap (λ u. some (hs ++ u)) (append-nil ws))
    by_bits true false = rw (e, lead_all) refl
    by_bits false true = rw (f, lead_all) (ap some (append-nil ws))
    by_bits false false = refl

main_reached :
    (loops : List LoopCalls) (x : Site)
    → May main_loop x
    → reached (wired loops) main_loop x ≡ some (due true x)
unfolding reached new_loop sethandletimeout setonconnectcb new_acceptor setreadeventcb
main_reached loops (wakes r) h = read_lead (wired loops) main_loop main_loop.wakechannel _ r refl h
main_reached loops (ticks r) h = read_lead (wired loops) main_loop main_loop.timerchannel _ r refl h
main_reached loops (accepts r) h =
    read_lead (wired loops) main_loop (wired loops).acceptor.channel _ r refl h.1
main_reached loops (serves r) h = cc
main_reached loops times_out h = refl
main_reached loops deletes h = cc

sub_reached :
    (loops : List LoopCalls) (x : Site)
    → May new_sub_loop x
    → reached (wired loops) new_sub_loop x ≡ some (due false x)
unfolding reached new_sub_loop created_connection setreadeventcb setonconnectcb sethandletimeout
sub_reached loops (wakes r) h =
    read_lead (wired loops) new_sub_loop new_sub_loop.wakechannel _ r refl h
sub_reached loops (ticks r) h =
    read_lead (wired loops) new_sub_loop new_sub_loop.timerchannel _ r refl h
sub_reached loops (accepts r) h = cc
sub_reached loops (serves r) h =
    client_lead (wired loops) new_sub_loop created_connection.channel _ _ r refl refl h.1 h.2
sub_reached loops times_out h = refl
sub_reached loops deletes h = refl

IsLoop-cases :
    (nums : ℕ) (l : LoopCalls)
    → IsLoop (wired (replicate nums new_sub_loop)) l
    → (l ≡ main_loop) ⊎ (l ≡ new_sub_loop)
unfolding setonconnectcb sethandletimeout
IsLoop-cases nums l (inl e) = inl e
IsLoop-cases nums l (inr (i, e)) = inr (get_elem?-replicate nums i new_sub_loop l e)

-- After the constructor of an EchoServer, on the main loop and on every sub-loop as its thread got it,
-- whatever a Channel is told, by a kernel that reports no event that was not asked for: no empty
-- function is called, and the functions called are, in order, those that the event is for, down to the
-- EchoServer's. The Acceptor is on the main loop, the Connections are on the others.
pub reached_lem :
    (nums : ℕ) (l : LoopCalls) (x : Site)
    → IsLoop (new_echo_server nums) l
    → May l x
    → reached (new_echo_server nums) l x ≡ some (due l.ismainloop x)
unfolding sethandletimeout setonconnectcb new_loop new_sub_loop
reached_lem nums l x is_loop may =
    subst (λ s. IsLoop s l → reached s l x ≡ some (due l.ismainloop x))
      (sym (new_echo_server_lem nums)) at_wired is_loop
  where
    loops : List LoopCalls
    loops = replicate nums new_sub_loop

    at_wired : IsLoop (wired loops) l → reached (wired loops) l x ≡ some (due l.ismainloop x)
    at_wired is_loop = elim (IsLoop-cases nums l is_loop) [
      | inl main ↦
          subst (λ l. May l x → reached (wired loops) l x ≡ some (due l.ismainloop x)) (sym main)
            (main_reached loops x) may
      | inr sub ↦
          subst (λ l. May l x → reached (wired loops) l x ≡ some (due l.ismainloop x)) (sym sub)
            (sub_reached loops x) may
    ]
