-- ===== src/Connection/Tests.antt =====
-- Runs on small inputs, and the instances of the theorems.
use reactor_network_library.Prelude.{
  eintr, eagain, ℕ, ◌+◌, ◌≡◌, refl, true, false, some, inr, List, [], ◌∷◌, ◌++◌, arith, length,
  is_empty, if◌then◌else◌,
}
use reactor_network_library.Buffer.{
  Buffer, ReadResult, failed, got, read_fd, readable_bytes, retrieve, read_areas, read_got, append,
  ensure_writeable_bytes, make_space,
}
use reactor_network_library.Buffer.Storage.{write_at, resize}
use reactor_network_library.Buffer.Inv.{IsValid}
use reactor_network_library.Buffer.Refine.{contents}
use reactor_network_library.Connection.{
  Connection, Effect, send_complete, SendResult, transmit_loop, finish_sending, write_to, sendto,
  send, receive_loop, is_timeout,
}
use reactor_network_library.Connection.Transmit.{sendto_lem}
use reactor_network_library.Connection.Outgoing.{
  Outgoing, Event, sends, runs_task, writable, run_task, step, run, offers, AllAllowed,
}
use reactor_network_library.Connection.Outgoing.Merge.{bytes_of, none_left}
use reactor_network_library.Connection.Outgoing.Steps.{IsOrdered}
use reactor_network_library.Connection.Outgoing.Order.{run-IsOrdered}
use reactor_network_library.Connection.Receive.{eof, received, Leaves, receive_loop_lem}

abbrev gap : List ℕ
gap = 0 ∷ 0 ∷ 0 ∷ 0 ∷ 0 ∷ 0 ∷ 0 ∷ 0 ∷ []

abbrev waits : List ℕ → Buffer
waits bytes = record { buffer = gap ++ bytes; reader_index = 8; writer_index = 8 + length bytes }

abbrev peer : Connection
peer = record {
  inputbuf = waits (1 ∷ []);
  outputbuf = waits (1 ∷ 2 ∷ 3 ∷ []);
  disconnect = false;
  writing = true;
  closing = false;
  lasttime = 100;
  istimeout = false;
}

-- Two bytes, then no room.
abbrev answers : List SendResult
answers = (2, 0) ∷ (0, eagain) ∷ (0, eagain) ∷ []

peer_out-IsValid : IsValid peer.outputbuf
peer_out-IsValid = omega arith

peer_in-IsValid : IsValid peer.inputbuf
peer_in-IsValid = omega arith

timeout_runs : (is_timeout 130 30 peer).0 ≡ true
unfolding is_timeout
timeout_runs = refl

send_elsewhere : (send false peer (9 ∷ [])).1 ≡ (9 ∷ []) ∷ []
unfolding send
send_elsewhere = refl

sendto_lem_example :
    (d : Connection) × (taken : List ℕ) × (calls : List Effect) × (sendto peer answers
      ≡ some (d, taken, calls))
    × (contents peer.outputbuf ≡ taken ++ contents d.outputbuf)
    × IsValid d.outputbuf
    × (if is_empty (contents d.outputbuf)
        then (calls ≡ send_complete ∷ []) × (d.writing ≡ false)
        else (calls ≡ []) × (d.writing ≡ peer.writing))
unfolding retrieve
sendto_lem_example = sendto_lem answers peer peer_out-IsValid (omega arith) (omega arith) refl

-- Two bytes, an interrupted call, the end of the stream.
abbrev arrivals : List ReadResult
arrivals = got (7 ∷ 8 ∷ []) ∷ failed eintr ∷ got [] ∷ []

receive_loop_lem_example :
    Leaves peer (contents peer.inputbuf ++ (7 ∷ 8 ∷ [])) eof (receive_loop peer arrivals)
unfolding received read_fd read_areas read_got append ensure_writeable_bytes make_space write_at
    retrieve readable_bytes resize
receive_loop_lem_example =
    receive_loop_lem arrivals peer (7 ∷ 8 ∷ [], eof) peer_in-IsValid
      (omega arith, omega arith, (omega arith, omega arith, (omega arith, omega arith, tt))) refl

-- A connection with nothing to send.
abbrev idle : Outgoing
idle = record {
  conn = record peer { outputbuf = waits []; writing = false };
  tasks = [];
  taken = [];
}

-- A worker sends two bytes, the loop's thread one; the task runs; the kernel takes two of the bytes.
abbrev busy : List Event
busy =
    sends false (5 ∷ 6 ∷ [])
    ∷ sends true (7 ∷ [])
    ∷ runs_task
    ∷ writable ((2, 0) ∷ (0, eagain) ∷ (0, eagain) ∷ [])
    ∷ []

idle-IsOrdered : IsOrdered idle [] []
unfolding bytes_of contents
idle-IsOrdered = record {
  written = [];
  begun = [];
  merged = none_left;
  waiting = refl;
  bytes = refl;
  valid = omega arith;
  watched = inr refl;
}

busy-AllAllowed : AllAllowed idle busy
unfolding step run_task send sendto transmit_loop finish_sending write_to readable_bytes retrieve
    append ensure_writeable_bytes write_at make_space resize
busy-AllAllowed = (
  omega arith,
  (
    omega arith,
    (omega arith, (((omega arith, (omega arith, (omega arith, tt))), omega arith), tt)),
  ),
)

run-IsOrdered_example :
    (t : Outgoing) × (run idle busy ≡ some t)
    × IsOrdered t (offers true idle busy) (offers false idle busy)
run-IsOrdered_example = run-IsOrdered busy idle busy-AllAllowed idle-IsOrdered
