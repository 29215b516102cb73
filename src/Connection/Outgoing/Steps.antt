-- ===== src/Connection/Outgoing/Steps.antt =====
-- What one event does to the messages that a Connection sends.
use reactor_network_library.Prelude.{
  ◌⊎◌, ℕ, ◌≡◌, refl, sym, ap, ◌∙◌, subst, inl, inr, Bool, true, false, some, List, [], ◌∷◌, ◌++◌,
  length, if◌then◌else◌, append_assoc, append-nil, Bool-cases, is_empty,
}
use reactor_network_library.Buffer.{append}
use reactor_network_library.Buffer.Inv.{IsValid, Fits, append-IsValid}
use reactor_network_library.Buffer.Refine.{contents, contents-append}
use reactor_network_library.Connection.{
  Connection, Effect, send_complete, SendResult, sendto, write_to, send,
}
use reactor_network_library.Connection.Transmit.{sendto_lem}
use reactor_network_library.Connection.Outgoing.{
  Outgoing, Event, HasRoom, sends, runs_task, writable, run_task, step, run, offer, Allowed,
}
use reactor_network_library.Connection.Outgoing.Merge.{
  Merge, last_left, last_right, bytes_of, bytes_of-append,
}

-- Where `local` and `remote` are the messages sent so far: `written` have reached the output buffer.
pub record IsOrdered (s : Outgoing) (local remote : List (List ℕ)) : Type 0 where
  pub written : List (List ℕ)
  pub begun : List (List ℕ)
  pub merged : Merge local begun written
  pub waiting : remote ≡ begun ++ s.tasks
  pub bytes : s.taken ++ contents s.conn.outputbuf ≡ bytes_of written
  pub valid : IsValid s.conn.outputbuf
  pub watched : (s.conn.writing ≡ true) ⊎ (contents s.conn.outputbuf ≡ [])

abbrev pub Orders : Outgoing → Event → List (List ℕ) → List (List ℕ) → Type 0
Orders s e local remote =
    (t : Outgoing) × (step s e ≡ some t)
    × IsOrdered t (local ++ offer true s e) (remote ++ offer false s e)

pub no_more :
    {s : Outgoing} {local remote : List (List ℕ)}
    → IsOrdered s local remote
    → IsOrdered s (local ++ []) (remote ++ [])
no_more {s} {local} {remote} v =
    subst (λ l. IsOrdered s l (remote ++ [])) (sym (append-nil local))
      (subst (λ r. IsOrdered s local r) (sym (append-nil remote)) v)

-- A message reaches the buffer.
written_by :
    (msg : List ℕ) (s : Outgoing) (written : List (List ℕ))
    → IsValid s.conn.outputbuf
    → Fits s.conn.outputbuf (length msg)
    → s.taken ++ contents s.conn.outputbuf ≡ bytes_of written
    → s.taken ++ contents (append s.conn.outputbuf msg) ≡ bytes_of (written ++ (msg ∷ []))
written_by msg s written v fits e =
    ap (λ u. s.taken ++ u) (contents-append msg v fits)
    ∙ sym (append_assoc s.taken (contents s.conn.outputbuf) msg)
    ∙ ap (λ u. u ++ msg) e
    ∙ sym (bytes_of-append written msg)

send_closed :
    (here : Bool) (c : Connection) (msg : List ℕ) → c.disconnect ≡ true → send here c msg ≡ (c, [])
unfolding send
send_closed here c msg closed = simp closed

pub send_here :
    (c : Connection) (msg : List ℕ) → c.disconnect ≡ false → send true c msg ≡ (write_to c msg, [])
unfolding send
send_here c msg up = simp up

sendto_closed :
    (c : Connection) (rs : List SendResult) → c.disconnect ≡ true → sendto c rs ≡ some (c, [], [])
unfolding sendto
sendto_closed c rs closed = simp closed

closed-Orders :
    (here : Bool) (msg : List ℕ) {s : Outgoing} {local remote : List (List ℕ)}
    → s.conn.disconnect ≡ true
    → IsOrdered s local remote
    → Orders s (sends here msg) local remote
unfolding step send offer
closed-Orders true msg {s} closed v =
    simp closed (s, ap (λ u. some (record s { tasks = u })) (append-nil s.tasks), no_more v)
closed-Orders false msg {s} closed v =
    simp closed (s, ap (λ u. some (record s { tasks = u })) (append-nil s.tasks), no_more v)

sends-Orders :
    (here : Bool) (msg : List ℕ) {s : Outgoing} {local remote : List (List ℕ)}
    → s.conn.disconnect ≡ false
    → Fits s.conn.outputbuf (length msg)
    → IsOrdered s local remote
    → Orders s (sends here msg) local remote
unfolding step send offer write_to
sends-Orders true msg {s} {local} {remote} up fits v = (
  record s { conn = write_to s.conn msg },
  rw (send_here s.conn msg up, step)
      (ap (λ u. some (record s { conn = write_to s.conn msg; tasks = u })) (append-nil s.tasks)),
  simp up (record {
    written = v.written ++ (msg ∷ []);
    begun = v.begun;
    merged = last_left msg v.merged;
    waiting = append-nil remote ∙ v.waiting;
    bytes = written_by msg s v.written v.valid fits v.bytes;
    valid = append-IsValid msg v.valid fits;
    watched = inl refl;
  }),
)
sends-Orders false msg {s} {local} {remote} up fits v = simp up (
  record s { tasks = s.tasks ++ (msg ∷ []) },
  refl,
  record {
    written = v.written;
    begun = v.begun;
    merged = subst (λ l. Merge l v.begun v.written) (sym (append-nil local)) v.merged;
    waiting = ap (λ u. u ++ (msg ∷ [])) v.waiting ∙ append_assoc v.begun s.tasks (msg ∷ []);
    bytes = v.bytes;
    valid = v.valid;
    watched = v.watched;
  },
)

task-Orders :
    (tasks : List (List ℕ)) (s : Outgoing) {local remote : List (List ℕ)}
    → HasRoom s.conn tasks
    → IsOrdered (record s { tasks = tasks }) local remote
    → IsOrdered (run_task (record s { tasks = tasks }) tasks) local remote
unfolding run_task write_to
task-Orders [] s room v = v
task-Orders (msg ∷ tasks) s room v = record {
  written = v.written ++ (msg ∷ []);
  begun = v.begun ++ (msg ∷ []);
  merged = last_right msg v.merged;
  waiting = v.waiting ∙ sym (append_assoc v.begun (msg ∷ []) tasks);
  bytes = written_by msg s v.written v.valid room v.bytes;
  valid = append-IsValid msg v.valid room;
  watched = inl refl;
}

-- What is left of nothing is nothing.
nothing_left : (xs ys : List ℕ) → [] ≡ xs ++ ys → ys ≡ []
nothing_left [] ys e = sym e
nothing_left (x ∷ xs) ys e = cc

no_bytes : (xs : List ℕ) → is_empty xs ≡ true → xs ≡ []
no_bytes [] e = refl
no_bytes (x ∷ xs) e = cc

writable-Orders :
    (rs : List SendResult) {s : Outgoing} {local remote : List (List ℕ)}
    → Allowed s (writable rs)
    → IsOrdered s local remote
    → Orders s (writable rs) local remote
unfolding step offer sendto
writable-Orders rs {s} ok v = elim (Bool-cases s.conn.disconnect) [
  | inl closed ↦ (
    s,
    rw (sendto_closed s.conn rs closed, step)
        (ap (λ u. some (record s { taken = u })) (append-nil s.taken)),
    no_more v,
  )
  | inr up ↦
      let (d, bytes, calls, run, parts, valid, rest) = sendto_lem rs s.conn v.valid ok.0 ok.1 up in
      (
        record s { conn = d; taken = s.taken ++ bytes },
        rw (run, step) refl,
        no_more (record {
          written = v.written;
          begun = v.begun;
          merged = v.merged;
          waiting = v.waiting;
          bytes =
              append_assoc s.taken bytes (contents d.outputbuf)
              ∙ ap (λ u. s.taken ++ u) (sym parts)
              ∙ v.bytes;
          valid = valid;
          watched = still s.conn d bytes calls parts rest v.watched;
        }),
      )
]
  where
    still :
        (c d : Connection) (bytes : List ℕ) (calls : List Effect)
        → contents c.outputbuf ≡ bytes ++ contents d.outputbuf
        → (if is_empty (contents d.outputbuf)
            then (calls ≡ send_complete ∷ []) × (d.writing ≡ false)
            else (calls ≡ []) × (d.writing ≡ c.writing))
        → (c.writing ≡ true) ⊎ (contents c.outputbuf ≡ [])
        → (d.writing ≡ true) ⊎ (contents d.outputbuf ≡ [])
    still c d bytes calls parts rest before = elim (Bool-cases (is_empty (contents d.outputbuf))) [
      | inl gone ↦ inr (no_bytes _ gone)
      | inr left ↦ elim before [
        | inl writing ↦ inl ((rw left at rest).1 ∙ writing)
        | inr nothing ↦ inr (nothing_left bytes _ (sym nothing ∙ parts))
      ]
    ]

pub step-Orders :
    (e : Event) {s : Outgoing} {local remote : List (List ℕ)}
    → Allowed s e
    → IsOrdered s local remote
    → Orders s e local remote
unfolding step offer
step-Orders (sends here msg) {s} ok v = elim (Bool-cases s.conn.disconnect) [
  | inl closed ↦ closed-Orders here msg closed v
  | inr up ↦ sends-Orders here msg up ok v
]
step-Orders runs_task {s} ok v = (run_task s s.tasks, refl, no_more (task-Orders s.tasks s ok v))
step-Orders (writable rs) ok v = writable-Orders rs ok v
