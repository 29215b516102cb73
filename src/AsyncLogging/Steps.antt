-- ===== src/AsyncLogging/Steps.antt =====
-- `Append` and the invariant of the log.
use reactor_network_library.Prelude.{
  ℕ, ◌≤◌, ◌<◌, ◌≡◌, refl, sym, ap, ◌∙◌, Option, none, some, List, [], ◌∷◌, ◌++◌, arith, length,
  length-append, append_assoc, append-nil, le→leb, lt→not_leb,
}
use reactor_network_library.AsyncLogging.{
  log_capacity, LogBuffer, reset, cur, available, append, Front, spare, append_record, System,
}
use reactor_network_library.AsyncLogging.Conserve.{
  NulFree, NulFree-append, joined, text_of, AreNulFree, joined-append, AreNulFree-append, Spares,
  kept, taken, held_by, IsSound,
}

append_fits :
    (b : LogBuffer) (log : List ℕ)
    → length log ≤ available b
    → append b log ≡ some (record b { bytes = b.bytes ++ log })
unfolding append
append_fits b log h = rw (le→leb (length log) (available b) h) refl

fits_more :
    (b : LogBuffer) (log : List ℕ)
    → cur b ≤ log_capacity
    → length log ≤ available b
    → length (b.bytes ++ log) ≤ log_capacity
unfolding available
fits_more b log h room = omega (arith, length-append b.bytes log)

-- A record that the current buffer has room for.
pub append_here :
    {s : System} {past : List ℕ} (log : List ℕ) (v : IsSound s past)
    → length log ≤ available v.active
    → NulFree log
    → (f : Front) × (append_record s.front log ≡ some f)
      × IsSound (record s { front = f }) (past ++ log)
unfolding append_record
append_here {s} {past} log v room plain =
    let b = v.active in
    (
      record s.front { current = some (record b { bytes = b.bytes ++ log }) },
      rw (v.here, append_record)
          (rw (le→leb (length log) (available b) room, append_record)
            (rw (append_fits b log room) refl)),
      record {
        active = record b { bytes = b.bytes ++ log };
        here = refl;
        fits = fits_more b log v.fits room;
        plain = NulFree-append b.bytes log v.plain plain;
        queued = v.queued;
        grabbed = v.grabbed;
        spares = v.spares;
        locals = v.locals;
        occupied = λ busy. omega (arith, v.occupied busy, length-append b.bytes log);
        stream = λ whole.
            sym (
              append_assoc (text_of s.output ++ joined (held_by s.phase) ++ joined s.front.buffers)
                b.bytes log)
            ∙ ap (λ u. u ++ log) (v.stream whole);
      },
    )

Spares-spare : {next : Option LogBuffer} {bs : List LogBuffer} → Spares next bs → spare next ≡ reset
Spares-spare kept = refl
Spares-spare (taken pos) = refl

pub joined_last :
    (bs : List LogBuffer) (b : LogBuffer) → joined (bs ++ (b ∷ [])) ≡ joined bs ++ b.bytes
unfolding joined
joined_last bs b = joined-append bs (b ∷ []) ∙ ap (λ t. joined bs ++ t) (append-nil b.bytes)

append_new :
    (log : List ℕ) → length log ≤ log_capacity → append reset log ≡ some (record { bytes = log })
unfolding available
append_new log h = append_fits reset log h

-- A record that it has no room for.
pub append_over :
    {s : System} {past : List ℕ} (log : List ℕ) (v : IsSound s past)
    → available v.active < length log
    → length log ≤ log_capacity
    → NulFree log
    → (f : Front) × (append_record s.front log ≡ some f)
      × IsSound (record s { front = f }) (past ++ log)
unfolding append_record AreNulFree
append_over {s} {past} log v full small plain =
    let b = v.active in
    (
      record s.front {
        current = some (record { bytes = log });
        next = none;
        buffers = s.front.buffers ++ (b ∷ []);
      },
      rw (v.here, append_record)
          (rw (lt→not_leb (length log) (available b) full, append_record)
            (rw (Spares-spare v.spares, append_record) (rw (append_new log small) refl))),
      record {
        active = record { bytes = log };
        here = refl;
        fits = small;
        plain = plain;
        queued = AreNulFree-append s.front.buffers (b ∷ []) v.queued (v.plain, tt);
        grabbed = v.grabbed;
        spares = taken (omega (arith, length-append s.front.buffers (b ∷ [])));
        locals = v.locals;
        occupied = λ busy. omega (arith, full);
        stream = λ whole.
            ap (λ u. u ++ log)
              (ap (λ u. text_of s.output ++ joined (held_by s.phase) ++ u)
                  (joined_last s.front.buffers b)
                ∙ sym (
                    append_assoc (text_of s.output ++ joined (held_by s.phase))
                      (joined s.front.buffers) b.bytes)
                ∙ v.stream whole);
      },
    )
