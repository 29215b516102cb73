-- ===== src/AsyncLogging/Conserve.antt =====
-- The invariant of the log: its parts, and where the bytes of the records are.
use reactor_network_library.Prelude.{
  ℕ, ◌≤◌, ◌<◌, ◌≡◌, ◌≢◌, refl, sym, ap, ap₂, ◌∙◌, inl, inr, Bool, true, false, ◌&&◌, Option, none,
  some, List, [], ◌∷◌, ◌++◌, ◌==◌, length, append_assoc, Bool-cases, ==_iff,
}
use reactor_network_library.AsyncLogging.{
  log_capacity, LogBuffer, reset, cur, Phase, testing, waiting, exited, holding, Line, text, notice,
  System, until_nul, write_all, Event, appends, starts, stops, runs,
}

-- A record without a 0 byte.
unfoldable pub NulFree : List ℕ → Type 0
NulFree [] = Unit {0}
NulFree (x ∷ xs) = (x ≢ 0) × NulFree xs

pub NulFree-append : (xs ys : List ℕ) → NulFree xs → NulFree ys → NulFree (xs ++ ys)
unfolding NulFree
NulFree-append [] ys h k = k
NulFree-append (x ∷ xs) ys h k = (h.0, NulFree-append xs ys h.1 k)

until_nul_lem : (xs : List ℕ) → NulFree xs → until_nul xs ≡ xs
unfolding NulFree until_nul
until_nul_lem [] h = refl
until_nul_lem (x ∷ xs) h = elim (Bool-cases (x == 0)) [
  | inl nul ↦ absurd (h.0 ((==_iff x 0).0 nul))
  | inr other ↦ rw other (ap (λ t. x ∷ t) (until_nul_lem xs h.1))
]

-- The bytes of some buffers, one after the other.
unfoldable pub joined : List LogBuffer → List ℕ
joined [] = []
joined (b ∷ bs) = b.bytes ++ joined bs

-- The bytes written, and whether no notice was.
unfoldable pub text_of : List Line → List ℕ
text_of [] = []
text_of (text t ∷ ls) = t ++ text_of ls
text_of (notice n ∷ ls) = text_of ls

unfoldable pub is_whole : List Line → Bool
is_whole [] = true
is_whole (text t ∷ ls) = is_whole ls
is_whole (notice n ∷ ls) = false

unfoldable pub AreNulFree : List LogBuffer → Type 0
AreNulFree [] = Unit {0}
AreNulFree (b ∷ bs) = NulFree b.bytes × AreNulFree bs

-- What an event appends, and what all of them do.
abbrev pub appended_by : Event → List ℕ
appended_by (appends log) = log
appended_by starts = []
appended_by stops = []
appended_by runs = []

unfoldable pub recorded : List Event → List ℕ
recorded [] = []
recorded (e ∷ es) = appended_by e ++ recorded es

-- A record that one buffer can hold, without a 0 byte.
abbrev pub IsLog : Event → Type 0
IsLog (appends log) = (length log ≤ log_capacity) × NulFree log
IsLog starts = Unit {0}
IsLog stops = Unit {0}
IsLog runs = Unit {0}

unfoldable pub AreLogs : List Event → Type 0
AreLogs [] = Unit {0}
AreLogs (e ∷ es) = IsLog e × AreLogs es

pub joined-append : (bs cs : List LogBuffer) → joined (bs ++ cs) ≡ joined bs ++ joined cs
unfolding joined
joined-append [] cs = refl
joined-append (b ∷ bs) cs =
    ap (λ t. b.bytes ++ t) (joined-append bs cs)
    ∙ sym (append_assoc b.bytes (joined bs) (joined cs))

pub AreNulFree-append :
    (bs cs : List LogBuffer) → AreNulFree bs → AreNulFree cs → AreNulFree (bs ++ cs)
unfolding AreNulFree
AreNulFree-append [] cs h k = k
AreNulFree-append (b ∷ bs) cs h k = (h.0, AreNulFree-append bs cs h.1 k)

pub text_of-append : (ls ms : List Line) → text_of (ls ++ ms) ≡ text_of ls ++ text_of ms
unfolding text_of
text_of-append [] ms = refl
text_of-append (text t ∷ ls) ms =
    ap (λ u. t ++ u) (text_of-append ls ms) ∙ sym (append_assoc t (text_of ls) (text_of ms))
text_of-append (notice n ∷ ls) ms = text_of-append ls ms

pub text_of-write_all : (bs : List LogBuffer) → AreNulFree bs → text_of (write_all bs) ≡ joined bs
unfolding text_of joined AreNulFree
text_of-write_all [] h = refl
text_of-write_all (b ∷ bs) h =
    ap₂ (λ t u. t ++ u) (until_nul_lem b.bytes h.0) (text_of-write_all bs h.1)

pub is_whole-append : (ls ms : List Line) → is_whole (ls ++ ms) ≡ (is_whole ls && is_whole ms)
unfolding is_whole
is_whole-append [] ms = refl
is_whole-append (text t ∷ ls) ms = is_whole-append ls ms
is_whole-append (notice n ∷ ls) ms = refl

-- The spare is unused, or taken: then a full buffer waits.
pub data Spares : Option LogBuffer → List LogBuffer → Type 0 where
  kept : {bs : List LogBuffer} → Spares (some reset) bs
  taken : {bs : List LogBuffer} → 0 < length bs → Spares none bs

-- The thread's own spares against its phase: while it holds buffers, enough of them to refill.
pub data Locals : Option LogBuffer → Option LogBuffer → Phase → Type 0 where
  at_test : Locals (some reset) (some reset) testing
  at_wait : Locals (some reset) (some reset) waiting
  at_end : Locals (some reset) (some reset) exited
  has_one : {held : List LogBuffer} → 0 < length held → Locals none (some reset) (holding held)
  has_two : {held : List LogBuffer} → 1 < length held → Locals none none (holding held)

abbrev pub held_by : Phase → List LogBuffer
held_by testing = []
held_by waiting = []
held_by exited = []
held_by (holding held) = held

-- What every step keeps, with all that was appended so far: no pointer is null where it is used, the
-- current buffer is within its bounds, and not empty while full ones are queued, and unless buffers were dropped, what is written and what
-- waits is what was appended, in order.
pub record IsSound (s : System) (log : List ℕ) : Type 0 where
  pub active : LogBuffer
  pub here : s.front.current ≡ some active
  pub fits : cur active ≤ log_capacity
  pub plain : NulFree active.bytes
  pub queued : AreNulFree s.front.buffers
  pub grabbed : AreNulFree (held_by s.phase)
  pub spares : Spares s.front.next s.front.buffers
  pub locals : Locals s.new1 s.new2 s.phase
  pub occupied : 0 < length s.front.buffers → 0 < cur active
  pub stream :
      is_whole s.output ≡ true
      → text_of s.output ++ joined (held_by s.phase) ++ joined s.front.buffers ++ active.bytes ≡ log

-- What a step of the thread gives: a sound state with the same records.
abbrev pub Goes : Option System → List ℕ → Type 0
Goes out past = (s : System) × (out ≡ some s) × IsSound s past
