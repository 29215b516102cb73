-- ===== src/AsyncLogging.antt =====
-- src/AsyncLogging.cpp and src/include/AsyncLogging.h: the double-buffered log. Callers and the log
-- thread take turns under `m_mtx`; a system is what they share and the thread's local variables, and
-- an event is a critical section, or what the thread does between two of them.
pub mod Conserve
pub mod Steps
pub mod Rounds
pub mod Flush
pub mod Soundness
pub mod Exit
pub mod Drain
pub mod Ending
pub mod Lifetime
mod Tests
use reactor_network_library.Prelude.{
  ℕ, ◌+◌, ◌-◌, ◌*◌, ◌≡◌, Bool, true, false, ◌&&◌, ◌||◌, Option, none, some, List, [], ◌∷◌, ◌++◌,
  map, arith, ltb, leb, ◌==◌, if◌then◌else◌, length, take, is_empty,
}

-- `sizeof(data)`
abbrev pub log_capacity : ℕ
log_capacity = 4 * 1000 * 1000

-- `LogBuffer`: the first `cur` bytes of `data`; the others are 0. So `cur` is their number.
pub record LogBuffer : Type 0 where
  pub bytes : List ℕ

-- `reset`
abbrev pub reset : LogBuffer
reset = record { bytes = [] }

abbrev pub cur : LogBuffer → ℕ
cur b = length b.bytes

unfoldable pub available : LogBuffer → ℕ
available b = log_capacity - cur b

-- `LogBuffer::append`; `none` is its assertion failing.
unfoldable pub append : LogBuffer → List ℕ → Option LogBuffer
unfolding available
append b log =
    if leb (length log) (available b) then some (record b { bytes = b.bytes ++ log }) else none

-- The members under `m_mtx`, and `m_running`. A pointer that was moved from is `none`.
pub record Front : Type 0 where
  pub current : Option LogBuffer
  pub next : Option LogBuffer
  pub buffers : List LogBuffer
  pub running : Bool

-- The buffer that takes the place of the full one: the spare, or a new one.
abbrev pub spare : Option LogBuffer → LogBuffer
spare none = reset
spare (some b) = b

-- `Append`. `none` is a null pointer or the assertion failing.
unfoldable pub append_record : Front → List ℕ → Option Front
append_record f log = elim f.current [
  | none ↦ none
  | some b ↦ elim (leb (length log) (available b)) [
    | true ↦ elim (append b log) [ none ↦ none | some b' ↦ some (record f { current = some b' }) ]
    | false ↦ elim (append (spare f.next) log) [
      | none ↦ none
      | some b' ↦
          some (record f { current = some b'; next = none; buffers = f.buffers ++ (b ∷ []) })
    ]
  ]
]

-- Where the thread is: at the test of its loop, before its critical section, or behind it with
-- `buffersToWrite`; or it has ended.
pub data Phase : Type 0 where
  testing waiting exited : Phase
  holding : List LogBuffer → Phase

-- What is written: the bytes of a buffer, or the notice that so many buffers are dropped.
pub data Line : Type 0 where
  text : List ℕ → Line
  notice : ℕ → Line

pub record System : Type 0 where
  pub front : Front
  pub new1 : Option LogBuffer
  pub new2 : Option LogBuffer
  pub phase : Phase
  pub output : List Line

-- What the constructor makes, and the thread's local variables.
abbrev pub init : System
init = record {
  front = record { current = some reset; next = some reset; buffers = []; running = false };
  new1 = some reset;
  new2 = some reset;
  phase = testing;
  output = [];
}

-- `m_nextBuffer` is given `newBuffer2` if it is null.
abbrev pub restored : Option LogBuffer → Option LogBuffer → Option LogBuffer × Option LogBuffer
restored none new2 = (new2, none)
restored (some b) new2 = (some b, new2)

-- The test of the `while` loop.
unfoldable pub test : System → Option System
test s = elim s.front.current [
  | none ↦ none
  | some b ↦
      some (record s { phase = if s.front.running || ltb 0 (cur b) then waiting else exited })
]

-- The critical section of `ThreadFunc`, after the wait.
unfoldable pub grab : System → Option System
grab s = elim s.front.current [
  | none ↦ none
  | some b ↦
      if is_empty s.front.buffers && (cur b == 0)
      then some (record s { phase = testing })
      else (let (next, new2) = restored s.front.next s.new2 in
          some (record s {
            front = record s.front { current = s.new1; next = next; buffers = [] };
            new1 = none;
            new2 = new2;
            phase = holding (s.front.buffers ++ (b ∷ []));
          }))
]

-- `operator<<` of a `char*`: it ends at the first 0. Of a full buffer it reads `cur` next, whose
-- lowest byte is 0 then (4000000 is 3D0900 in base 16) on a machine that stores it first.
unfoldable pub until_nul : List ℕ → List ℕ
until_nul [] = []
until_nul (x ∷ xs) = let rest = until_nul xs in if x == 0 then [] else x ∷ rest

-- More than 25 buffers: a notice, and only the first two stay.
unfoldable pub drop_excess : List LogBuffer → List Line × List LogBuffer
drop_excess bs = if ltb 25 (length bs) then (notice (length bs - 2) ∷ [], take 2 bs) else ([], bs)

abbrev pub write_all : List LogBuffer → List Line
write_all bs = map (λ b. text (until_nul b.bytes)) bs

-- `pop_back`, which wants an element.
unfoldable pub pop_back : List LogBuffer → Option (List LogBuffer)
pop_back [] = none
pop_back (b ∷ []) = some []
pop_back (b ∷ c ∷ bs) = elim (pop_back (c ∷ bs)) [ none ↦ none | some init ↦ some (b ∷ init) ]

-- A spare of the thread that is null becomes the last buffer written, reset.
unfoldable pub refill :
    Option LogBuffer → List LogBuffer → Option (Option LogBuffer × List LogBuffer)
refill (some b) bs = some (some b, bs)
refill none bs = elim (pop_back bs) [ none ↦ none | some rest ↦ some (some reset, rest) ]

-- The rest of the round, outside the lock.
unfoldable pub flush : System → List LogBuffer → Option System
flush s held =
    let (notices, kept) = drop_excess held in
    elim (refill s.new1 (if ltb 2 (length kept) then take 2 kept else kept)) [
      | none ↦ none
      | some (new1, left) ↦ elim (refill s.new2 left) [
        | none ↦ none
        | some (new2, left') ↦ some (record s {
          new1 = new1;
          new2 = new2;
          phase = testing;
          output = s.output ++ notices ++ write_all kept;
        })
      ]
    ]

-- A call of `Append`, `start` or the store of `stop`; the thread's next step from its phase.
pub data Event : Type 0 where
  appends : List ℕ → Event
  starts stops runs : Event

unfoldable pub step : System → Event → Option System
step s (appends log) = elim (append_record s.front log) [
  | none ↦ none
  | some f ↦ some (record s { front = f })
]
step s starts = some (record s { front = record s.front { running = true } })
step s stops = some (record s { front = record s.front { running = false } })
step s runs = elim s.phase [
  | testing ↦ test s
  | waiting ↦ grab s
  | holding held ↦ flush s held
  | exited ↦ some s
]

unfoldable pub run : System → List Event → Option System
run s [] = some s
run s (e ∷ es) = elim (step s e) [ none ↦ none | some s' ↦ run s' es ]
