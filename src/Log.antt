-- ===== src/Log.antt =====
-- src/Log.cpp and src/include/Log.h: where the log goes. The static members are the state; whether a
-- file can be opened is a parameter, and so is the date in front of its name. `log_file_` behaves as
-- std::ofstream does: `open` on an open file fails, sets its `failbit` and leaves the file open, and
-- what is written under a `failbit` goes nowhere; an `open` that succeeds clears it.
pub mod Output
pub mod Message
pub mod Delivery
mod Tests
use reactor_network_library.Prelude.{
  ℕ, ◌≡◌, Bool, true, false, not, ◌&&◌, ◌||◌, Option, none, some, List, [], ◌∷◌, ◌++◌, ◌==◌,
  if◌then◌else◌, is_empty,
}

pub data OutputTarget : Type 0 where
  console file : OutputTarget

abbrev pub same_target : OutputTarget → OutputTarget → Bool
same_target console console = true
same_target console file = false
same_target file console = false
same_target file file = true

-- `operator==` of std::string.
unfoldable pub same_text : List ℕ → List ℕ → Bool
same_text [] [] = true
same_text [] (y ∷ ys) = false
same_text (x ∷ xs) [] = false
same_text (x ∷ xs) (y ∷ ys) = let rest = same_text xs ys in (x == y) && rest

-- A std::ofstream: the name of the file that is open, and `failbit`.
pub record OutFile : Type 0 where
  pub name : Option (List ℕ)
  pub failbit : Bool

abbrev pub is_open : OutFile → Bool
is_open f = elim f.name [ none ↦ false | some n ↦ true ]

pub record Log : Type 0 where
  pub output_target : OutputTarget
  pub log_file : OutFile
  pub output_file_name : List ℕ

-- The static members before the first call.
abbrev pub init : Log
init = record {
  output_target = console;
  log_file = record { name = none; failbit = false };
  output_file_name = [];
}

-- `close`, which leaves the `failbit`.
abbrev pub close : OutFile → OutFile
close f = record f { name = none }

-- Where `GetOutputStream` writes: `std::cerr`, a file, or nowhere.
pub data Sink : Type 0 where
  cerr lost : Sink
  to_file : List ℕ → Sink

unfoldable pub get_output_stream : Log → Sink
get_output_stream s = elim s.output_target [
  | console ↦ cerr
  | file ↦ elim s.log_file.name [
    | none ↦ cerr
    | some name ↦ if s.log_file.failbit then lost else to_file name
  ]
]

module _ (can_open : List ℕ → Bool) where
  -- `open`
  unfoldable pub open_file : OutFile → List ℕ → OutFile
  open_file f name =
      if is_open f
      then record f { failbit = true }
      else if can_open name
      then record { name = some name; failbit = false }
      else record f { failbit = true }

  -- The body of `SetOutputTarget`, behind its test.
  unfoldable pub change_target : Log → OutputTarget → List ℕ → List ℕ → Log
  unfolding open_file
  change_target s file date filename =
      let opened = open_file s.log_file (date ++ (95 ∷ []) ++ filename) in
      if not (is_empty filename)
      then record {
        output_target = if is_open opened then file else console;
        log_file = opened;
        output_file_name = filename;
      }
      else record s { output_target = file }
  change_target s console date filename = record s {
    output_target = console;
    log_file = if is_open s.log_file then close s.log_file else s.log_file;
  }

  -- `SetOutputTarget`; `date` is the text of today.
  unfoldable pub set_output_target : Log → OutputTarget → List ℕ → List ℕ → Log
  unfolding change_target same_text
  set_output_target s target date filename =
      if not (same_target s.output_target target)
        || (same_target s.output_target target
            && (same_target target file && not (same_text s.output_file_name filename)))
      then change_target s target date filename
      else s
