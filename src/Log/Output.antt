-- ===== src/Log/Output.antt =====
-- Which calls of `SetOutputTarget` send the log where they say.
use reactor_network_library.Prelude.{
  ℕ, ◌≡◌, refl, sym, ap₂, subst, inl, inr, Bool, false, Option, none, some, List, [], ◌∷◌, ◌++◌,
  if◌then◌else◌, is_empty, Bool-cases,
}
use reactor_network_library.Log.{
  OutputTarget, console, file, same_text, Log, cerr, lost, to_file, get_output_stream,
  set_output_target,
}

-- The state in which the log is on the console and no file is open.
abbrev pub IsOnConsole : Log → Type 0
IsOnConsole s = (s.output_target ≡ console) × (s.log_file.name ≡ none)

abbrev pub full_name : List ℕ → List ℕ → List ℕ
full_name date filename = date ++ (95 ∷ []) ++ filename

-- A state by its parts.
abbrev at_target : OutputTarget → Option (List ℕ) → Log → Log
at_target target name s = record s {
  output_target = target;
  log_file = record s.log_file { name = name };
}

from_console :
    (can_open : List ℕ → Bool) (s : Log) (date filename : List ℕ)
    → is_empty filename ≡ false
    → get_output_stream (set_output_target can_open (at_target console none s) file date filename)
      ≡ (if can_open (full_name date filename) then to_file (full_name date filename) else cerr)
unfolding set_output_target get_output_stream
from_console can_open s date filename named =
    elim (Bool-cases (can_open (full_name date filename))) [
      | inl opens ↦ rw named (rw opens refl)
      | inr fails ↦ rw named (rw fails refl)
    ]

and_back :
    (can_open : List ℕ → Bool) (s : Log) (date filename date' other : List ℕ)
    → is_empty filename ≡ false
    → IsOnConsole (
        set_output_target can_open
          (set_output_target can_open (at_target console none s) file date filename)
          console
          date'
          other)
unfolding set_output_target
and_back can_open s date filename date' other named =
    elim (Bool-cases (can_open (full_name date filename))) [
      | inl opens ↦ rw named (rw opens (refl, refl))
      | inr fails ↦ rw named (rw fails (refl, refl))
    ]

-- From the console, with no file open, to a file with a name: the log goes to the file if it can be
-- opened, and else stays on the console. From there to the console: it is as it was before.
pub set_output_target_lem :
    (can_open : List ℕ → Bool) (s : Log) (date filename date' other : List ℕ)
    → IsOnConsole s
    → is_empty filename ≡ false
    → let t = set_output_target can_open s file date filename in
      (get_output_stream t
        ≡ (if can_open (full_name date filename) then to_file (full_name date filename) else cerr))
      × IsOnConsole (set_output_target can_open t console date' other)
set_output_target_lem can_open s date filename date' other on_console named =
    subst
      (λ x.
        (get_output_stream (set_output_target can_open x file date filename) ≡ (
          if can_open (full_name date filename) then to_file (full_name date filename) else cerr))
        × IsOnConsole (
            set_output_target can_open (set_output_target can_open x file date filename) console
              date' other))
      (sym (ap₂ (λ t n. at_target t n s) on_console.0 on_console.1))
      (
        from_console can_open s date filename named,
        and_back can_open s date filename date' other named,
      )

from_file :
    (can_open : List ℕ → Bool) (s : Log) (date filename old : List ℕ)
    → same_text s.output_file_name filename ≡ false
    → is_empty filename ≡ false
    → get_output_stream
        (set_output_target can_open (at_target file (some old) s) file date filename)
      ≡ lost
unfolding set_output_target get_output_stream
from_file can_open s date filename old other named = rw other (rw named refl)

-- From a file to another one that is not closed first: `open` fails, the old file stays open with its
-- `failbit` set, and what is logged from then on is lost.
pub switch_file_lem :
    (can_open : List ℕ → Bool) (s : Log) (date filename old : List ℕ)
    → s.output_target ≡ file
    → s.log_file.name ≡ some old
    → same_text s.output_file_name filename ≡ false
    → is_empty filename ≡ false
    → get_output_stream (set_output_target can_open s file date filename) ≡ lost
switch_file_lem can_open s date filename old target opened other named =
    subst (λ x. get_output_stream (set_output_target can_open x file date filename) ≡ lost)
      (sym (ap₂ (λ t n. at_target t n s) target opened))
      (from_file can_open s date filename old other named)
