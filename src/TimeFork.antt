-- ===== src/TimeFork.antt =====
-- Lab_1/LINUX/main.cpp: a program that shows the time, forks, and starts itself in the child. A run
-- is given by what it shows in all its processes together; the parent waits for its child, and the
-- order of their lines is left open.
mod Tests
use labs_spo.Common.{
  ℕ, zero, suc, ◌+◌, ◌≡◌, refl, Bool, true, false, List, [], ◌∷◌, Option, none, some, ◌==◌,
  if◌then◌else◌, length,
}
use mathlib.Core.Option
use labs_spo.Common.Bytes.{Bytes, bytes}

-- What `execl` finds at a path.
pub data Image : Type 0 where
  missing this_program other_program : Image

-- The files of the system, and whether the `fork` of each process, counted from the first, succeeds.
pub record World : Type 0 where
  pub image : Bytes → Image
  pub forks : ℕ → Bool

-- What a process and those that it starts do: the calls of `show_time`, the messages "fork failed",
-- and whether one of them takes the branch of `argc == 2`.
pub record Shown : Type 0 where
  pub times : ℕ
  pub failures : ℕ
  pub as_child : Bool

abbrev pub nothing : Shown
nothing = record { times = 0; failures = 0; as_child = false }

-- `argv[0]`, where `execl` looks for the program.
abbrev pub found : World → List Bytes → Image
found w [] = missing
found w (path ∷ args) = w.image path

-- The argument that `execl` passes: it is `argv[0]` of the new image.
abbrev pub some_arg : Bytes
some_arg = bytes "some_arg"

-- The child behind `execl`, given what this program does when it is started; a failure of `execl`
-- leads out of the `switch`.
pub child : Image → Option Shown → Option Shown
child missing started = some nothing
child this_program started = started
child other_program started = some nothing

-- `show_time` of the parent.
abbrev time_shown : Shown → Shown
time_shown r = record r { times = r.times + 1 }

-- `main` of the process with this number, with fuel for the generations.
pub program : World → ℕ → ℕ → List Bytes → Option Shown
unfolding child
program w zero number argv = none
program w (suc fuel) number argv =
    let started = program w fuel (suc number) (some_arg ∷ []) in
    if length argv == 2
    then some (record { times = 1; failures = 0; as_child = true })
    else if w.forks number
    then Option.map time_shown (child (found w argv) started)
    else some (record { times = 0; failures = 1; as_child = false })

-- Were there such a file, the processes would go on for ever.
never_ends :
    (w : World)
    → w.image some_arg ≡ this_program
    → ((number : ℕ) → w.forks number ≡ true)
    → (fuel number : ℕ) → program w fuel number (some_arg ∷ []) ≡ none
unfolding program child
never_ends w itself forked zero number = refl
never_ends w itself forked (suc fuel) number =
    rw (forked number, itself, never_ends w itself forked fuel (suc number)) refl
