-- ===== src/TimeStart.antt =====
-- Lab_1/WIN/main.cpp: a program that shows the time, and runs its first argument as the command line
-- of a new process for the program `argv[0]`. From its second generation on `argv[0]` is a word of
-- the user's, so that it may be another program, which is waited for all the same. A run is given by
-- what all its processes show; each waits for the one that it has started, so that the lines come in
-- their order.
mod Tests
use labs_spo.Common.{
  ℕ, zero, suc, ◌+◌, ◌≤◌, ◌<◌, ◌≡◌, ◌≢◌, ◌∙◌, Bool, false, List, [], ◌∷◌, ◌++◌, Option, none, some,
  Bool-cases, ◌⊎◌, if◌then◌else◌, length,
}
use labs_spo.Common.Bytes.{Bytes}

-- A line of the output: the time, the name of the program, the message of a failure, or what another
-- program shows.
pub data Line : Type 0 where
  time : Line
  name : Bytes → Line
  create_process_failed : Line
  shown : Bytes → Line

-- What `CreateProcess` does: it fails, starts this program, or another one, which ends with what it
-- has shown (`some`) or never ends (`none`).
pub data Started : Type 0 where
  fails : Started
  itself : Started
  another : Option Bytes → Started

-- What the system does: the words of a command line, as the start of a C program puts them into
-- `argv`; what `CreateProcess` does for `argv[0]` and a command line; and whether a key is pressed
-- for `system("pause")`.
pub record Windows : Type 0 where
  pub parse : Bytes → List Bytes
  pub starts : Bytes → Bytes → Started
  pub key_pressed : Bool

-- What a process leads to: it ends, with all that was shown and what `main` returns, or it waits for
-- ever. `unfinished` is a run that has no fuel left.
pub data Run : Type 0 where
  ends : List Line → ℕ → Run
  waits : List Line → Run
  unfinished : Run

-- The process that waits for the one that it has started; it returns 0 whatever the other returns.
pub behind : Run → Run
behind (ends lines code) = ends (time ∷ lines) 0
behind (waits lines) = waits (time ∷ lines)
behind unfinished = unfinished

-- `system("pause")` at the end of `main`.
pub pause : Bool → Bytes → Run
pause pressed self =
    if pressed then ends (time ∷ name self ∷ []) 0 else waits (time ∷ name self ∷ [])

-- What follows `CreateProcess`, given the run of this program for the command line.
pub after_start : Started → Run → Run
unfolding behind
after_start fails again = ends (time ∷ create_process_failed ∷ []) 1
after_start itself again = behind again
after_start (another none) again = waits (time ∷ [])
after_start (another (some text)) again = ends (time ∷ shown text ∷ []) 0

-- `main`, with fuel for the generations. Without any word there is no `argv[0]`; the start of a C
-- program gives one.
pub program : Windows → ℕ → List Bytes → Run
unfolding pause after_start
program w zero argv = unfinished
program w (suc fuel) [] = unfinished
program w (suc fuel) (self ∷ []) = pause w.key_pressed self
program w (suc fuel) (self ∷ command ∷ more) =
    after_start (w.starts self command) (program w fuel (w.parse command))

-- What the program relies on of the words of a command line: there is at least one, and the second is
-- shorter than the whole, which has the first word and a blank before it.
pub record Splits (parse : Bytes → List Bytes) : Type 0 where
  pub some_word : (command : Bytes) → parse command ≢ []
  pub shorter :
      (command self next : Bytes) (more : List Bytes)
      → parse command ≡ self ∷ next ∷ more
      → length next < length command

-- Why a process of the chain may wait for ever.
abbrev pub Hangs : Windows → Type 0
Hangs w =
    (w.key_pressed ≡ false)
    ⊎ ((self : Bytes) × (command : Bytes) × (w.starts self command ≡ another none))

-- A run with at most `bound` lines, the time first, that ends, or waits for one of these reasons.
abbrev pub Settles : Windows → ℕ → Run → Type 0
Settles w bound r =
    (rest : List Line) × (length rest < bound)
    × (((code : ℕ) × (r ≡ ends (time ∷ rest) code)) ⊎ ((r ≡ waits (time ∷ rest)) × Hangs w))
