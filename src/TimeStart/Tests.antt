-- ===== src/TimeStart/Tests.antt =====
-- Lab_1/WIN/main.cpp: runs of some generations.
use labs_spo.Common.{
  ℕ, ◌≤◌, ◌<◌, ◌≡◌, refl, List, [], ◌∷◌, true, none, some, length, ◌==◌, if◌then◌else◌,
}
use labs_spo.Common.Bytes.{Bytes, bytes, bytes_eq}
use labs_spo.TimeStart.{
  time, name, Started, fails, itself, another, ends, waits, Windows, behind, pause, after_start,
  program,
}

-- Words with a blank between them.
abbrev onto_first : ℕ → List Bytes → List Bytes
onto_first c [] = (c ∷ []) ∷ []
onto_first c (w ∷ ws) = (c ∷ w) ∷ ws

words : Bytes → List Bytes
words [] = [] ∷ []
words (c ∷ cs) = let rest = words cs in if c == 32 then [] ∷ rest else onto_first c rest

-- "Lab_1" is this program; "date" shows a line and ends; "server" never ends; there is no other.
abbrev started_for : Bytes → Started
started_for self =
    if bytes_eq self (bytes "Lab_1")
    then itself
    else if bytes_eq self (bytes "date")
    then another (some (bytes "Thursday"))
    else if bytes_eq self (bytes "server")
    then another none
    else fails

abbrev windows : Windows
windows = record { parse = words; starts = λ self command. started_for self; key_pressed = true }

-- Three generations of this program: the third has one word.
program_result :
    program windows 9 (bytes "Lab_1" ∷ bytes "Lab_1 child" ∷ [])
    ≡ ends (time ∷ time ∷ time ∷ name (bytes "child") ∷ []) 0
unfolding program words behind pause after_start
program_result = refl

-- The second generation runs under the name of another program, which it starts and waits for.
another_waited_for :
    program windows 9 (bytes "Lab_1" ∷ bytes "server child" ∷ []) ≡ waits (time ∷ time ∷ [])
unfolding program words behind pause after_start
another_waited_for = refl

-- The first word is no longer than the text, and the second one is shorter.
abbrev Bounded : ℕ → List Bytes → Type 0
Bounded n [] = Unit
Bounded n (w ∷ []) = length w ≤ n
Bounded n (w ∷ v ∷ vs) = (length w ≤ n) × (length v < n)
