-- ===== src/EventRing/Handles/Tests.antt =====
-- Lab_2/WIN/main.cpp: the properties of the handles on concrete runs.
use labs_spo.Common.{
  length, ℕ, ◌+◌, ◌≡◌, refl, inr, List, [], ◌∷◌, none, some, arith, ◌==◌, if◌then◌else◌,
}
use labs_spo.Common.Bytes.{Bytes}
use labs_spo.EventRing.Handles.{
  Answers, close_all, close_process, keep_process, add_process, handle_key, poll, event_at,
  give_turn, round, run, first_parent,
}
use labs_spo.EventRing.Handles.Ledger.{opened, closed, threads, at_hand}
use labs_spo.EventRing.Handles.Ending.{handles_at_return}
use labs_spo.EventRing.Handles.Refinement.{turns}

abbrev press : ℕ → ℕ → ℕ → ℕ → Answers
press c event process thread = record {
  key = some c;
  event = event;
  started = some (record { process = process; thread = thread });
}

-- Two children are started; for the third there is no event.
abbrev troubled : List Answers
troubled = press b'+' 4 8 12 ∷ press b'+' 16 20 24 ∷ press b'+' 0 28 32 ∷ []

handles_at_return_example :
    opened 28 (run troubled first_parent).log
    ≡ closed 28 (run troubled first_parent).log
      + threads 28 (run troubled first_parent).log
      + at_hand 28 (run troubled first_parent).phase
unfolding run first_parent round poll handle_key add_process keep_process give_turn event_at
handles_at_return_example = handles_at_return troubled 28 (omega arith) (inr (28, refl))

-- The third process is started and never closed.
third_left_open :
    (opened 28 (run troubled first_parent).log ≡ 1)
    × (closed 28 (run troubled first_parent).log ≡ 0)
unfolding run first_parent round poll handle_key add_process keep_process give_turn event_at opened
    closed close_all close_process
third_left_open = (refl, refl)

abbrev quiet : Answers
quiet = record { key = none; event = 0; started = none }

-- Two children, and four turns.
abbrev smooth : List Answers
smooth = press b'+' 4 8 12 ∷ press b'+' 16 20 24 ∷ quiet ∷ quiet ∷ []

four_turns : turns (run smooth first_parent).log ≡ 1 ∷ (0 ∷ (1 ∷ (0 ∷ [])))
unfolding run first_parent round poll handle_key add_process keep_process give_turn event_at turns
four_turns = refl

-- Splitting at each space.
abbrev put_first : ℕ → List Bytes → List Bytes
put_first c [] = (c ∷ []) ∷ []
put_first c (w ∷ ws) = (c ∷ w) ∷ ws

split : Bytes → List Bytes
split [] = [] ∷ []
split (c ∷ cs) = let rest = split cs in if c == 32 then [] ∷ rest else put_first c rest

two_processes : length (run smooth first_parent).processes ≡ 2
unfolding run first_parent round poll handle_key add_process keep_process give_turn event_at
two_processes = refl
