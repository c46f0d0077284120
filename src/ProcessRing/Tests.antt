-- ===== src/ProcessRing/Tests.antt =====
-- Lab_2_1/main.cpp: the properties on concrete runs.
use labs_spo.Common.{
  ℕ, suc, ◌+◌, ◌*◌, ◌<◌, ◌≡◌, ◌≢◌, refl, inl, inr, true, List, [], ◌∷◌, Option, none, some, arith,
  replicate, All,
}
use labs_spo.ProcessRing.{
  HandlePair, running, Ring, Answers, tick, run, first_ring, round, finish_round, poll_keyboard,
  handle_key, add_process, new_handle_pair, turn_on, give_turn, remove_process,
  close_all_handle_pairs,
}
use labs_spo.ProcessRing.Ledger.{opened, closed, IsComplete}
use labs_spo.ProcessRing.Ending.{handles_closed}
use labs_spo.ProcessRing.Turns.{quiet, Served}
use labs_spo.ProcessRing.Service.{each_child_in_turn}

abbrev press : ℕ → ℕ → ℕ → Answers
press c process semaphore = record {
  key = some c;
  process = process;
  thread = 90;
  semaphore = semaphore;
  release_ok = true;
}

-- Two children are started, one is stopped, and the program is left.
abbrev session : List Answers
session = press b'+' 10 11 ∷ press b'+' 20 21 ∷ press b'-' 0 0 ∷ press b'Q' 0 0 ∷ []

semaphore_ok : (a : Answers) → a.semaphore ≢ 0 → IsComplete a
semaphore_ok a h = inr h

session-IsComplete : All IsComplete session
session-IsComplete = (
  semaphore_ok (press b'+' 10 11) (omega arith),
  (semaphore_ok (press b'+' 20 21) (omega arith), (inl refl, (inl refl, tt))),
)

last_of : Option Ring → Ring
last_of none = first_ring
last_of (some r) = r

abbrev session_end : Ring
session_end = last_of (run session first_ring)

handles_closed_example : opened 10 session_end.log ≡ closed 10 session_end.log
unfolding last_of run first_ring tick round finish_round poll_keyboard handle_key add_process
    new_handle_pair turn_on give_turn remove_process close_all_handle_pairs
handles_closed_example =
    handles_closed session {r = session_end} 10 session-IsComplete refl (λ e. cc)

abbrev pair : ℕ → HandlePair
pair n = record { process = 10 * n; semaphore = 10 * n + 1 }

abbrev three_children : Ring
three_children = record {
  processes = pair 3 ∷ pair 2 ∷ pair 1 ∷ [];
  current = 1;
  is_running = true;
  status = running;
  log = [];
}

each_child_in_turn_example :
    (d : ℕ) × (d < 3)
    × (s : Ring) × (run (replicate (suc d) quiet) three_children ≡ some s)
    × (s.processes ≡ three_children.processes)
    × (s.current ≡ 0)
    × Served (pair 1) s
each_child_in_turn_example =
    each_child_in_turn three_children 0 (pair 1) refl refl (omega arith) refl (omega arith)
