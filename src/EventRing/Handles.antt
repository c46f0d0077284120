-- ===== src/EventRing/Handles.antt =====
-- Lab_2/WIN/main.cpp: the parent's calls on handles, one round of its loop at a time. A handle is a
-- number, and 0 is null. The head of `processes` is the back of the vector. The wait for the reset
-- of an event is taken to end.
pub mod Ledger
pub mod Ending
pub mod Served
pub mod Refinement
pub mod Arguments
pub mod Names
mod Tests
use labs_spo.Common.{
  ℕ, suc, ◌+◌, Bool, true, false, not, List, [], ◌∷◌, ◌++◌, Option, none, some, ◌==◌, if◌then◌else◌,
  length,
}
use labs_spo.Common.Bytes.{Bytes, bytes}
use labs_spo.Common.Decimal.{digits}
use labs_spo.EventRing.{next_index}

-- `handle_pair`
pub record HandlePair : Type 0 where
  pub process : ℕ
  pub event : ℕ

-- `PROCESS_INFORMATION`
pub record ProcessInformation : Type 0 where
  pub process : ℕ
  pub thread : ℕ

-- The calls that a run makes, and its messages. `starts` has the arguments of the child and
-- `sets_event` the place of the child in the vector.
pub data Call : Type 0 where
  creates_event : Bytes → ℕ → Call
  starts : Bytes → ProcessInformation → Call
  sets_event : ℕ → ℕ → Call
  terminates : ℕ → Call
  resets_event : ℕ → Call
  closes : ℕ → Call
  failed_creating : Call
  cant_close : Call

-- Whether the loop runs on; 'q' has been pressed; `main` has returned 1 because there is no event
-- for the child that was just started; `new_process` has called `exit(1)` with an event at hand.
pub data Phase : Type 0 where
  running : Phase
  quitted : Phase
  no_event : ℕ → Phase
  no_process : ℕ → Phase

pub record Parent : Type 0 where
  pub processes : List HandlePair
  pub current_writing : ℕ
  pub phase : Phase
  pub log : List Call  -- newest first

-- What the system answers in one round: the key, if any, and what `CreateEventA` and
-- `CreateProcessA` give.
pub record Answers : Type 0 where
  pub key : Option ℕ
  pub event : ℕ
  pub started : Option ProcessInformation

pub event_name : ℕ → Bytes
event_name n = bytes "_write_event_" ++ digits (suc n) n

pub process_args : ℕ → Bytes
process_args n = bytes " Process " ++ digits (suc n) n

pub close_process : HandlePair → List Call → List Call
close_process p log =
    closes p.event ∷ (closes p.process ∷ (resets_event p.event ∷ (terminates p.process ∷ log)))

-- The loop of `close_all_processes`, from the back of the vector.
pub close_all : List HandlePair → List Call → List Call
close_all [] log = log
close_all (p ∷ ps) log = close_all ps (close_process p log)

-- What follows `new_process` for the key '+'.
pub keep_process : ℕ → ℕ → Parent → Parent
keep_process event process d =
    if event == 0
    then record d { processes = []; phase = no_event process; log = close_all d.processes d.log }
    else record d { processes = record { process = process; event = event } ∷ d.processes }

-- The key '+'; without a process `new_process` ends the program.
pub add_process : Option ProcessInformation → ℕ → Parent → Parent
unfolding keep_process
add_process none event d = record d {
  phase = no_process event;
  log = failed_creating ∷ (creates_event (event_name (suc (length d.processes))) event ∷ d.log);
}
add_process (some info) event d =
    let n = suc (length d.processes) in
    keep_process event info.process (record d {
      log = starts (process_args n) info ∷ (creates_event (event_name n) event ∷ d.log);
    })

-- The key '-'.
pub remove_process : List HandlePair → Parent → Parent
remove_process [] d = record d { log = cant_close ∷ d.log }
remove_process (p ∷ ps) d = record d { processes = ps; log = close_process p d.log }

-- The key 'q'.
pub quit : Parent → Parent
quit d = record d { processes = []; phase = quitted; log = close_all d.processes d.log }

pub handle_key : ℕ → Answers → Parent → Parent
unfolding add_process remove_process quit
handle_key c a d =
    if c == b'+'
    then add_process a.started a.event d
    else if c == b'-'
    then remove_process d.processes d
    else if c == b'q'
    then quit d
    else d

pub poll : Option ℕ → Answers → Parent → Parent
unfolding handle_key
poll none a d = d
poll (some c) a d = handle_key c a d

-- `processes[i].second`; the index is inside the vector.
pub event_at : ℕ → List HandlePair → ℕ
event_at i [] = 0
event_at i (p ∷ ps) = if i == length ps then p.event else event_at i ps

-- The second half of the loop's body, which a program that has ended does not come to.
pub give_turn : Phase → Parent → Parent
unfolding event_at
give_turn running d =
    let i = next_index d.current_writing (length d.processes) in
    if length d.processes == 0
    then d
    else record d { current_writing = i; log = sets_event i (event_at i d.processes) ∷ d.log }
give_turn phase d = d

-- One round of the loop, and none after its end.
pub round : Phase → Answers → Parent → Parent
unfolding poll give_turn
round running a d = let polled = poll a.key a d in give_turn polled.phase polled
round phase a d = d

pub run : List Answers → Parent → Parent
unfolding round
run [] d = d
run (a ∷ rest) d = run rest (round d.phase a d)

pub first_parent : Parent
first_parent = record { processes = []; current_writing = 0; phase = running; log = [] }
