-- ===== src/ProcessRing.antt =====
-- Lab_2_1/main.cpp: the parent starts child processes, stops them, and lets them print in turn, one
-- semaphore to a child. A handle is a number, and 0 is a null handle. The head of `processes` is the
-- back of the vector.
pub mod Ledger
pub mod Ending
pub mod Turns
pub mod Service
mod Tests
use labs_spo.Common.{
  ℕ, zero, suc, ◌+◌, ◌-◌, ◌≡◌, Bool, true, false, List, [], ◌∷◌, ◌++◌, Option, none, some, ltb, leb,
  ◌==◌, if◌then◌else◌, length, get_elem?, ◌&&◌, ◌>>=◌,
}
use mathlib.Core.Option

-- `handle_pair`: the child and its semaphore.
pub record HandlePair : Type 0 where
  pub process : ℕ
  pub semaphore : ℕ

-- The calls of the system that a run makes, and its messages.
pub data Effect : Type 0 where
  opens : ℕ → Effect
  opens_thread : ℕ → Effect
  terminates : ℕ → Effect
  closes : ℕ → Effect
  releases : ℕ → Effect
  waits : ℕ → Effect
  error_code : Effect
  cant_close : Effect

pub data Status : Type 0 where
  running : Status
  returned : Status  -- the loop has ended, and `main` with it
  exited : Status  -- `exit(EXIT_FAILURE)`

pub record Ring : Type 0 where
  pub processes : List HandlePair
  pub current : ℕ
  pub is_running : Bool
  pub status : Status
  pub log : List Effect  -- newest first

-- What the system answers in one round of the loop: the key that is pressed, if any, the handles
-- that the calls of '+' give, and whether the semaphore can be released.
pub record Answers : Type 0 where
  pub key : Option ℕ
  pub process : ℕ
  pub thread : ℕ
  pub semaphore : ℕ
  pub release_ok : Bool

-- `close_handle_pair`
pub close_handle_pair : HandlePair → List Effect → List Effect
close_handle_pair p log = closes p.semaphore ∷ (closes p.process ∷ (terminates p.process ∷ log))

-- The loop of `close_all_handle_pairs`, from the back of the vector.
pub close_all : List HandlePair → List Effect → List Effect
close_all [] log = log
close_all (p ∷ ps) log = close_all ps (close_handle_pair p log)

pub close_all_handle_pairs : Ring → Ring
close_all_handle_pairs r = record r { processes = []; log = close_all r.processes r.log }

-- `new_handle_pair`: the pair, and what was opened for it. A child that cannot be started has no
-- semaphore either.
pub new_handle_pair : Answers → List Effect → HandlePair × List Effect
new_handle_pair a log = if a.process == 0 then (record { process = 0; semaphore = 0 }, log) else (
  record { process = a.process; semaphore = a.semaphore },
  (if a.semaphore == 0
      then opens_thread a.thread ∷ (opens a.process ∷ log)
      else opens a.semaphore ∷ (opens_thread a.thread ∷ (opens a.process ∷ log))),
)

-- The failure paths: the error is reported, the vector emptied, and the program left.
pub fail : Ring → Ring
unfolding close_all_handle_pairs
fail r = record (close_all_handle_pairs (record r { log = error_code ∷ r.log })) { status = exited }

-- The key '+', with what `new_handle_pair` gave.
pub add_process : HandlePair × List Effect → Ring → Ring
add_process (p, log) r =
    if p.process == 0
    then fail (record r { log = log })
    else if p.semaphore == 0
    then fail (record r { log = log })
    else record r { processes = p ∷ r.processes; log = log }

-- The key '-'.
pub remove_process : List HandlePair → Ring → Ring
remove_process [] r = record r { log = cant_close ∷ r.log }
remove_process (p ∷ ps) r = record r { processes = ps; log = close_handle_pair p r.log }

-- `::tolower`
abbrev pub tolower : ℕ → ℕ
tolower c = if leb b'A' c && leb c b'Z' then c + 32 else c

pub handle_key : ℕ → Answers → Ring → Ring
handle_key ch a r =
    if ch == b'+'
    then add_process (new_handle_pair a r.log) r
    else if ch == b'-'
    then remove_process r.processes r
    else if ch == b'q'
    then record (close_all_handle_pairs r) { is_running = false }
    else r

pub poll_keyboard : Option ℕ → Answers → Ring → Ring
poll_keyboard none a r = r
poll_keyboard (some c) a r = handle_key (tolower c) a r

-- `v[i]`, counted from the front of the vector.
abbrev pub vector_at : List HandlePair → ℕ → Option HandlePair
vector_at v i = get_elem? v (length v - 1 - i)

-- `if (++current >= processes.size()) { current = 0; }`
abbrev pub next_index : ℕ → ℕ → ℕ
next_index current size = if leb size (current + 1) then 0 else current + 1

-- The semaphore of the child whose turn it is is released, and waited for. `none` stands for an
-- index outside the vector.
pub give_turn : Option HandlePair → Bool → Ring → Option Ring
give_turn none release_ok r = none
give_turn (some p) release_ok r =
    if release_ok
    then some (record r { log = waits p.semaphore ∷ (releases p.semaphore ∷ r.log) })
    else some (fail r)

-- The second half of the loop's body.
pub turn_on : List HandlePair → Bool → Ring → Option Ring
turn_on [] release_ok r = some r
turn_on (p ∷ ps) release_ok r =
    let i = next_index r.current (length (p ∷ ps)) in
    give_turn (vector_at (p ∷ ps) i) release_ok (record r { current = i })

-- The end of a round: the test of `while`, unless `exit` has been called.
pub finish_round : Status → Answers → Ring → Option Ring
finish_round running a r =
    Option.map (λ s. if s.is_running then s else record s { status = returned })
      (turn_on r.processes a.release_ok r)
finish_round status a r = some r

-- One round of the loop of `main`. A program that has ended does nothing.
pub round : Status → Answers → Ring → Option Ring
round running a r = let s = poll_keyboard a.key a r in finish_round s.status a s
round status a r = some r

pub tick : Answers → Ring → Option Ring
tick a r = round r.status a r

pub run : List Answers → Ring → Option Ring
run [] r = some r
run (a ∷ rest) r = tick a r >>= run rest

-- `main` before its loop.
pub first_ring : Ring
first_ring = record { processes = []; current = 0; is_running = true; status = running; log = [] }
